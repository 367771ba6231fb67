-- ===== src/UpdateJobs/Size.antt =====
-- The size of the job tracker after a clean-up (src/mcp/job-tracker.ts).
use personal_knowledge_mcp.Base.{
  Bool-cases, List, [], ap, arith, inl, inr, length, length-take, max, min, none, refl, some, suc,
  sym, take, true, ℕ, ◌+◌, ◌-◌, ◌∙◌, ◌∷◌, ◌≡◌, ◌≤◌,
}
use personal_knowledge_mcp.JsMap.Defs.{delete, has}
use personal_knowledge_mcp.JsMap.Laws.{IsMap, delete-IsMap, has-delete, length-delete}
use personal_knowledge_mcp.UpdateJobs.Cleanup.{
  IsDistinct, completed_of_listed, delete_jobs-IsMap, listed, listed-sort, sort-IsDistinct,
}
use personal_knowledge_mcp.UpdateJobs.JobTracker.{
  JobTracker, UpdateJob, aged_jobs, cleanup, completed_jobs, delete_jobs, ids, insert_by_time,
  sort_by_time,
}
use personal_knowledge_mcp.UpdateJobs.Retention.{
  cleanup-jobs, listed-take, surplus, take-IsDistinct, unaged,
}
use mathlib.Core.Bool.{false≢true}

module _ {I : Type 0} where
  length-ids : (l : List (I × ℕ)) → length (ids l) ≡ length l
  unfolding ids
  length-ids [] = refl
  length-ids (e ∷ l) = ap suc (length-ids l)

  length-insert : (e : I × ℕ) (l : List (I × ℕ)) → length (insert_by_time e l) ≡ suc (length l)
  unfolding insert_by_time
  length-insert e [] = refl
  length-insert e (x ∷ l) = ground (arith, length-insert e l)

  length-sort : (l : List (I × ℕ)) → length (sort_by_time l) ≡ length l
  unfolding sort_by_time
  length-sort [] = refl
  length-sort (e ∷ l) = length-insert e (sort_by_time l) ∙ ap suc (length-sort l)

module _ {I : Type 0} (dec_id : Discrete I) where
  listed_of-take :
      (i : I) (n : ℕ) (l : List (I × ℕ))
      → listed dec_id i (ids (take n l)) ≡ true
      → listed dec_id i (ids l) ≡ true
  listed_of-take i n l h = elim (Bool-cases (listed dec_id i (ids l))) [
    | inl e ↦ e
    | inr e ↦ absurd (false≢true (sym (listed-take dec_id i n l e) ∙ h))
  ]

module _ {K I R E : Type 0} (dec : Discrete K) (dec_id : Discrete I) where
  -- Each deletion of a listed job that is there makes the map one smaller.
  length-delete_jobs :
      (is : List I) (m : List (I × UpdateJob K I R E))
      → IsMap dec_id m
      → IsDistinct dec_id is
      → ((i : I) → listed dec_id i is ≡ true → has dec_id i m ≡ true)
      → length (delete_jobs dec dec_id is m) + length is ≡ length m
  unfolding delete_jobs
  length-delete_jobs [] m h d all = omega arith
  length-delete_jobs (i ∷ is) m h (absent, d) all =
      let there : has dec_id i m ≡ true = all i (ground arith) in
      let rest =
        length-delete_jobs is (delete dec_id i m) (delete-IsMap dec_id i m h) d
          (λ j l. ground (arith, all j, has-delete dec_id i j m)) in
      omega (arith, rest, length-delete dec_id i m h there)

  -- The number of the jobs that have not completed.
  unfoldable pub count_unfinished : List (I × UpdateJob K I R E) → ℕ
  count_unfinished [] = 0
  count_unfinished ((i, job) ∷ m) =
      let rest = count_unfinished m in elim job.completed_at [ none ↦ suc rest | some at ↦ rest ]

  count_all :
      (m : List (I × UpdateJob K I R E)) → length m ≡ count_unfinished m + length (completed_jobs m)
  unfolding count_unfinished completed_jobs
  count_all [] = refl
  count_all ((i, job) ∷ m) = ground (arith, count_all m)

  count-delete :
      (i : I) (m : List (I × UpdateJob K I R E))
      → count_unfinished (delete dec_id i m) ≤ count_unfinished m
  unfolding count_unfinished delete
  count-delete i [] = omega arith
  count-delete i ((j, job) ∷ m) = ground (arith, count-delete i m)

  count-delete_jobs :
      (is : List I) (m : List (I × UpdateJob K I R E))
      → count_unfinished (delete_jobs dec dec_id is m) ≤ count_unfinished m
  unfolding delete_jobs
  count-delete_jobs [] m = omega arith
  count-delete_jobs (i ∷ is) m =
      omega (arith, count-delete_jobs is (delete dec_id i m), count-delete i m)

  completed-IsDistinct :
      (m : List (I × UpdateJob K I R E))
      → IsMap dec_id m
      → IsDistinct dec_id (ids (completed_jobs m))
  unfolding completed_jobs ids has
  completed-IsDistinct [] h = tt
  completed-IsDistinct ((i, job) ∷ m) (absent, h) =
      ground (arith, completed-IsDistinct m h, completed_of_listed dec dec_id i m h)

  surplus-present :
      (n : ℕ) (i : I) (m : List (I × UpdateJob K I R E))
      → IsMap dec_id m
      → listed dec_id i (ids (take n (sort_by_time (completed_jobs m)))) ≡ true
      → has dec_id i m ≡ true
  unfolding has
  surplus-present n i m h l =
      let done =
        sym (listed-sort dec_id i (completed_jobs m))
        ∙ listed_of-take dec_id i n (sort_by_time (completed_jobs m)) l in
      ground (arith, completed_of_listed dec dec_id i m h)

  -- After the clean-up a tracker whose ids are distinct holds at most `maxJobs` jobs, or, if more
  -- than that were unfinished before, at most as many as were unfinished.
  pub cleanup_bounded :
      (now : ℕ) (t : JobTracker K I R E)
      → IsMap dec_id t.jobs
      → length (cleanup dec dec_id now t).jobs ≤ max t.max_jobs (count_unfinished t.jobs)
  unfolding unaged surplus
  cleanup_bounded now t h =
      let aged = aged_jobs t.max_job_age_ms now t.jobs in
      let m = unaged dec dec_id now t in
      let done = completed_jobs m in
      let n = min (length m - t.max_jobs) (length (sort_by_time done)) in
      let hm = delete_jobs-IsMap dec dec_id aged t.jobs h in
      let gone = surplus dec dec_id now t in
      rw (cleanup-jobs dec dec_id now t) (
        ground (
          arith,
          count_all m,
          count-delete_jobs aged t.jobs,
          length-sort done,
          length-ids (take n (sort_by_time done)),
          length-take n (sort_by_time done),
          length-delete_jobs gone m hm
              (take-IsDistinct dec_id n (sort_by_time done)
                (sort-IsDistinct dec_id done (completed-IsDistinct m hm)))
              (λ i l. surplus-present n i m hm l),
        ))
