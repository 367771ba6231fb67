-- ===== src/UpdateJobs/Retention.antt =====
-- Which jobs the clean-up of the job tracker keeps (src/mcp/job-tracker.ts).
use personal_knowledge_mcp.Base.{
  List, [], arith, false, if◌then◌else◌, length, ltb, min, none, refl, some, subst, suc, take, zero,
  ℕ, ◌+◌, ◌-◌, ◌∙◌, ◌∷◌, ◌≡◌, ◌≤◌,
}
use personal_knowledge_mcp.JsMap.Defs.{get}
use personal_knowledge_mcp.JsMap.Laws.{IsMap}
use personal_knowledge_mcp.UpdateJobs.Cleanup.{
  IsDistinct, aged_of_listed, completed_of_listed, delete_jobs-IsMap, get-delete_jobs, listed,
  listed-sort,
}
use personal_knowledge_mcp.UpdateJobs.JobTracker.{
  JobTracker, UpdateJob, aged_jobs, cleanup, completed_jobs, delete_jobs, ids, sort_by_time,
}

module _ {I : Type 0} (dec_id : Discrete I) where
  pub listed-take :
      (i : I) (n : ℕ) (l : List (I × ℕ))
      → listed dec_id i (ids l) ≡ false
      → listed dec_id i (ids (take n l)) ≡ false
  unfolding ids
  listed-take i zero l h = refl
  listed-take i (suc n) [] h = refl
  listed-take i (suc n) ((j, at) ∷ l) h = ground (arith, listed-take i n l)

  pub take-IsDistinct :
      (n : ℕ) (l : List (I × ℕ)) → IsDistinct dec_id (ids l) → IsDistinct dec_id (ids (take n l))
  unfolding ids
  take-IsDistinct zero l h = tt
  take-IsDistinct (suc n) [] h = tt
  take-IsDistinct (suc n) ((j, at) ∷ l) (absent, h) =
      (listed-take j n l absent, take-IsDistinct n l h)

module _ {K I R E : Type 0} (dec : Discrete K) (dec_id : Discrete I) where
  -- The jobs left by the first pass of the clean-up.
  unfoldable pub unaged : ℕ → JobTracker K I R E → List (I × UpdateJob K I R E)
  unaged now t = delete_jobs dec dec_id (aged_jobs t.max_job_age_ms now t.jobs) t.jobs

  -- The ids that the second pass deletes.
  unfoldable pub surplus : ℕ → JobTracker K I R E → List I
  surplus now t =
      let oldest = sort_by_time (completed_jobs (unaged now t)) in
      ids (take (min (length (unaged now t) - t.max_jobs) (length oldest)) oldest)

  pub cleanup-jobs :
      (now : ℕ) (t : JobTracker K I R E)
      → (cleanup dec dec_id now t).jobs ≡ (
          if ltb t.max_jobs (length (unaged now t))
          then delete_jobs dec dec_id (surplus now t) (unaged now t)
          else unaged now t)
  unfolding cleanup unaged surplus
  cleanup-jobs now t = refl

  -- The clean-up of a tracker whose ids are distinct keeps every job that has not completed, as
  -- it is.
  pub cleanup_keeps_unfinished :
      (now : ℕ) (i : I) (t : JobTracker K I R E) {job : UpdateJob K I R E}
      → IsMap dec_id t.jobs
      → get dec_id i t.jobs ≡ some job
      → job.completed_at ≡ none
      → get dec_id i (cleanup dec dec_id now t).jobs ≡ some job
  unfolding unaged surplus
  cleanup_keeps_unfinished now i t {job} h e unfinished =
      let aged = aged_jobs t.max_job_age_ms now t.jobs in
      let young : listed dec_id i aged ≡ false =
        ground (arith, aged_of_listed dec dec_id t.max_job_age_ms now i t.jobs h) in
      let kept : get dec_id i (unaged now t) ≡ some job =
        get-delete_jobs dec dec_id i aged t.jobs ∙ rw young e in
      let m = unaged now t in
      let oldest = sort_by_time (completed_jobs m) in
      let open_job : listed dec_id i (ids oldest) ≡ false =
        listed-sort dec_id i (completed_jobs m)
        ∙ ground (
          arith,
          completed_of_listed dec dec_id i m (delete_jobs-IsMap dec dec_id aged t.jobs h),
        ) in
      let spared : listed dec_id i (surplus now t) ≡ false =
        listed-take dec_id i (min (length m - t.max_jobs) (length oldest)) oldest open_job in
      rw (cleanup-jobs now t) (ground (arith, get-delete_jobs dec dec_id i (surplus now t) m))

  -- After the clean-up of a tracker whose ids are distinct no job is left that completed more
  -- than `maxJobAgeMs` ago.
  pub cleanup_drops_aged :
      (now at : ℕ) (i : I) (t : JobTracker K I R E) {job : UpdateJob K I R E}
      → IsMap dec_id t.jobs
      → get dec_id i (cleanup dec dec_id now t).jobs ≡ some job
      → job.completed_at ≡ some at
      → now ≤ at + t.max_job_age_ms
  unfolding unaged
  cleanup_drops_aged now at i t {job} h e done =
      let aged = aged_jobs t.max_job_age_ms now t.jobs in
      let m = unaged now t in
      ground (
        arith,
        subst (λ l. get dec_id i l ≡ some job) (cleanup-jobs now t) e,
        get-delete_jobs dec dec_id i (surplus now t) m,
        get-delete_jobs dec dec_id i aged t.jobs,
        aged_of_listed dec dec_id t.max_job_age_ms now i t.jobs h,
      )
