-- ===== src/UpdateJobs/Cleanup.antt =====
-- What the clean-up of the job tracker removes and keeps (src/mcp/job-tracker.ts).
use personal_knowledge_mcp.Base.{
  Bool, List, Option, [], arith, false, if◌then◌else◌, is_some, ltb, none, refl, some, true, ℕ, ◌-◌,
  ◌∙◌, ◌∷◌, ◌≡◌,
}
use personal_knowledge_mcp.JsMap.Defs.{delete, get, has}
use personal_knowledge_mcp.JsMap.Laws.{IsMap, delete-IsMap, get-delete_ne, get-delete_self}
use personal_knowledge_mcp.UpdateJobs.JobTracker.{
  UpdateJob, aged_jobs, completed_jobs, delete_jobs, ids, insert_by_time, sort_by_time,
}

-- Membership of an id, and no id twice.
module _ {I : Type 0} (dec_id : Discrete I) where
  abbrev pub listed : I → List I → Bool
  listed i [] = false
  listed i (j ∷ is) = elim (dec_id j i) [ yes _ ↦ true | no _ ↦ listed i is ]

  abbrev pub IsDistinct : List I → Type 0
  IsDistinct [] = Unit
  IsDistinct (i ∷ is) = (listed i is ≡ false) × IsDistinct is

  listed-insert :
      (i : I) (e : I × ℕ) (l : List (I × ℕ))
      → listed i (ids (insert_by_time e l)) ≡ listed i (ids (e ∷ l))
  unfolding insert_by_time ids
  listed-insert i e [] = refl
  listed-insert i e (x ∷ l) = ground (arith, listed-insert i e l)

  pub listed-sort : (i : I) (l : List (I × ℕ)) → listed i (ids (sort_by_time l)) ≡ listed i (ids l)
  unfolding sort_by_time ids
  listed-sort i [] = refl
  listed-sort i (e ∷ l) = ground (arith, listed-insert i e (sort_by_time l), listed-sort i l)

  insert-IsDistinct :
      (e : I × ℕ) (l : List (I × ℕ))
      → IsDistinct (ids (e ∷ l))
      → IsDistinct (ids (insert_by_time e l))
  unfolding insert_by_time ids
  insert-IsDistinct e [] h = h
  insert-IsDistinct e (x ∷ l) h = ground (arith, insert-IsDistinct e l, listed-insert x.0 e l)

  pub sort-IsDistinct : (l : List (I × ℕ)) → IsDistinct (ids l) → IsDistinct (ids (sort_by_time l))
  unfolding sort_by_time ids
  sort-IsDistinct [] h = h
  sort-IsDistinct ((i, at) ∷ l) (absent, h) =
      insert-IsDistinct (i, at) (sort_by_time l)
        (unfold ids in listed-sort i l ∙ absent, sort-IsDistinct l h)

-- When the job of a lookup completed, if there is one and it did.
abbrev pub completion : {K I R E : Type 0} → Option (UpdateJob K I R E) → Option ℕ
completion none = none
completion (some job) = job.completed_at

module _ {K I R E : Type 0} (dec : Discrete K) (dec_id : Discrete I) where
  pub get-delete_jobs :
      (i : I) (is : List I) (m : List (I × UpdateJob K I R E))
      → get dec_id i (delete_jobs dec dec_id is m)
        ≡ (if listed dec_id i is then none else get dec_id i m)
  unfolding delete_jobs
  get-delete_jobs i [] m = refl
  get-delete_jobs i (j ∷ is) m = elim (dec_id i j) [
    | yes e ↦
        rw e (ground (arith, get-delete_jobs j is (delete dec_id j m), get-delete_self dec_id j m))
    | no n ↦ ground (arith, get-delete_jobs i is (delete dec_id j m), get-delete_ne dec_id j i m n)
  ]

  -- Completed entries come from completed jobs.
  pub completed_of_listed :
      (i : I) (m : List (I × UpdateJob K I R E))
      → IsMap dec_id m
      → listed dec_id i (ids (completed_jobs m)) ≡ is_some (completion (get dec_id i m))
  unfolding completed_jobs get ids has
  completed_of_listed i [] h = refl
  completed_of_listed i ((j, job) ∷ m) (absent, h) = ground (arith, completed_of_listed i m h)

  pub aged_of_listed :
      (max_age now : ℕ) (i : I) (m : List (I × UpdateJob K I R E))
      → IsMap dec_id m
      → listed dec_id i (aged_jobs max_age now m)
        ≡ elim (completion (get dec_id i m)) [ none ↦ false | some at ↦ ltb max_age (now - at) ]
  unfolding aged_jobs get has
  aged_of_listed max_age now i [] h = refl
  aged_of_listed max_age now i ((j, job) ∷ m) (absent, h) =
      ground (arith, aged_of_listed max_age now i m h)

  pub delete_jobs-IsMap :
      (is : List I) (m : List (I × UpdateJob K I R E))
      → IsMap dec_id m
      → IsMap dec_id (delete_jobs dec dec_id is m)
  unfolding delete_jobs
  delete_jobs-IsMap [] m h = h
  delete_jobs-IsMap (i ∷ is) m h =
      delete_jobs-IsMap is (delete dec_id i m) (delete-IsMap dec_id i m h)
