-- ===== src/UpdateJobs/JobTracker.antt =====
-- `JobTracker` (src/mcp/job-tracker.ts), over repository names and job ids with decidable
-- equality, update results and error messages. Times are in milliseconds, where the source keeps
-- ISO strings and parses them back.
use personal_knowledge_mcp.Base.{
  Bool, List, Option, [], false, if◌then◌else◌, leb, length, ltb, min, none, or_default, some, take,
  true, ℕ, ◌-◌, ◌||◌, ◌∷◌,
}
use personal_knowledge_mcp.JsMap.Defs.{delete, get, set}

pub data JobStatus : Type 0 where
  pending running completed failed timed_out : JobStatus

pub record UpdateJob (K I R E : Type 0) : Type 0 where
  pub id : I
  pub repository : K
  pub status : JobStatus
  pub started_at : ℕ
  pub completed_at : Option ℕ
  pub result : Option R
  pub error : Option E

pub record JobTracker (K I R E : Type 0) : Type 0 where
  pub jobs : List (I × UpdateJob K I R E)
  pub max_job_age_ms : ℕ
  pub max_jobs : ℕ

abbrev pub default_max_job_age_ms : ℕ
default_max_job_age_ms = 3600000

abbrev pub default_max_jobs : ℕ
default_max_jobs = 100

abbrev pub is_active : JobStatus → Bool
is_active pending = true
is_active running = true
is_active _ = false

module _ {K I R E : Type 0} where
  unfoldable pub new_tracker : Option ℕ → Option ℕ → JobTracker K I R E
  new_tracker age jobs = record {
    jobs = [];
    max_job_age_ms = or_default age default_max_job_age_ms;
    max_jobs = or_default jobs default_max_jobs;
  }

  -- The ids of the jobs that completed longer ago than `maxJobAgeMs`.
  unfoldable pub aged_jobs : ℕ → ℕ → List (I × UpdateJob K I R E) → List I
  aged_jobs max_age now [] = []
  aged_jobs max_age now ((i, job) ∷ jobs) =
      let rest = aged_jobs max_age now jobs in
      elim job.completed_at [
        | none ↦ rest
        | some at ↦ if ltb max_age (now - at) then i ∷ rest else rest
      ]

  -- The completed jobs with the time of completion.
  unfoldable pub completed_jobs : List (I × UpdateJob K I R E) → List (I × ℕ)
  completed_jobs [] = []
  completed_jobs ((i, job) ∷ jobs) =
      let rest = completed_jobs jobs in
      elim job.completed_at [ none ↦ rest | some at ↦ (i, at) ∷ rest ]

-- `sort` by the time of completion; it is stable.
module _ {I : Type 0} where
  unfoldable pub insert_by_time : I × ℕ → List (I × ℕ) → List (I × ℕ)
  insert_by_time e [] = e ∷ []
  insert_by_time e (x ∷ l) =
      let rest = insert_by_time e l in if leb e.1 x.1 then e ∷ x ∷ l else x ∷ rest

  unfoldable pub sort_by_time : List (I × ℕ) → List (I × ℕ)
  unfolding insert_by_time
  sort_by_time [] = []
  sort_by_time (e ∷ l) = insert_by_time e (sort_by_time l)

  unfoldable pub ids : List (I × ℕ) → List I
  ids [] = []
  ids ((i, at) ∷ l) = i ∷ ids l

module _ {K I R E : Type 0} (dec : Discrete K) (dec_id : Discrete I) where
  unfoldable pub delete_jobs : List I → List (I × UpdateJob K I R E) → List (I × UpdateJob K I R E)
  delete_jobs [] jobs = jobs
  delete_jobs (i ∷ is) jobs = delete_jobs is (delete dec_id i jobs)

  unfoldable pub cleanup : ℕ → JobTracker K I R E → JobTracker K I R E
  cleanup now t =
      let jobs1 = delete_jobs (aged_jobs t.max_job_age_ms now t.jobs) t.jobs in
      let oldest = sort_by_time (completed_jobs jobs1) in
      let to_remove = length jobs1 - t.max_jobs in
      record t {
        jobs =
            if ltb t.max_jobs (length jobs1)
            then delete_jobs (ids (take (min to_remove (length oldest)) oldest)) jobs1
            else jobs1;
      }

  -- `createJob`, given the id that `generateJobId` made.
  unfoldable pub create_job : ℕ → I → K → JobTracker K I R E → JobTracker K I R E
  create_job now i repository t =
      let t1 = cleanup now t in
      record t1 {
        jobs =
            set dec_id i
              (record {
                id = i;
                repository = repository;
                status = pending;
                started_at = now;
                completed_at = none;
                result = none;
                error = none;
              })
              t1.jobs;
      }

  -- The method's change of the job, if there is one with this id.
  unfoldable pub change_job :
      I → (UpdateJob K I R E → UpdateJob K I R E) → JobTracker K I R E → JobTracker K I R E
  change_job i change t = elim (get dec_id i t.jobs) [
    | none ↦ t
    | some job ↦ record t { jobs = set dec_id i (change job) t.jobs }
  ]

  unfoldable pub update_status : I → JobStatus → JobTracker K I R E → JobTracker K I R E
  update_status i status = change_job i (λ job. record job { status = status })

  unfoldable pub complete : ℕ → I → R → JobTracker K I R E → JobTracker K I R E
  complete now i result =
      change_job i
        (λ job. record job { status = completed; completed_at = some now; result = some result })

  unfoldable pub fail : ℕ → I → E → JobTracker K I R E → JobTracker K I R E
  fail now i error =
      change_job i
        (λ job. record job { status = failed; completed_at = some now; error = some error })

  -- `timeout`, with its fixed message.
  unfoldable pub time_out : ℕ → I → E → JobTracker K I R E → JobTracker K I R E
  time_out now i message =
      change_job i
        (λ job. record job { status = timed_out; completed_at = some now; error = some message })

  unfoldable pub get_job : I → JobTracker K I R E → Option (UpdateJob K I R E)
  get_job i t = get dec_id i t.jobs

  abbrev pub runs_for : K → UpdateJob K I R E → Bool
  runs_for repository job = elim (dec job.repository repository) [
    | yes _ ↦ is_active job.status
    | no _ ↦ false
  ]

  unfoldable pub running_in : K → List (I × UpdateJob K I R E) → Option (UpdateJob K I R E)
  running_in repository [] = none
  running_in repository ((i, job) ∷ jobs) =
      if runs_for repository job then some job else running_in repository jobs

  unfoldable pub get_running_job : K → JobTracker K I R E → Option (UpdateJob K I R E)
  unfolding running_in
  get_running_job repository t = running_in repository t.jobs

  unfoldable pub any_running : K → List (I × UpdateJob K I R E) → Bool
  any_running repository [] = false
  any_running repository ((i, job) ∷ jobs) = runs_for repository job || any_running repository jobs

  unfoldable pub has_running_job : K → JobTracker K I R E → Bool
  unfolding any_running
  has_running_job repository t = any_running repository t.jobs

  unfoldable pub clear_jobs : JobTracker K I R E → JobTracker K I R E
  clear_jobs t = record t { jobs = [] }
