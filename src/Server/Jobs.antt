-- ===== src/Server/Jobs.antt =====
-- The controls of background jobs: `reap_finished_scans` and `stop_jobs_for_session` of
-- crates/reference-core/src/server.rs. `waits` stands for the wait on a job's condition variable.
pub mod Stopped
pub mod Everywhere
use reference_library.Common.{
  ℕ, String, Bool, true, false, not, Option, none, some, List, [], ◌∷◌, ◌&&◌, str_eq, if◌then◌else◌,
  keep_if, map,
}
use reference_library.Errors.{CoreError, rendition_timed_out, rendition_cache_failure}
use reference_library.Fallible.{Result, ok, err, ◌>>=◌, ◌>>◌}
use reference_library.Server.Engine.{JobControl, is_scan, lookup, remove}

-- How a wait ends: the worker is done, the deadline passed, or the lock is poisoned.
pub data Waited : Type 0 where
  completed timed_out poisoned : Waited

abbrev pub is_finished : Option Bool → Bool
is_finished none = false
is_finished (some finished) = finished

abbrev pub is_finished_scan : String × JobControl → Bool
is_finished_scan job = is_scan job.1.kind && is_finished job.1.handle_finished

abbrev pub keys : List (String × JobControl) → List String
keys jobs = map (λ job. job.0) jobs

-- `for job_id in job_ids { self.jobs.remove(job_id) … }`
unfoldable pub remove_all : List String → List (String × JobControl) → List (String × JobControl)
remove_all [] jobs = jobs
remove_all (id ∷ ids) jobs = remove_all ids (remove jobs id)

unfoldable pub reap_finished_scans : List (String × JobControl) → List (String × JobControl)
unfolding remove_all
reap_finished_scans jobs = remove_all (keys (keep_if is_finished_scan jobs)) jobs

abbrev pub of_session : String → String × JobControl → Bool
of_session session_id job = str_eq job.1.session_id session_id

abbrev pub cancel : String → String × JobControl → String × JobControl
cancel session_id job =
    if of_session session_id job then (job.0, record job.1 { cancelled = true }) else job

abbrev pub outcome : Waited → Result (Unit {0})
outcome Waited.completed = ok tt
outcome Waited.timed_out = err rendition_timed_out
outcome Waited.poisoned = err rendition_cache_failure

-- A job without a completion is passed over.
abbrev pub wait_for : (String → Waited) → List (String × JobControl) → String → Result (Unit {0})
wait_for waits jobs id = elim (lookup jobs id) [
  | none ↦ ok tt
  | some job ↦ elim job.completion [
    | none ↦ ok tt
    | some done ↦ if done then ok tt else outcome (waits id)
  ]
]

unfoldable pub wait_all :
    (String → Waited) → List (String × JobControl) → List String → Result (Unit {0})
wait_all waits jobs [] = ok tt
wait_all waits jobs (id ∷ ids) = do wait_for waits jobs id; wait_all waits jobs ids

unfoldable pub stop_jobs_for_session :
    (String → Waited)
    → List (String × JobControl)
    → String
    → Result (Unit {0}) × List (String × JobControl)
unfolding wait_all remove_all
stop_jobs_for_session waits jobs session_id =
    let job_ids = keys (keep_if (of_session session_id) jobs) in
    let cancelled = map (cancel session_id) jobs in
    elim (wait_all waits cancelled job_ids) [
      | ok done ↦ (ok tt, remove_all job_ids cancelled)
      | err cause ↦ (err cause, cancelled)
    ]

-- `for session_id in session_ids { self.stop_jobs_for_session(&session_id)?; }`
unfoldable pub stop_each :
    (String → Waited)
    → (session_ids : List String) → List (String × JobControl)
    → Result (Unit {0}) × List (String × JobControl)
stop_each waits [] jobs = (ok tt, jobs)
stop_each waits (session_id ∷ session_ids) jobs =
    let stopped = stop_jobs_for_session waits jobs session_id in
    let rest = stop_each waits session_ids stopped.1 in
    elim stopped.0 [ ok done ↦ rest | err cause ↦ (err cause, stopped.1) ]

abbrev pub session_ids : List (String × JobControl) → List String
session_ids jobs = map (λ job. job.1.session_id) jobs

unfoldable pub stop_all_jobs :
    (String → Waited) → List (String × JobControl) → Result (Unit {0}) × List (String × JobControl)
unfolding stop_each
stop_all_jobs waits jobs = stop_each waits (session_ids jobs) jobs
