-- ===== src/Discovery/Scan/JobEnded.antt =====
-- How a scan leaves its job, crates/reference-core/src/discovery.rs.
use reference_library.Common.{
  ℕ, ◌+◌, ◌≡◌, refl, String, Bool, true, false, List, [], ◌∷◌, any, ◌&&◌, Bool-cases, inl, inr,
  arith,
}
use reference_library.Errors.{CoreError}
use reference_library.Fallible.{Result, ok, err, Result-cases}
use reference_library.Database.{Db, JobRow, update_where}
use reference_library.Session.State.{is_active}
use reference_library.Discovery.Marks.{
  ScanPlan, is_job, ended, failed_with, mark_completed, mark_cancelled, mark_failed,
}
use reference_library.Discovery.Store.{NewIds}
use reference_library.Discovery.Flush.{flush_batch}
use reference_library.Discovery.Walk.{
  Disk, Walk, Ran, going, cancelled, broken, then_go, flush, walk_stack, max_scan_entries,
}
use reference_library.Discovery.Scan.{
  first_walk, cancelled_end, completed_end, finish_cancelled, finish, run_scan, scan_ended,
  scan_root,
}

abbrev pub under_way : (job_id : String) → JobRow → Bool
under_way job_id job = is_job job_id job && is_active job

-- An update that ends the jobs it is for leaves none of them under way.
ended_jobs :
    (job_id : String) (f : JobRow → JobRow)
    → ((job : JobRow) → is_active (f job) ≡ false)
    → (jobs : List JobRow) → any (under_way job_id) (update_where (is_job job_id) f jobs) ≡ false
ended_jobs job_id f ends [] = refl
ended_jobs job_id f ends (job ∷ jobs) = elim (Bool-cases (is_job job_id job)) [
  | inl e ↦ rw e (ground (arith, ends job, ended_jobs job_id f ends jobs))
  | inr e ↦ rw e (ground (arith, e, ended_jobs job_id f ends jobs))
]

module _ (plan : ScanPlan) where
  abbrev IsOver : Db → Type 0
  IsOver db = any (under_way plan.job_id) db.jobs ≡ false

  mark_completed-IsOver :
      (count unsupported timestamp : ℕ) (db : Db)
      → IsOver (mark_completed plan count unsupported timestamp db)
  unfolding mark_completed
  mark_completed-IsOver count unsupported timestamp db =
      ended_jobs plan.job_id (ended "completed" count unsupported timestamp) (λ job. refl) db.jobs

  mark_cancelled-IsOver :
      (count unsupported timestamp : ℕ) (db : Db)
      → IsOver (mark_cancelled plan count unsupported timestamp db)
  unfolding mark_cancelled
  mark_cancelled-IsOver count unsupported timestamp db =
      ended_jobs plan.job_id (ended "cancelled" count unsupported timestamp) (λ job. refl) db.jobs

  mark_failed-IsOver :
      (cause : CoreError) (timestamp : ℕ) (db : Db) → IsOver (mark_failed plan cause timestamp db).1
  unfolding mark_failed
  mark_failed-IsOver cause timestamp db =
      ended_jobs plan.job_id (failed_with cause timestamp) (λ job. refl) db.jobs

  -- A run that is not broken is over.
  abbrev RunOver : Ran → Type 0
  RunOver (going w) = IsOver w.scanned.db
  RunOver (cancelled w) = IsOver w.scanned.db
  RunOver (broken cause w) = Unit {0}

  module _ (disk : Disk) (is_cancelled : ℕ → Bool) (new_ids : ℕ → NewIds) (now : ℕ → ℕ) where
    -- A flush goes on or breaks.
    flush-RunOver :
        (w : Walk) (next : Walk → Ran)
        → ((v : Walk) → RunOver (next v))
        → RunOver (then_go (flush disk plan is_cancelled new_ids now w) next)
    unfolding flush
    flush-RunOver w next f =
        elim (Result-cases (flush_batch disk.is_absent plan (now w.looks) w.batch w.scanned)) [
          | inr (cause, e) ↦ rw e tt
          | inl ((events, new), e) ↦ rw e (f _)
        ]

    finish-RunOver : (r : Ran) → RunOver (finish disk plan is_cancelled new_ids now r)
    unfolding finish_cancelled
    finish-RunOver (going w) =
        flush-RunOver w (completed_end disk plan is_cancelled new_ids now) (λ v.
          mark_completed-IsOver v.scanned.observed_count v.scanned.unsupported_count (now v.looks)
            _)
    finish-RunOver (cancelled w) =
        flush-RunOver w (cancelled_end disk plan is_cancelled new_ids now) (λ v.
          mark_cancelled-IsOver v.scanned.observed_count v.scanned.unsupported_count (now v.looks)
            v.scanned.db)
    finish-RunOver (broken cause w) = tt

    run_scan-RunOver :
        (opened : Result (Unit {0})) (db : Db)
        → RunOver (run_scan disk plan is_cancelled new_ids now opened db)
    unfolding run_scan
    run_scan-RunOver (err cause) db = tt
    run_scan-RunOver (ok opened) db =
        finish-RunOver
          (walk_stack disk plan is_cancelled new_ids now (max_scan_entries + 2) (first_walk db))

    scan_ended-IsOver :
        (reopened : Result (Unit {0})) (r : Ran)
        → RunOver r
        → (scan_ended disk plan is_cancelled new_ids now reopened r).terminal_persisted ≡ true
        → IsOver (scan_ended disk plan is_cancelled new_ids now reopened r).db
    scan_ended-IsOver reopened (going w) h stored = h
    scan_ended-IsOver reopened (cancelled w) h stored = h
    scan_ended-IsOver (err persistence) (broken cause w) h stored = cc
    scan_ended-IsOver (ok again) (broken cause w) h stored =
        mark_failed-IsOver cause (now w.looks) w.scanned.db

-- Where a scan says that its end is stored, its job is neither queued nor running.
pub scan_root-over :
    (disk : Disk) (plan : ScanPlan) (is_cancelled : ℕ → Bool) (new_ids : ℕ → NewIds) (now : ℕ → ℕ)
    (opened reopened : Result (Unit {0})) (db : Db)
    → (scan_root disk plan is_cancelled new_ids now opened reopened db).terminal_persisted ≡ true
    → any
        (under_way plan.job_id)
        (scan_root disk plan is_cancelled new_ids now opened reopened db).db.jobs
      ≡ false
unfolding scan_root
scan_root-over disk plan is_cancelled new_ids now opened reopened db =
    scan_ended-IsOver plan disk is_cancelled new_ids now reopened
      (run_scan disk plan is_cancelled new_ids now opened db)
      (run_scan-RunOver plan disk is_cancelled new_ids now opened db)
