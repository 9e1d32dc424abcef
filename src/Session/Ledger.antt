-- ===== src/Session/Ledger.antt =====
-- On the jobs that recovery, the ends of scans and resources change: crates/reference-core/src/session.rs,
-- discovery.rs and rendition.rs.
use reference_library.Common.{
  ℕ, ◌≡◌, refl, String, Bool, true, false, Option, List, [], ◌∷◌, ◌&&◌, ◌||◌, str_eq, any, eq_iff,
  Apart-keep_if, arith, Bool-cases, inl, inr,
}
use reference_library.Errors.{CoreError}
use reference_library.Database.{Db, JobRow, update_where, bump_revision}
use reference_library.Server.Engine.{is_terminal}
use reference_library.Session.State.{LibrarySession, is_active}
use reference_library.Session.Bind.{
  is_scanning, recover_interrupted_scan, interrupted, mark_linked_roots_unbound,
}
use reference_library.Session.Jobs.{
  is_rendition, moved_on, fail_resource_job, update_job, prune_jobs,
}
use reference_library.Session.OneScan.{collide, Apart-ended}
use reference_library.Discovery.Marks.{
  is_job, ended, failed_with, ScanPlan, mark_completed, mark_cancelled, mark_failed,
}
use reference_library.Session.Kept.{HasOneScan}

rendition-no_scan :
    (job_id : String) (job : JobRow)
    → is_rendition job_id job ≡ true
    → str_eq job.job_kind "initial_scan" ≡ false
rendition-no_scan job_id job h =
    let named : job.job_kind ≡ "rendition_generation" =
      ground (arith, h, eq_iff job.job_kind "rendition_generation") in
    rw named refl

&&_last : (a : Bool) → (a && false) ≡ false
&&_last a = ground arith

prune_jobs-HasOneScan : (db : Db) → HasOneScan db → HasOneScan (prune_jobs db)
unfolding prune_jobs
prune_jobs-HasOneScan db h = Apart-keep_if _ collide db.jobs h

pub update_job-HasOneScan :
    (job_id state : String) (error_code : Option String) (timestamp : ℕ) (db : Db)
    → HasOneScan db
    → HasOneScan (update_job job_id state error_code timestamp db)
unfolding update_job
update_job-HasOneScan job_id state error_code timestamp db h =
    let updated =
      Apart-ended (is_rendition job_id) (moved_on state error_code timestamp) db.jobs
        (λ job chosen. rw (rendition-no_scan job_id job chosen) (&&_last _)) h in
    elim (Bool-cases (is_terminal state)) [
      | inl final ↦
          rw (update_job, final)
            (prune_jobs-HasOneScan
              (record db {
                jobs =
                    update_where (is_rendition job_id) (moved_on state error_code timestamp)
                      db.jobs;
              })
              updated)
      | inr more ↦ rw (update_job, more) updated
    ]

module _ {File : Type 0} where
  pub fail_resource_job-HasOneScan :
      (session : LibrarySession File) (job_id : String) (cause : CoreError) (timestamp : ℕ)
      → HasOneScan session.db
      → HasOneScan (fail_resource_job session job_id cause timestamp).1.db
  unfolding fail_resource_job
  fail_resource_job-HasOneScan session job_id cause timestamp h = elim (Bool-cases session.closed) [
    | inl closed ↦ rw (fail_resource_job, closed) h
    | inr live ↦
        rw (fail_resource_job, live)
          (Apart-ended (is_rendition job_id) _ session.db.jobs (λ job chosen. refl) h)
  ]

pub scan_ends-HasOneScan :
    (plan : ScanPlan) (count unsupported_count timestamp : ℕ) (db : Db)
    → HasOneScan db
    → HasOneScan (mark_completed plan count unsupported_count timestamp db)
      × HasOneScan (mark_cancelled plan count unsupported_count timestamp db)
unfolding mark_completed mark_cancelled bump_revision
scan_ends-HasOneScan plan count unsupported_count timestamp db h = (
  Apart-ended (is_job plan.job_id) (ended "completed" count unsupported_count timestamp) db.jobs
      (λ job chosen. refl) h,
  Apart-ended (is_job plan.job_id) (ended "cancelled" count unsupported_count timestamp) db.jobs
      (λ job chosen. refl) h,
)

pub mark_failed-HasOneScan :
    (plan : ScanPlan) (cause : CoreError) (timestamp : ℕ) (db : Db)
    → HasOneScan db
    → HasOneScan (mark_failed plan cause timestamp db).1
unfolding mark_failed bump_revision
mark_failed-HasOneScan plan cause timestamp db h =
    Apart-ended (is_job plan.job_id) (failed_with cause timestamp) db.jobs (λ job chosen. refl) h

none_active :
    (timestamp : ℕ) (jobs : List JobRow)
    → any is_active (update_where is_active (interrupted timestamp) jobs) ≡ false
none_active timestamp [] = refl
none_active timestamp (job ∷ jobs) = elim (Bool-cases (is_active job)) [
  | inl active ↦ rw (active, none_active timestamp jobs) refl
  | inr idle ↦ rw (idle, idle, none_active timestamp jobs) refl
]

-- After the recovery no job is active.
pub recovered_idle :
    (recovered_at unbound_at : ℕ) (db : Db)
    → any is_active
        (mark_linked_roots_unbound unbound_at (recover_interrupted_scan recovered_at db)).jobs
      ≡ false
unfolding mark_linked_roots_unbound recover_interrupted_scan bump_revision
recovered_idle recovered_at unbound_at db =
    elim (Bool-cases (any is_active db.jobs || any is_scanning db.roots)) [
      | inl some_changed ↦
          rw (recover_interrupted_scan, some_changed) (none_active recovered_at db.jobs)
      | inr nothing ↦ rw (recover_interrupted_scan, nothing) (none_active recovered_at db.jobs)
    ]
