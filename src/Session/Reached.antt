-- ===== src/Session/Reached.antt =====
-- On the scans of a Library that is open: the operations of crates/reference-core/src/session.rs and the
-- ends of a scan in crates/reference-core/src/discovery.rs.
use reference_library.Common.{ℕ, String, Bool, Option}
use reference_library.Errors.{CoreError}
use reference_library.Fallible.{Result, ok, err}
use reference_library.Protocol.States.{ResourceProfile}
use reference_library.Database.{Db}
use reference_library.Session.Authority.{Filesystem}
use reference_library.Session.State.{LibrarySession}
use reference_library.Session.Roots.{add_root}
use reference_library.Session.Bind.{opened_session, bind_root, bound, scan_bound_root}
use reference_library.Session.Jobs.{fail_resource_job, update_job}
use reference_library.Session.Resources.{start_resource_authorization}
use reference_library.Session.OneScan.{Apart-idle}
use reference_library.Discovery.Marks.{ScanPlan, mark_completed, mark_cancelled, mark_failed}
use reference_library.Session.Kept.{
  HasOneScan, committed-HasOneScan, add_root_in-Keeps, bind_root_in-Keeps, scan_bound_root_in-Keeps,
  start_resource_in-Keeps,
}
use reference_library.Session.Ledger.{
  update_job-HasOneScan, fail_resource_job-HasOneScan, scan_ends-HasOneScan, mark_failed-HasOneScan,
  recovered_idle,
}

-- The scans of a Library stay apart.
module _ {File : Type 0} (uuid_parses : String → Bool) (fs : Filesystem File) where
  -- What can happen to an open Library: an operation of the session, a move of a resource's job, the end of
  -- a scan.
  pub data Step : LibrarySession File → LibrarySession File → Type 0 where
    adds_root :
        (session : LibrarySession File) (path name new_root_id job_id : String) (timestamp : ℕ)
        → Step session (add_root fs session path name new_root_id job_id timestamp).1
    binds_root :
        (session : LibrarySession File) (root_id path : String) (timestamp : ℕ)
        → Step session (bind_root uuid_parses fs session root_id path timestamp).1
    scans_root :
        (session : LibrarySession File) (root_id job_id : String) (timestamp : ℕ)
        → Step session (scan_bound_root uuid_parses session root_id job_id timestamp).1
    starts_resource :
        (session : LibrarySession File) (asset_id : String) (profile : ResourceProfile)
        (job_id : String) (timestamp : ℕ)
        → Step session
            (start_resource_authorization uuid_parses fs session asset_id profile job_id
              timestamp).1
    fails_resource :
        (session : LibrarySession File) (job_id : String) (cause : CoreError) (timestamp : ℕ)
        → Step session (fail_resource_job session job_id cause timestamp).1
    moves_resource :
        (session : LibrarySession File) (job_id state : String) (error_code : Option String)
        (timestamp : ℕ)
        → Step session
            (record session { db = update_job job_id state error_code timestamp session.db })
    completes_scan :
        (session : LibrarySession File) (plan : ScanPlan) (count unsupported_count timestamp : ℕ)
        → Step session (record session {
          db = mark_completed plan count unsupported_count timestamp session.db;
        })
    cancels_scan :
        (session : LibrarySession File) (plan : ScanPlan) (count unsupported_count timestamp : ℕ)
        → Step session (record session {
          db = mark_cancelled plan count unsupported_count timestamp session.db;
        })
    fails_scan :
        (session : LibrarySession File) (plan : ScanPlan) (cause : CoreError) (timestamp : ℕ)
        → Step session (record session { db = (mark_failed plan cause timestamp session.db).1 })

  pub data Reached : LibrarySession File → Type 0 where
    opens :
        (session_id library_id : String) (recovered_at unbound_at : ℕ) (db : Db)
        → Reached (opened_session session_id library_id recovered_at unbound_at db)
    goes_on :
        {session later : LibrarySession File} → Reached session → Step session later → Reached later

  bound-HasOneScan :
      (root_id : String) (made : Result (Unit {0}) × LibrarySession File)
      → HasOneScan made.1.db
      → HasOneScan (bound uuid_parses fs root_id made).1.db
  bound-HasOneScan root_id (ok done, session) h = h
  bound-HasOneScan root_id (err cause, session) h = h

  Step-HasOneScan :
      (session later : LibrarySession File)
      → Step session later
      → HasOneScan session.db
      → HasOneScan later.db
  unfolding add_root bind_root scan_bound_root start_resource_authorization
  Step-HasOneScan session later (Step.adds_root _ path name root_id job_id timestamp) h =
      committed-HasOneScan session _
        (add_root_in-Keeps fs session path name root_id job_id timestamp h) h
  Step-HasOneScan session later (Step.binds_root _ root_id path timestamp) h =
      bound-HasOneScan root_id _ (
        committed-HasOneScan session _
          (bind_root_in-Keeps fs uuid_parses session root_id path timestamp h) h)
  Step-HasOneScan session later (Step.scans_root _ root_id job_id timestamp) h =
      committed-HasOneScan session _
        (scan_bound_root_in-Keeps fs uuid_parses session root_id job_id timestamp h) h
  Step-HasOneScan session later (Step.starts_resource _ asset_id profile job_id timestamp) h =
      committed-HasOneScan session _
        (start_resource_in-Keeps fs uuid_parses session asset_id profile job_id timestamp h) h
  Step-HasOneScan session later (Step.fails_resource _ job_id cause timestamp) h =
      fail_resource_job-HasOneScan session job_id cause timestamp h
  Step-HasOneScan session later (Step.moves_resource _ job_id state error_code timestamp) h =
      update_job-HasOneScan job_id state error_code timestamp session.db h
  Step-HasOneScan session later (Step.completes_scan _ plan count unsupported timestamp) h =
      (scan_ends-HasOneScan plan count unsupported timestamp session.db h).0
  Step-HasOneScan session later (Step.cancels_scan _ plan count unsupported timestamp) h =
      (scan_ends-HasOneScan plan count unsupported timestamp session.db h).1
  Step-HasOneScan session later (Step.fails_scan _ plan cause timestamp) h =
      mark_failed-HasOneScan plan cause timestamp session.db h

  -- In every state that an open Library reaches by the operations of its session, the moves of
  -- its renditions and the ends of its scans, no two scans of one root are queued or running.
  pub Reached-HasOneScan : (session : LibrarySession File) → Reached session → HasOneScan session.db
  unfolding opened_session
  Reached-HasOneScan session (Reached.opens session_id library_id recovered_at unbound_at db) =
      Apart-idle _ (recovered_idle recovered_at unbound_at db)
  Reached-HasOneScan session (Reached.goes_on {session = before} reached step) =
      Step-HasOneScan before session step (Reached-HasOneScan before reached)
