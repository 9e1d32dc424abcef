-- ===== src/Session/Bind.antt =====
-- `bind_root` and `scan_bound_root` of crates/reference-core/src/session.rs, and what opening a Library
-- does to its roots and jobs. `uuid_parses` stands for `Uuid::parse_str(..).is_ok()`.
use reference_library.Common.{
  none, ℕ, String, Bool, false, not, some, [], ◌&&◌, ◌||◌, str_eq, if◌then◌else◌, any,
}
use reference_library.Errors.{root_permission_required, root_scan_in_progress, root_not_found}
use reference_library.Fallible.{Result, ok, err, ◌>>=◌, ◌>>◌, reject_if, ok_or}
use reference_library.Protocol.Results.{RootSummary}
use reference_library.Database.{Db, RootRow, JobRow, bump_revision, update_where, find_where}
use reference_library.Editorial.Collections.{validate_uuid}
use reference_library.Server.Engine.{lookup, insert}
use reference_library.Session.Authority.{Filesystem, open_root, identity_policy_json}
use reference_library.Session.Evidence.{validate_root_evidence}
use reference_library.Session.State.{
  LibrarySession, is_active, active_in, is_root, insert_job, scan_job, connection, committed,
}
use reference_library.Session.Roots.{list_roots}

-- `UPDATE roots SET … WHERE id = ?4`
unfoldable pub connect_root : (root_id canonical_path policy : String) → (timestamp : ℕ) → Db → Db
connect_root root_id canonical_path policy timestamp db = record db {
  roots =
      update_where (λ r. str_eq r.id root_id)
        (λ r. record r {
          last_known_display_path = some canonical_path;
          scan_policy = policy;
          state = "connected";
          updated_at_ms = timestamp;
          last_seen_at_ms = some timestamp;
        })
        db.roots;
}

-- `UPDATE jobs SET state = 'failed', … WHERE state IN ('queued', 'running')`
abbrev pub interrupted : (timestamp : ℕ) → JobRow → JobRow
interrupted timestamp job = record job {
  state = "failed";
  error_code = some "CoreRestarted";
  updated_at_ms = timestamp;
  finished_at_ms = some timestamp;
}

abbrev pub is_scanning : RootRow → Bool
is_scanning r = str_eq r.state "scanning"

unfoldable pub recover_interrupted_scan : (timestamp : ℕ) → Db → Db
unfolding bump_revision
recover_interrupted_scan timestamp db =
    let recovered = record db {
      jobs = update_where is_active (interrupted timestamp) db.jobs;
      roots =
          update_where is_scanning (λ r. record r { state = "error"; updated_at_ms = timestamp })
            db.roots;
    } in
    if any is_active db.jobs || any is_scanning db.roots
    then bump_revision timestamp recovered
    else recovered

abbrev pub is_linked : RootRow → Bool
is_linked r = str_eq r.root_kind "linked"

unfoldable pub mark_linked_roots_unbound : (timestamp : ℕ) → Db → Db
mark_linked_roots_unbound timestamp db = record db {
  roots =
      update_where (λ r. is_linked r && not (str_eq r.state "error"))
        (λ r. record r { state = "needs_permission"; updated_at_ms = timestamp }) db.roots;
}

module _ {File : Type 0} where
  -- The session that `open` makes of the tables it finds.
  unfoldable pub opened_session :
      (session_id library_id : String) → (recovered_at unbound_at : ℕ) → Db → LibrarySession File
  unfolding recover_interrupted_scan mark_linked_roots_unbound
  opened_session session_id library_id recovered_at unbound_at db = record {
    session_id = session_id;
    library_id = library_id;
    db = mark_linked_roots_unbound unbound_at (recover_interrupted_scan recovered_at db);
    authorized_roots = [];
    closed = false;
    canonical_snapshot = none;
  }

  unfoldable pub set_scanning : LibrarySession File → (root_id : String) → (timestamp : ℕ) → Db → Db
  set_scanning session root_id timestamp db = record db {
    roots =
        update_where (is_root session.library_id root_id)
          (λ r. record r { state = "scanning"; updated_at_ms = timestamp }) db.roots;
  }

  module _ (uuid_parses : String → Bool) where
    -- The tables of a root that is there and has no job under way.
    unfoldable pub idle_root : LibrarySession File → (root_id : String) → Result Db
    unfolding validate_uuid
    idle_root session root_id = do
      validate_uuid uuid_parses root_id root_not_found
      db ← connection session
      reject_if (not (any (is_root session.library_id root_id) db.roots)) root_not_found
      reject_if (any (active_in root_id) db.jobs) root_scan_in_progress
      ok db

    module _ (fs : Filesystem File) where
      unfoldable pub bind_root_in :
          LibrarySession File
          → (root_id authorized_path : String) → (timestamp : ℕ)
          → Result (Unit {0} × LibrarySession File)
      unfolding idle_root connect_root bump_revision
      bind_root_in session root_id authorized_path timestamp = do
        db ← idle_root session root_id
        authority ← open_root fs authorized_path
        validate_root_evidence fs db root_id authority
        reject_if (any (active_in root_id) db.jobs) root_scan_in_progress
        ok (
          tt,
          record session {
            db = bump_revision timestamp (
                connect_root root_id authority.canonical_path (identity_policy_json fs authority)
                  timestamp db);
            authorized_roots = insert session.authorized_roots root_id authority;
          },
        )

      -- The summary of the root that has been bound.
      abbrev pub bound :
          (root_id : String)
          → Result (Unit {0}) × LibrarySession File
          → Result RootSummary × LibrarySession File
      bound root_id (err cause, session) = (err cause, session)
      bound root_id (ok done, session) = (
        (list_roots session >>= λ items.
            ok_or (find_where (λ root. str_eq root.root_id root_id) items) root_not_found),
        session,
      )

      unfoldable pub bind_root :
          LibrarySession File
          → (root_id authorized_path : String) → (timestamp : ℕ)
          → Result RootSummary × LibrarySession File
      unfolding bind_root_in
      bind_root session root_id authorized_path timestamp =
          bound root_id (committed session (bind_root_in session root_id authorized_path timestamp))

    unfoldable pub scan_bound_root_in :
        LibrarySession File
        → (root_id job_id : String) → (timestamp : ℕ)
        → Result ((String × String) × LibrarySession File)
    unfolding validate_uuid insert_job bump_revision set_scanning
    scan_bound_root_in session root_id job_id timestamp = do
      validate_uuid uuid_parses root_id root_not_found
      db ← connection session
      reject_if (not (any (is_root session.library_id root_id) db.roots)) root_not_found
      authority ← ok_or (lookup session.authorized_roots root_id) root_permission_required
      reject_if (any (active_in root_id) db.jobs) root_scan_in_progress
      db ←
          insert_job (scan_job job_id session.library_id root_id timestamp)
            (set_scanning session root_id timestamp db)
      ok ((root_id, job_id), record session { db = bump_revision timestamp db })

    unfoldable pub scan_bound_root :
        LibrarySession File
        → (root_id job_id : String) → (timestamp : ℕ)
        → Result (String × String) × LibrarySession File
    unfolding scan_bound_root_in
    scan_bound_root session root_id job_id timestamp =
        committed session (scan_bound_root_in session root_id job_id timestamp)
