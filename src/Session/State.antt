-- ===== src/Session/State.antt =====
-- `LibrarySession` of crates/reference-core/src/session.rs: its tables, its authorized roots, and
-- whether it is closed. The connection, the lock file and the manifest's file are not in it.
use reference_library.Common.{
  ℕ, String, Bool, Option, none, some, List, [], ◌∷◌, ◌++◌, ◌&&◌, ◌||◌, str_eq, if◌then◌else◌, any,
}
use reference_library.Errors.{database, session_closed}
use reference_library.Fallible.{Result, ok, err}
use reference_library.Database.{Db, RootRow, JobRow}
use reference_library.Protocol.Results.{CanonicalDigest}
use reference_library.Session.Authority.{AuthorizedRoot, is_text}

pub record CanonicalSessionSnapshot : Type 0 where
  pub digest : CanonicalDigest
  pub library_revision : ℕ

pub record LibrarySession (File : Type 0) : Type 0 where
  pub session_id : String
  pub library_id : String
  pub db : Db
  pub authorized_roots : List (String × AuthorizedRoot File)
  pub closed : Bool
  pub canonical_snapshot : Option CanonicalSessionSnapshot

-- `state IN ('queued', 'running')`
abbrev pub is_active : JobRow → Bool
is_active job = str_eq job.state "queued" || str_eq job.state "running"

abbrev pub active_in : String → JobRow → Bool
active_in root_id job = is_text job.root_id root_id && is_active job

abbrev pub is_root : (library_id root_id : String) → RootRow → Bool
is_root library_id root_id r = str_eq r.id root_id && str_eq r.library_id library_id

-- `INSERT INTO jobs`: PRIMARY KEY(id).
unfoldable pub insert_job : JobRow → Db → Result Db
insert_job row db =
    if any (λ j. str_eq j.id row.id) db.jobs
    then err (database "UNIQUE constraint failed")
    else ok (record db { jobs = db.jobs ++ (row ∷ []) })

-- The job of a scan that starts.
abbrev pub scan_job : (job_id library_id root_id : String) → (timestamp : ℕ) → JobRow
scan_job job_id library_id root_id timestamp = record {
  id = job_id;
  library_id = library_id;
  job_kind = "initial_scan";
  state = "running";
  observed_count = 0;
  unsupported_count = 0;
  error_code = none;
  root_id = some root_id;
  created_at_ms = timestamp;
  updated_at_ms = timestamp;
  finished_at_ms = none;
}

module _ {File : Type 0} where
  -- `self.connection()?`
  abbrev pub connection : LibrarySession File → Result Db
  connection session = if session.closed then err session_closed else ok session.db

  -- A transaction that fails leaves the session as it was.
  abbrev pub committed :
      {A : Type 0}
      → LibrarySession File
      → Result (A × LibrarySession File)
      → Result A × LibrarySession File
  committed session (err cause) = (err cause, session)
  committed session (ok made) = (ok made.0, made.1)
