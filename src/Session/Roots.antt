-- ===== src/Session/Roots.antt =====
-- The roots of crates/reference-core/src/session.rs: `add_root` and `list_roots`. New identifiers and
-- the time are arguments; a scan plan is the ids of its root and its job.
use reference_library.Common.{
  ℕ, ◌+◌, String, Bool, true, false, Option, none, some, List, [], ◌∷◌, ◌++◌, ◌&&◌, ◌||◌, str_eq,
  ltb, leb, if◌then◌else◌, any, map, keep_if, length, take,
}
use reference_library.Common.Text.{char_count, is_empty, has_char, trim}
use reference_library.Common.Order.{text_leb}
use reference_library.Common.Rank.{order_by}
use reference_library.Errors.{root_permission_required, root_limit_reached, root_scan_in_progress}
use reference_library.Fallible.{Result, ok, err, ◌>>=◌, ◌>>◌, reject_if}
use reference_library.Protocol.Limits.{max_roots, max_root_name_chars}
use reference_library.Protocol.Results.{RootSummary}
use reference_library.Database.{Db, RootRow, JobRow, bump_revision, update_where, count_where}
use reference_library.Server.Engine.{lookup, insert, is_present}
use reference_library.Session.Authority.{
  Filesystem, AuthorizedRoot, is_text, open_root, same_directory, identity_policy_json,
}
use reference_library.Session.Evidence.{in_root, validate_root_evidence}
use reference_library.Session.State.{
  LibrarySession, is_active, active_in, insert_job, scan_job, connection, committed,
}

abbrev pub head {ℓ} : {A : Type ℓ} → List A → Option A
head [] = none
head (x ∷ xs) = some x

-- `if let [matched] = matches.as_slice()`
abbrev pub single {ℓ} : {A : Type ℓ} → List A → Option A
single (x ∷ []) = some x
single xs = none

abbrev pub succeeds {ℓ} : {A : Type ℓ} → Result A → Bool
succeeds (ok a) = true
succeeds (err cause) = false

unfoldable pub root_name : String → Result String
root_name raw =
    let name = trim raw in
    if is_empty name || has_char 0 name || ltb max_root_name_chars (char_count name)
    then err root_permission_required
    else ok name

-- `INSERT INTO roots … ON CONFLICT(id) DO UPDATE`
unfoldable pub upsert_root : RootRow → Db → Db
upsert_root row db = record db {
  roots =
      if any (λ r. str_eq r.id row.id) db.roots
      then update_where (λ r. str_eq r.id row.id)
          (λ r. record r {
            display_name = row.display_name;
            last_known_display_path = row.last_known_display_path;
            scan_policy = row.scan_policy;
            state = "scanning";
            updated_at_ms = row.updated_at_ms;
            last_seen_at_ms = row.last_seen_at_ms;
          })
          db.roots
      else db.roots ++ (row ∷ []);
}

-- `ORDER BY r.created_at_ms, r.id`
abbrev pub root_before : RootRow → RootRow → Bool
root_before a b =
    ltb a.created_at_ms b.created_at_ms
    || (leb a.created_at_ms b.created_at_ms && text_leb a.id b.id)

-- `ORDER BY created_at_ms DESC, id DESC`
abbrev pub job_later : JobRow → JobRow → Bool
job_later a b =
    ltb b.created_at_ms a.created_at_ms
    || (leb b.created_at_ms a.created_at_ms && text_leb b.id a.id)

-- The last scan of a root.
unfoldable pub last_scan : Db → (root_id : String) → Option JobRow
unfolding order_by
last_scan db root_id = head (
    order_by job_later
      (keep_if (λ j. is_text j.root_id root_id && str_eq j.job_kind "initial_scan") db.jobs))

abbrev pub active_id : Option JobRow → Option String
active_id none = none
active_id (some job) = if is_active job then some job.id else none

abbrev pub observed : Option JobRow → ℕ
observed none = 0
observed (some job) = job.observed_count

abbrev pub unsupported : Option JobRow → ℕ
unsupported none = 0
unsupported (some job) = job.unsupported_count

module _ {File : Type 0} where
  abbrev pub root_summary : LibrarySession File → RootRow → RootSummary
  root_summary session r = record {
    root_id = r.id;
    display_name = r.display_name;
    root_kind = r.root_kind;
    state = r.state;
    authorized = is_present (lookup session.authorized_roots r.id);
    active_job_id = active_id (last_scan session.db r.id);
    observed_count = observed (last_scan session.db r.id);
    unsupported_count = unsupported (last_scan session.db r.id);
  }

  -- `LIMIT` is one above the bound, so that a root too many is seen.
  unfoldable pub list_roots : LibrarySession File → Result (List RootSummary)
  unfolding order_by last_scan
  list_roots session = do
    db ← connection session
    let items = map (root_summary session) (
          take (max_roots + 1) (
            order_by root_before
              (keep_if (λ r. str_eq r.library_id session.library_id) db.roots))) in
        if ltb max_roots (length items) then err root_limit_reached else ok items

  -- `self.authorized_roots.borrow().iter().find(..)`
  abbrev pub find_authorized :
      (AuthorizedRoot File → Bool) → List (String × AuthorizedRoot File) → Option String
  find_authorized p [] = none
  find_authorized p ((id, root) ∷ roots) = if p root then some id else find_authorized p roots

  module _ (fs : Filesystem File) where
    -- The one root whose path and known files are those of the directory.
    unfoldable pub match_evidence : LibrarySession File → Db → AuthorizedRoot File → Option String
    match_evidence session db authority = single (
        keep_if (λ id. succeeds (validate_root_evidence fs db id authority))
          (map (λ r. r.id)
            (keep_if
              (λ r.
                str_eq r.library_id session.library_id
                && is_text r.last_known_display_path authority.canonical_path
                && any (in_root r.id) db.locations)
              db.roots)))

    abbrev pub or_else {ℓ} : {A : Type ℓ} → Option A → Option A → Option A
    or_else none b = b
    or_else (some a) b = some a

    -- The root that a directory is, or a new one where there is room.
    abbrev pub or_new : LibrarySession File → Db → Option String → (new_id : String) → Result String
    or_new session db (some id) new_id = ok id
    or_new session db none new_id =
        if leb max_roots (count_where (λ r. str_eq r.library_id session.library_id) db.roots)
        then err root_limit_reached
        else ok new_id

    abbrev pub chosen_root :
        LibrarySession File → Db → AuthorizedRoot File → (new_id : String) → Result String
    chosen_root session db authority new_id =
        or_new session db
          (or_else
            (find_authorized (λ existing. same_directory fs existing authority)
              session.authorized_roots)
            (match_evidence session db authority))
          new_id

    unfoldable pub put_under_scan :
        LibrarySession File
        → Db
        → AuthorizedRoot File
        → (display_name root_id : String) → (timestamp : ℕ) → Db
    unfolding upsert_root
    put_under_scan session db authority name root_id timestamp =
        upsert_root
          (record {
            id = root_id;
            library_id = session.library_id;
            display_name = name;
            root_kind = "linked";
            last_known_display_path = some authority.canonical_path;
            state = "scanning";
            scan_policy = identity_policy_json fs authority;
            created_at_ms = timestamp;
            updated_at_ms = timestamp;
            last_seen_at_ms = some timestamp;
          })
          db

    -- The transaction that puts a root under its scan.
    unfoldable pub begin_scan :
        LibrarySession File
        → Db
        → AuthorizedRoot File
        → (display_name root_id job_id : String) → (timestamp : ℕ)
        → Result ((String × String) × LibrarySession File)
    unfolding put_under_scan insert_job bump_revision
    begin_scan session db authority name root_id job_id timestamp = do
      reject_if (any (active_in root_id) db.jobs) root_scan_in_progress
      db ←
          insert_job (scan_job job_id session.library_id root_id timestamp)
            (put_under_scan session db authority name root_id timestamp)
      ok (
        (root_id, job_id),
        record session {
          db = bump_revision timestamp db;
          authorized_roots = insert session.authorized_roots root_id authority;
        },
      )

    unfoldable pub add_root_in :
        LibrarySession File
        → (authorized_path display_name new_root_id job_id : String) → (timestamp : ℕ)
        → Result ((String × String) × LibrarySession File)
    unfolding root_name begin_scan
    add_root_in session authorized_path raw new_root_id job_id timestamp = do
      db ← connection session
      authority ← open_root fs authorized_path
      name ← root_name raw
      root_id ← chosen_root session db authority new_root_id
      begin_scan session db authority name root_id job_id timestamp

    unfoldable pub add_root :
        LibrarySession File
        → (authorized_path display_name new_root_id job_id : String) → (timestamp : ℕ)
        → Result (String × String) × LibrarySession File
    unfolding add_root_in
    add_root session authorized_path raw new_root_id job_id timestamp =
        committed session (add_root_in session authorized_path raw new_root_id job_id timestamp)
