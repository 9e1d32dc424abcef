-- ===== src/Session/Resources.antt =====
-- The resources of crates/reference-core/src/session.rs: `resource_plan`, `resolve_location` and
-- `start_resource_authorization`. `join` stands for `Path::join` followed by
-- `to_string_lossy`.
use reference_library.Common.{
  ℕ, ◌*◌, String, Bool, false, not, Option, none, some, List, [], ◌∷◌, ◌&&◌, ◌||◌, str_eq, ltb, leb,
  if◌then◌else◌, any, map, keep_if, contains,
}
use reference_library.Common.Text.{has_char, has_dot_dot}
use reference_library.Common.Order.{text_leb}
use reference_library.Common.Rank.{order_by}
use reference_library.Errors.{
  raw_path_resource_denied, asset_not_found, source_revision_changed, unsupported_preview,
  resource_too_large, root_permission_required, location_not_found, location_missing,
}
use reference_library.Fallible.{Result, ok, err, ◌>>=◌, ◌>>◌, reject_if, ok_or}
use reference_library.Protocol.States.{ResourceProfile}
use reference_library.Protocol.Results.{NativeLocation}
use reference_library.Database.{JobRow, Db, SourceRevisionRow, LocationRow, find_where}
use reference_library.Common.Members.{concat_map}
use reference_library.Editorial.Located.{is_current}
use reference_library.Rendition.{grid_mime_supported, preview_mime_supported}
use reference_library.Server.Engine.{lookup}
use reference_library.Session.Authority.{
  Filesystem, AuthorizedRoot, open_file, provider_path_matches_authority, validate_relative,
}
use reference_library.Session.State.{LibrarySession, insert_job, connection, committed}
use reference_library.Session.Jobs.{prune_jobs}

abbrev pub max_source_bytes : ℕ
max_source_bytes = 512 * 1024 * 1024

-- A row of the query of `resource_plan`.
pub record Candidate : Type 0 where
  pub location : LocationRow
  pub revision : SourceRevisionRow

pub record ResourcePlan (File : Type 0) : Type 0 where
  pub asset_id : String
  pub location_id : String
  pub root_id : String
  pub source_revision_id : String
  pub profile : ResourceProfile
  pub source_mime_type : String
  pub source_length : ℕ
  pub expected_fingerprint : String
  pub source_file : File
  pub job_id : Option String

unfoldable pub reject_path_shaped_id : String → Result (Unit {0})
reject_path_shaped_id value =
    reject_if
      (has_char b'/' value || has_char b'\\' value || has_dot_dot value || has_char b':' value)
      raw_path_resource_denied

-- The job of a resource that waits.
abbrev pub queued_job : (job_id library_id root_id : String) → (timestamp : ℕ) → JobRow
queued_job job_id library_id root_id timestamp = record {
  id = job_id;
  library_id = library_id;
  job_kind = "rendition_generation";
  state = "queued";
  observed_count = 0;
  unsupported_count = 0;
  error_code = none;
  root_id = some root_id;
  created_at_ms = timestamp;
  updated_at_ms = timestamp;
  finished_at_ms = none;
}

abbrev pub is_present_location : LocationRow → Bool
is_present_location l = str_eq l.state "present"

-- `ORDER BY CASE l.state WHEN 'present' THEN 0 ELSE 1 END, l.created_at_ms, l.id`
abbrev pub candidate_before : Candidate → Candidate → Bool
candidate_before a b =
    let by_age =
      ltb a.location.created_at_ms b.location.created_at_ms
      || (leb a.location.created_at_ms b.location.created_at_ms
          && text_leb a.location.id b.location.id) in
    (is_present_location a.location && not (is_present_location b.location))
    || ((is_present_location a.location || not (is_present_location b.location)) && by_age)

unfoldable pub candidates : Db → (asset_id : String) → List Candidate
unfolding order_by
candidates db asset_id = order_by candidate_before (
    concat_map
      (λ ao.
        concat_map
          (λ s.
            concat_map
              (λ sr.
                map (λ l. record { location = l; revision = sr })
                  (keep_if (λ l. str_eq l.source_id s.id) db.locations))
              (keep_if (λ sr. is_current s sr) db.source_revisions))
          (keep_if (λ s. str_eq s.id ao.source_id) db.sources))
      (keep_if (λ ao. str_eq ao.asset_id asset_id) db.asset_origins))

abbrev pub mime_supported : ResourceProfile → String → Bool
mime_supported ResourceProfile.grid_standard mime = grid_mime_supported mime
mime_supported ResourceProfile.preview mime = preview_mime_supported mime

module _ {File : Type 0} where
  module _ (uuid_parses : String → Bool) (fs : Filesystem File) where
    -- The plan of a candidate whose root is authorized.
    abbrev pub plan_of :
        Candidate
        → (asset_id : String) → ResourceProfile
        → (job_id : Option String) → AuthorizedRoot File
        → Result (ResourcePlan File)
    plan_of c asset_id profile job_id authority = do
      source_file ← open_file fs authority c.location.relative_path
      fingerprint ← ok_or c.revision.quick_fingerprint source_revision_changed
      ok (record {
        asset_id = asset_id;
        location_id = c.location.id;
        root_id = c.location.root_id;
        source_revision_id = c.revision.id;
        profile = profile;
        source_mime_type = c.revision.mime_detected;
        source_length = c.revision.byte_size;
        expected_fingerprint = fingerprint;
        source_file = source_file;
        job_id = job_id;
      })

    abbrev pub vetted : ResourceProfile → Candidate → Result (Unit {0})
    vetted profile c = do
      reject_if
          (not (
            uuid_parses c.location.id
            && uuid_parses c.location.root_id
            && uuid_parses c.revision.id))
          source_revision_changed
      reject_if (not (mime_supported profile c.revision.mime_detected)) unsupported_preview
      reject_if (ltb max_source_bytes c.revision.byte_size) resource_too_large

    -- The loop over the candidates; `saw_present` decides the error at its end.
    unfoldable pub pick :
        LibrarySession File
        → (asset_id : String) → ResourceProfile
        → (job_id : Option String) → (saw_present : Bool) → List Candidate
        → Result (ResourcePlan File)
    pick session asset_id profile job_id saw_present [] =
        err (if saw_present then root_permission_required else unsupported_preview)
    pick session asset_id profile job_id saw_present (c ∷ cs) =
        let here = is_present_location c.location in
        let rest = pick session asset_id profile job_id (saw_present || here) cs in
        do
          vetted profile c
          (if here
              then elim (lookup session.authorized_roots c.location.root_id) [
                | none ↦ rest
                | some authority ↦ plan_of c asset_id profile job_id authority
              ]
              else rest)

    unfoldable pub resource_plan :
        LibrarySession File
        → (asset_id : String) → ResourceProfile
        → (job_id : Option String) → Result (ResourcePlan File)
    unfolding pick reject_path_shaped_id
    resource_plan session asset_id profile job_id = do
      reject_path_shaped_id asset_id
      reject_if (not (uuid_parses asset_id)) asset_not_found
      db ← connection session
      reject_if
          (not
            (any (λ a. str_eq a.id asset_id && str_eq a.library_id session.library_id) db.assets))
          asset_not_found
      pick session asset_id profile job_id false (candidates db asset_id)

    unfoldable pub start_resource_in :
        LibrarySession File
        → (asset_id : String) → ResourceProfile
        → (job_id : String) → (timestamp : ℕ)
        → Result ((String × ResourcePlan File) × LibrarySession File)
    unfolding resource_plan insert_job prune_jobs
    start_resource_in session asset_id profile job_id timestamp = do
      plan ← resource_plan session asset_id profile (some job_id)
      db ← connection session
      db ← insert_job (queued_job job_id session.library_id plan.root_id timestamp) db
      ok ((job_id, plan), record session { db = prune_jobs db })

    unfoldable pub start_resource_authorization :
        LibrarySession File
        → (asset_id : String) → ResourceProfile
        → (job_id : String) → (timestamp : ℕ)
        → Result (String × ResourcePlan File) × LibrarySession File
    unfolding start_resource_in
    start_resource_authorization session asset_id profile job_id timestamp =
        committed session (start_resource_in session asset_id profile job_id timestamp)

    unfoldable pub resolve_location :
        (join : String → List ℕ → String)
        → LibrarySession File
        → (location_id : String) → Result NativeLocation
    unfolding reject_path_shaped_id validate_relative
    resolve_location join session location_id = do
      reject_path_shaped_id location_id
      reject_if (not (uuid_parses location_id)) location_not_found
      db ← connection session
      l ← ok_or (find_where (λ l. str_eq l.id location_id) db.locations) location_not_found
      reject_if (not (contains ("present" ∷ "unreadable" ∷ []) l.state)) location_missing
      authority ← ok_or (lookup session.authorized_roots l.root_id) root_permission_required
      reject_if (not (provider_path_matches_authority fs authority)) location_missing
      verified ← open_file fs authority l.relative_path
      validate_relative l.relative_path
      ok (record {
        location_id = location_id;
        native_path_for_shell = join authority.canonical_path l.relative_path;
      })
