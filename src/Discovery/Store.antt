-- ===== src/Discovery/Store.antt =====
-- How a file is stored: `relocate_existing`, `refresh_existing`, `insert_new` and `insert_revision`
-- of crates/reference-core/src/discovery.rs. The identifiers that are made are arguments; of the
-- constraints those of the keys are tested.
use reference_library.Common.{
  ℕ, String, Bool, none, some, List, [], ◌∷◌, ◌++◌, any, str_eq, not, ◌&&◌, if◌then◌else◌,
}
use reference_library.Errors.{database}
use reference_library.Fallible.{Result, ok, err, ◌>>=◌}
use reference_library.Database.{
  Db, SourceRow, SourceRevisionRow, LocationRow, OriginRow, AssetRow, update_where,
}
use reference_library.Session.Authority.{is_text}
use reference_library.Discovery.Marks.{ScanPlan}
use reference_library.Discovery.Match.{FileCandidate, ExistingLocation, at_path}

-- What `Uuid::new_v4` makes for one file.
pub record NewIds : Type 0 where
  pub source_id : String
  pub revision_id : String
  pub location_id : String
  pub asset_id : String
  pub origin_id : String

-- `PRIMARY KEY(id)` on an insertion.
abbrev pub insert_row {ℓ} : {A : Type ℓ} → (A → String) → A → List A → Result (List A)
insert_row id row rows =
    if any (λ r. str_eq (id r) (id row)) rows
    then err (database "UNIQUE constraint failed")
    else ok (rows ++ (row ∷ []))

-- `UPDATE locations SET .. WHERE id = ?4`; a path is used once in a root.
unfoldable pub relocate_existing :
    ExistingLocation → ScanPlan → FileCandidate → (timestamp : ℕ) → Db → Result Db
relocate_existing existing plan candidate timestamp db =
    if any
      (λ l.
        at_path plan.root_id candidate.relative_bytes l && not (str_eq l.id existing.location_id))
      db.locations
    then err (database "UNIQUE constraint failed")
    else ok (record db {
      locations =
          update_where (λ l. str_eq l.id existing.location_id)
            (λ l. record l {
              relative_path = candidate.relative_bytes;
              relative_path_display = candidate.relative_display;
              state = "moved_candidate";
              updated_at_ms = timestamp;
            })
            db.locations;
    })

abbrev pub revision_of :
    (revision_id source_id : String) → FileCandidate → (timestamp : ℕ) → SourceRevisionRow
revision_of revision_id source_id candidate timestamp = record {
  id = revision_id;
  source_id = source_id;
  byte_size = candidate.byte_size;
  mtime_observed_ms = candidate.mtime_ms;
  quick_fingerprint = some candidate.quick_fingerprint;
  mime_detected = candidate.mime_type;
  extension_observed = candidate.extension;
  pixel_width = candidate.pixel_width;
  pixel_height = candidate.pixel_height;
  preview_kind = candidate.preview_kind;
  grid_preview = candidate.grid_servable;
  created_at_ms = timestamp;
}

unfoldable pub insert_revision :
    (revision_id source_id : String) → FileCandidate → (timestamp : ℕ) → Db → Result Db
insert_revision revision_id source_id candidate timestamp db = do
  rows ←
      insert_row (λ v. v.id) (revision_of revision_id source_id candidate timestamp)
        db.source_revisions
  ok (record db { source_revisions = rows })

-- The update of a source whose file has changed.
abbrev pub renewed_source :
    (revision_id : String) → FileCandidate → (timestamp : ℕ) → SourceRow → SourceRow
renewed_source revision_id candidate timestamp s = record s {
  current_revision_id = some revision_id;
  media_family = candidate.media_family;
  lineage_state = "active";
  updated_at_ms = timestamp;
}

abbrev pub seen_source : FileCandidate → (timestamp : ℕ) → SourceRow → SourceRow
seen_source candidate timestamp s = record s {
  media_family = candidate.media_family;
  lineage_state = "active";
  updated_at_ms = timestamp;
}

abbrev pub seen_location : FileCandidate → (timestamp : ℕ) → LocationRow → LocationRow
seen_location candidate timestamp l = record l {
  state = candidate.location_state;
  relative_path_display = candidate.relative_display;
  last_stat_size = some candidate.byte_size;
  last_stat_mtime_ms = candidate.mtime_ms;
  platform_file_id = candidate.platform_file_id;
  platform_file_id_kind = candidate.platform_file_id_kind;
  updated_at_ms = timestamp;
}

abbrev pub seen_revision : FileCandidate → SourceRevisionRow → SourceRevisionRow
seen_revision candidate v = record v {
  mime_detected = candidate.mime_type;
  extension_observed = candidate.extension;
  pixel_width = candidate.pixel_width;
  pixel_height = candidate.pixel_height;
  preview_kind = candidate.preview_kind;
  grid_preview = candidate.grid_servable;
}

-- `SELECT current_revision_id FROM sources WHERE id = ?4`
abbrev pub is_current_of : List SourceRow → (source_id revision_id : String) → Bool
is_current_of sources source_id revision_id =
    any (λ s. str_eq s.id source_id && is_text s.current_revision_id revision_id) sources

-- The two arms of `refresh_existing`.
abbrev pub renew :
    ExistingLocation → FileCandidate → (revision_id : String) → (timestamp : ℕ) → Db → Result Db
renew existing candidate revision_id timestamp db = do
  with_revision ← insert_revision revision_id existing.source_id candidate timestamp db
  ok (record with_revision {
    sources =
        update_where (λ s. str_eq s.id existing.source_id)
          (renewed_source revision_id candidate timestamp) with_revision.sources;
  })

abbrev pub confirm : ExistingLocation → FileCandidate → (timestamp : ℕ) → Db → Result Db
confirm existing candidate timestamp db = ok (record db {
  sources =
      update_where (λ s. str_eq s.id existing.source_id) (seen_source candidate timestamp)
        db.sources;
  source_revisions =
      update_where (λ v. is_current_of db.sources existing.source_id v.id) (seen_revision candidate)
        db.source_revisions;
})

abbrev pub located : ExistingLocation → FileCandidate → (timestamp : ℕ) → Db → Db
located existing candidate timestamp db = record db {
  locations =
      update_where (λ l. str_eq l.id existing.location_id) (seen_location candidate timestamp)
        db.locations;
}

unfoldable pub refresh_existing :
    ExistingLocation → FileCandidate → (revision_id : String) → (timestamp : ℕ) → Db → Result Db
unfolding insert_revision
refresh_existing existing candidate revision_id timestamp db =
    if not (is_text existing.fingerprint candidate.quick_fingerprint)
    then renew existing candidate revision_id timestamp (located existing candidate timestamp db)
    else confirm existing candidate timestamp (located existing candidate timestamp db)

-- The rows of a new asset.
abbrev pub new_source : NewIds → ScanPlan → FileCandidate → (timestamp : ℕ) → SourceRow
new_source ids plan candidate timestamp = record {
  id = ids.source_id;
  library_id = plan.library_id;
  media_family = candidate.media_family;
  current_revision_id = some ids.revision_id;
  lineage_state = "active";
  created_at_ms = timestamp;
  updated_at_ms = timestamp;
}

abbrev pub new_location : NewIds → ScanPlan → FileCandidate → (timestamp : ℕ) → LocationRow
new_location ids plan candidate timestamp = record {
  id = ids.location_id;
  root_id = plan.root_id;
  source_id = ids.source_id;
  relative_path = candidate.relative_bytes;
  relative_path_display = candidate.relative_display;
  platform_file_id = candidate.platform_file_id;
  platform_file_id_kind = candidate.platform_file_id_kind;
  state = candidate.location_state;
  last_stat_size = some candidate.byte_size;
  last_stat_mtime_ms = candidate.mtime_ms;
  created_at_ms = timestamp;
  updated_at_ms = timestamp;
}

-- The columns that the statement leaves out have the defaults of the tables.
abbrev pub new_asset : NewIds → ScanPlan → (timestamp : ℕ) → AssetRow
new_asset ids plan timestamp = record {
  id = ids.asset_id;
  library_id = plan.library_id;
  custom_title = none;
  review_state = "unreviewed";
  note = none;
  tags = [];
  used_in = [];
  revision = 0;
  created_at_ms = timestamp;
  updated_at_ms = timestamp;
}

abbrev pub new_origin : NewIds → (timestamp : ℕ) → OriginRow
new_origin ids timestamp = record {
  id = ids.origin_id;
  asset_id = ids.asset_id;
  source_id = ids.source_id;
  origin_kind = "whole";
  origin_spec_json = "{\"kind\":\"whole\"}";
  revision_binding = "latest";
  created_at_ms = timestamp;
}

-- `UNIQUE(root_id, relative_path_bytes)` beside the key.
abbrev pub insert_location : LocationRow → List LocationRow → Result (List LocationRow)
insert_location row rows =
    if any (at_path row.root_id row.relative_path) rows
    then err (database "UNIQUE constraint failed")
    else insert_row (λ l. l.id) row rows

unfoldable pub insert_new :
    NewIds → ScanPlan → FileCandidate → (timestamp : ℕ) → Db → Result (String × Db)
unfolding insert_revision
insert_new ids plan candidate timestamp db = do
  sources ← insert_row (λ s. s.id) (new_source ids plan candidate timestamp) db.sources
  with_revision ←
      insert_revision ids.revision_id ids.source_id candidate timestamp
        (record db { sources = sources })
  locations ← insert_location (new_location ids plan candidate timestamp) db.locations
  assets ← insert_row (λ a. a.id) (new_asset ids plan timestamp) db.assets
  origins ← insert_row (λ o. o.id) (new_origin ids timestamp) db.asset_origins
  ok (
    ids.asset_id,
    record with_revision { locations = locations; assets = assets; asset_origins = origins },
  )
