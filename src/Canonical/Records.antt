-- ===== src/Canonical/Records.antt =====
-- The records of the canonical projection and the statements that select them: `visit_records`,
-- `entity_count` and `entity_name` of crates/reference-core/src/canonical.rs. The text of the JSON
-- column of a source revision and the parser are parameters.
use reference_library.Common.{
  ℕ, String, Bool, Option, none, some, take, drop, List, [], ◌∷◌, map, length, str_eq,
  if◌then◌else◌,
}
use reference_library.Common.Hex.{hex}
use reference_library.Common.Order.{text_leb}
use reference_library.Common.Rank.{order_by}
use reference_library.Errors.{database}
use reference_library.Fallible.{Result, ok, ◌>>=◌, ok_or}
use reference_library.Database.{
  Db, Meta, RootRow, SourceRow, SourceRevisionRow, LocationRow, OriginRow, AssetRow, CollectionRow,
  MembershipRow,
}
use reference_library.Protocol.States.{CanonicalEntity}
use reference_library.Protocol.Canonical.{CanonicalRecord}
use reference_library.Canonical.Json.{Value, normalize_json}

abbrev pub entities : List CanonicalEntity
entities =
    CanonicalEntity.library ∷ CanonicalEntity.roots ∷ CanonicalEntity.sources
    ∷ CanonicalEntity.source_revisions ∷ CanonicalEntity.locations ∷ CanonicalEntity.asset_origins
    ∷ CanonicalEntity.assets ∷ CanonicalEntity.collections ∷ CanonicalEntity.collection_memberships
    ∷ []

abbrev pub entity_name : CanonicalEntity → String
entity_name CanonicalEntity.library = "library"
entity_name CanonicalEntity.roots = "roots"
entity_name CanonicalEntity.sources = "sources"
entity_name CanonicalEntity.source_revisions = "source_revisions"
entity_name CanonicalEntity.locations = "locations"
entity_name CanonicalEntity.asset_origins = "asset_origins"
entity_name CanonicalEntity.assets = "assets"
entity_name CanonicalEntity.collections = "collections"
entity_name CanonicalEntity.collection_memberships = "collection_memberships"

-- `SELECT COUNT(*) FROM {table}`
unfoldable pub entity_count : Db → CanonicalEntity → ℕ
entity_count db CanonicalEntity.library = 1
entity_count db CanonicalEntity.roots = length db.roots
entity_count db CanonicalEntity.sources = length db.sources
entity_count db CanonicalEntity.source_revisions = length db.source_revisions
entity_count db CanonicalEntity.locations = length db.locations
entity_count db CanonicalEntity.asset_origins = length db.asset_origins
entity_count db CanonicalEntity.assets = length db.assets
entity_count db CanonicalEntity.collections = length db.collections
entity_count db CanonicalEntity.collection_memberships = length db.collection_assets

-- `ORDER BY id`
unfoldable pub by_id : {A : Type 0} → (A → String) → List A → List A
unfolding order_by text_leb
by_id id rows = order_by (λ a b. text_leb (id a) (id b)) rows

-- `ORDER BY collection_id, asset_id`
abbrev pub member_before : MembershipRow → MembershipRow → Bool
member_before a b =
    if str_eq a.collection_id b.collection_id
    then text_leb a.asset_id b.asset_id
    else text_leb a.collection_id b.collection_id

-- `while let Some(row) = rows.next()? { if !visit(map(row)?)? { break } }`
abbrev pub visit_rows {ℓ} :
    {S : Type ℓ} {R : Type 0} → (S → R → Result (S × Bool)) → S → List (Result R) → Result S
visit_rows visit state [] = ok state
visit_rows visit state (row ∷ rows) = do
  r ← row
  next ← visit state r
  (let rest = visit_rows visit next.0 rows in if next.1 then rest else ok next.0)

-- `LIMIT ?1 OFFSET ?2`; offset and limit are within i64 where a page asks for them.
abbrev pub within {ℓ} : {A : Type ℓ} → Option (ℕ × ℕ) → List A → List A
within none rows = rows
within (some (offset, limit)) rows = take limit (drop offset rows)

module _ {Number : Type 0} (media_metadata_json : SourceRevisionRow → String)
    (from_str : String → Option (Value Number)) where
  unfoldable pub json_column : String → Result (Value Number)
  unfolding normalize_json
  json_column text = do
    value ← ok_or (from_str text) (database "Conversion error")
    ok (normalize_json value)

  -- What the closures make of a row.
  abbrev pub library_record : Meta → Result (CanonicalRecord (Value Number))
  library_record row = ok (CanonicalRecord.library (record { id = row.id; name = row.name }))

  abbrev pub root_record : RootRow → Result (CanonicalRecord (Value Number))
  root_record row = ok (
      CanonicalRecord.root
        (record { id = row.id; display_name = row.display_name; root_kind = row.root_kind }))

  -- `row.get(2)?` of a text refuses a NULL.
  abbrev pub source_record : SourceRow → Result (CanonicalRecord (Value Number))
  source_record row = do
    current ← ok_or row.current_revision_id (database "Invalid column type")
    ok (
        CanonicalRecord.source
          (record { id = row.id; media_family = row.media_family; current_revision_id = current }))

  abbrev pub source_revision_record : SourceRevisionRow → Result (CanonicalRecord (Value Number))
  source_revision_record row = do
    metadata ← json_column (media_metadata_json row)
    ok (
        CanonicalRecord.source_revision (record {
          id = row.id;
          source_id = row.source_id;
          byte_size = row.byte_size;
          quick_fingerprint = row.quick_fingerprint;
          mime_detected = row.mime_detected;
          extension_observed = row.extension_observed;
          media_metadata = metadata;
        }))

  abbrev pub location_record : LocationRow → Result (CanonicalRecord (Value Number))
  location_record row = ok (
      CanonicalRecord.location (record {
        id = row.id;
        root_id = row.root_id;
        source_id = row.source_id;
        relative_path_bytes_hex = hex row.relative_path;
        relative_path_display = row.relative_path_display;
      }))

  abbrev pub asset_origin_record : OriginRow → Result (CanonicalRecord (Value Number))
  asset_origin_record row = do
    spec ← json_column row.origin_spec_json
    ok (
        CanonicalRecord.asset_origin (record {
          id = row.id;
          asset_id = row.asset_id;
          source_id = row.source_id;
          origin_kind = row.origin_kind;
          origin_spec = spec;
          revision_binding = row.revision_binding;
        }))

  abbrev pub asset_record : AssetRow → Result (CanonicalRecord (Value Number))
  asset_record row = ok (
      CanonicalRecord.asset (record {
        id = row.id;
        custom_title = row.custom_title;
        review_state = row.review_state;
        note = row.note;
        tags = row.tags;
        used_in = row.used_in;
      }))

  abbrev pub collection_record : CollectionRow → Result (CanonicalRecord (Value Number))
  collection_record row = ok (CanonicalRecord.collection (record { id = row.id; name = row.name }))

  abbrev pub membership_record : MembershipRow → Result (CanonicalRecord (Value Number))
  membership_record row = ok (
      CanonicalRecord.collection_membership
        (record { collection_id = row.collection_id; asset_id = row.asset_id }))

  -- The rows of the statement of each entity, each with what its closure makes of it.
  unfoldable pub selected : Db → CanonicalEntity → List (Result (CanonicalRecord (Value Number)))
  unfolding json_column by_id order_by hex
  selected db CanonicalEntity.library = library_record db.library_meta ∷ []
  selected db CanonicalEntity.roots = map root_record (by_id (λ r. r.id) db.roots)
  selected db CanonicalEntity.sources = map source_record (by_id (λ s. s.id) db.sources)
  selected db CanonicalEntity.source_revisions =
      map source_revision_record (by_id (λ v. v.id) db.source_revisions)
  selected db CanonicalEntity.locations = map location_record (by_id (λ l. l.id) db.locations)
  selected db CanonicalEntity.asset_origins =
      map asset_origin_record (by_id (λ o. o.id) db.asset_origins)
  selected db CanonicalEntity.assets = map asset_record (by_id (λ a. a.id) db.assets)
  selected db CanonicalEntity.collections = map collection_record (by_id (λ c. c.id) db.collections)
  selected db CanonicalEntity.collection_memberships =
      map membership_record (order_by member_before db.collection_assets)

  unfoldable pub visit_records {ℓ} :
      {S : Type ℓ}
      → Db
      → CanonicalEntity
      → (window : Option (ℕ × ℕ)) → (visit : S → CanonicalRecord (Value Number) → Result (S × Bool))
      → S
      → Result S
  unfolding selected
  visit_records db entity window visit state =
      visit_rows visit state (within window (selected db entity))
