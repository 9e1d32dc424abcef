-- ===== src/Canonical/Page.antt =====
-- A page of the canonical projection: `page_from_snapshot` of
-- crates/reference-core/src/canonical.rs. `record_length` and `frame_length` stand for the length of
-- `serde_json::to_vec` of a record and of a frame. A `saturating_add` saturates only above the frame
-- limit.
pub mod Collect
pub mod Continued
pub mod Window
pub mod Sent
pub mod Walk
use reference_library.Common.{
  is_nil, ℕ, zero, suc, ◌+◌, ◌==◌, String, Bool, true, false, Option, none, some, List, [], ◌∷◌,
  ◌++◌, ltb, length, if◌then◌else◌, ◌||◌,
}
use Prim.Native.String.{◌++◌ as ◌<>◌}
use reference_library.Errors.{query_invalid, query_page_too_large}
use reference_library.Fallible.{Result, ok, ◌>>=◌, ◌>>◌, reject_if}
use reference_library.Database.{Db, SourceRevisionRow}
use reference_library.Protocol.Limits.{
  max_frame_bytes, max_canonical_page_size, max_request_id_bytes, protocol_version,
}
use reference_library.Protocol.States.{CanonicalEntity}
use reference_library.Protocol.Results.{CanonicalDigest, CanonicalEntityCount, CanonicalPage}
use reference_library.Protocol.Canonical.{CanonicalRecord}
use reference_library.Protocol.Frame.{CommandResult, ServerFrame}
use reference_library.Canonical.Cursor.{decode_cursor, encode_cursor}
use reference_library.Canonical.Json.{Value}
use reference_library.Canonical.Records.{visit_records}

abbrev pub projection_format : String
projection_format = "pitchdog-reference-canonical-projection-v1"

-- The derived `PartialEq`.
abbrev discriminant : CanonicalEntity → ℕ
discriminant CanonicalEntity.library = 0
discriminant CanonicalEntity.roots = 1
discriminant CanonicalEntity.sources = 2
discriminant CanonicalEntity.source_revisions = 3
discriminant CanonicalEntity.locations = 4
discriminant CanonicalEntity.asset_origins = 5
discriminant CanonicalEntity.assets = 6
discriminant CanonicalEntity.collections = 7
discriminant CanonicalEntity.collection_memberships = 8

abbrev pub same_entity : CanonicalEntity → CanonicalEntity → Bool
same_entity a b = discriminant a == discriminant b

-- `find(..).map(|entry| entry.count).unwrap_or_default()`
abbrev pub count_of : CanonicalEntity → List CanonicalEntityCount → ℕ
count_of entity [] = 0
count_of entity (c ∷ counts) =
    if same_entity c.entity entity then c.count else count_of entity counts

-- `(at < total).then(|| encode_cursor(at))`
abbrev pub cursor_at : (at total : ℕ) → Option String
cursor_at at total = if ltb at total then some (encode_cursor at) else none

pub record Collected (Record : Type 0) : Type 0 where
  pub records : List Record
  pub record_content_bytes : ℕ
  pub first_record_exceeds_frame : Bool

-- `"r".repeat(n)`
abbrev pub repeated : ℕ → String
repeated zero = ""
repeated (suc n) = "r" <> repeated n

module _ {Dump Record : Type 0} (frame_length : ServerFrame Dump Record → ℕ) where
  unfoldable pub page_envelope_size : CanonicalPage Record → ℕ
  page_envelope_size page = frame_length (
      ServerFrame.response protocol_version (repeated max_request_id_bytes)
        (CommandResult.canonical_page page))

module _ {Record : Type 0} (current : CanonicalDigest) (entity : CanonicalEntity)
    (cursor : Option String) (limit : ℕ) where
  -- The page that holds the records and ends at the offset.
  unfoldable pub page_with : List Record → (at : ℕ) → CanonicalPage Record
  unfolding encode_cursor
  page_with records at = record {
    format = projection_format;
    snapshot_digest = current.digest;
    entity = entity;
    cursor = cursor;
    limit = limit;
    total = count_of entity current.counts;
    records = records;
    next_cursor = cursor_at at (count_of entity current.counts);
  }

  module _ {Dump : Type 0} (frame_length : ServerFrame Dump Record → ℕ) (record_length : Record → ℕ)
      (offset : ℕ) where
    abbrev pub empty_page_envelope_size : (at : ℕ) → ℕ
    empty_page_envelope_size at = page_envelope_size frame_length (page_with [] at)

    -- The bytes of the records with the next one, and the separator before it.
    abbrev pub candidate_record_bytes : Collected Record → Record → ℕ
    candidate_record_bytes s r =
        s.record_content_bytes + (if is_nil s.records then 0 else 1) + record_length r

    -- The closure that `visit_records` calls.
    unfoldable pub collect_record : Collected Record → Record → Result (Collected Record × Bool)
    unfolding page_envelope_size page_with
    collect_record s r =
        let empty_envelope_bytes = empty_page_envelope_size (offset + (length s.records + 1)) in
        if ltb max_frame_bytes (empty_envelope_bytes + candidate_record_bytes s r)
        then ok (record s { first_record_exceeds_frame = is_nil s.records }, false)
        else ok (
          record s {
            records = s.records ++ (r ∷ []);
            record_content_bytes = candidate_record_bytes s r;
          },
          true,
        )

    -- What follows the visit of the records.
    unfoldable pub page_of_collected : Collected Record → Result (CanonicalPage Record)
    unfolding page_envelope_size page_with
    page_of_collected made =
        let result = page_with made.records (offset + length made.records) in
        do
          reject_if made.first_record_exceeds_frame
              (query_invalid "canonical record exceeds framed response limit")
          reject_if (ltb max_frame_bytes (page_envelope_size frame_length result))
              (query_invalid "canonical page exceeds framed response limit")
          ok result

abbrev pub nothing_collected : {Record : Type 0} → Collected Record
nothing_collected = record {
  records = [];
  record_content_bytes = 0;
  first_record_exceeds_frame = false;
}

abbrev pub bad_limit : ℕ → Bool
bad_limit limit = limit == 0 || ltb max_canonical_page_size limit

module _ {Dump Number : Type 0} (media_metadata_json : SourceRevisionRow → String)
    (from_str : String → Option (Value Number))
    (frame_length : ServerFrame Dump (CanonicalRecord (Value Number)) → ℕ)
    (record_length : CanonicalRecord (Value Number) → ℕ) where
  unfoldable pub page_from_snapshot :
      Db
      → (current : CanonicalDigest) → CanonicalEntity
      → (cursor : Option String) → (limit : ℕ)
      → Result (CanonicalPage (CanonicalRecord (Value Number)))
  unfolding decode_cursor visit_records collect_record page_of_collected
  page_from_snapshot db current entity cursor limit = do
    reject_if (bad_limit limit) (query_page_too_large limit)
    offset ← decode_cursor cursor
    reject_if (ltb (count_of entity current.counts) offset)
        (query_invalid "canonical cursor is outside this entity snapshot")
    made ←
        visit_records media_metadata_json from_str db entity (some (offset, limit))
          (collect_record current entity cursor limit frame_length record_length offset)
          nothing_collected
    page_of_collected current entity cursor limit frame_length record_length offset made
