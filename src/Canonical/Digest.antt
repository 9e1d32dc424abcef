-- ===== src/Canonical/Digest.antt =====
-- The digest of the canonical projection: `digest_snapshot`, `digest_with_revision`, `page` and
-- `page_verified` of crates/reference-core/src/canonical.rs. The hasher is the list of the bytes it
-- has been given; SHA-256 and `serde_json::to_value` are parameters. Rows are read in one snapshot.
pub mod Framing
pub mod Determined
use reference_library.Common.{
  ℕ, zero, suc, ◌/◌, ◌%◌, String, Bool, true, Option, none, List, [], ◌∷◌, ◌++◌, length, str_eq,
  not, ◌==◌,
}
use Prim.Native.Char.{code}
use Prim.Native.String.{◌++◌ as ◌<>◌, [] as empty, ◌∷◌ as char_first}
use reference_library.Common.Hex.{hex}
use reference_library.Errors.{query_page_too_large, canonical_snapshot_changed}
use reference_library.Fallible.{Result, ok, ◌>>=◌, ◌>>◌, reject_if}
use reference_library.Database.{Db, SourceRevisionRow}
use reference_library.Protocol.States.{CanonicalEntity}
use reference_library.Protocol.Results.{CanonicalDigest, CanonicalEntityCount, CanonicalPage}
use reference_library.Protocol.Canonical.{CanonicalRecord}
use reference_library.Protocol.Frame.{ServerFrame}
use reference_library.Canonical.Json.{Value, write_canonical_json}
use reference_library.Canonical.Records.{entities, entity_name, entity_count, visit_records}
use reference_library.Canonical.Page.{projection_format, bad_limit, page_from_snapshot}

-- `to_be_bytes` of a number of so many bytes.
unfoldable pub be_bytes : (width : ℕ) → ℕ → List ℕ
be_bytes zero n = []
be_bytes (suc width) n = be_bytes width (n / 256) ++ (n % 256 ∷ [])

-- `as_bytes` of a text in ASCII.
abbrev pub ascii_bytes : String → List ℕ
ascii_bytes empty = []
ascii_bytes (char_first c s) = code c ∷ ascii_bytes s

-- The bytes that `frame` gives to the hasher.
abbrev pub framed : List ℕ → List ℕ
framed bytes = be_bytes 8 (length bytes) ++ bytes

abbrev pub frame : (hasher : List ℕ) → List ℕ → List ℕ
frame hasher bytes = hasher ++ framed bytes

abbrev pub digest_domain : List ℕ
digest_domain = ascii_bytes "pitchdog-reference-canonical-projection" ++ (0 ∷ ascii_bytes "v1")

module _ {Number : Type 0} (media_metadata_json : SourceRevisionRow → String)
    (from_str : String → Option (Value Number))
    (to_value : CanonicalRecord (Value Number) → Value Number) (number_bytes : Number → List ℕ)
    (string_bytes : String → List ℕ) where
  unfoldable pub canonical_json : CanonicalRecord (Value Number) → List ℕ
  unfolding write_canonical_json
  canonical_json r = write_canonical_json number_bytes string_bytes (to_value r)

  -- The closure that hashes a record.
  abbrev pub hash_record :
      (hasher : List ℕ) → CanonicalRecord (Value Number) → Result (List ℕ × Bool)
  hash_record hasher r = ok (frame hasher (canonical_json r), true)

  -- One round of `for entity in ENTITIES`.
  unfoldable pub digest_entity : Db → CanonicalEntity → (hasher : List ℕ) → Result (List ℕ)
  unfolding visit_records canonical_json be_bytes entity_count
  digest_entity db entity hasher =
      visit_records media_metadata_json from_str db entity none hash_record (
        frame (frame hasher (ascii_bytes (entity_name entity)))
          (be_bytes 8 (entity_count db entity)))

  unfoldable pub digest_entities : Db → List CanonicalEntity → (hasher : List ℕ) → Result (List ℕ)
  unfolding digest_entity
  digest_entities db [] hasher = ok hasher
  digest_entities db (entity ∷ rest) hasher = do
    hashed ← digest_entity db entity hasher
    digest_entities db rest hashed

  abbrev pub counts_of : Db → List CanonicalEntity → List CanonicalEntityCount
  counts_of db [] = []
  counts_of db (entity ∷ rest) =
      record { entity = entity; count = entity_count db entity } ∷ counts_of db rest

  module _ (sha256 : List ℕ → List ℕ) where
    unfoldable pub digest_snapshot : Db → Result CanonicalDigest
    unfolding digest_entities hex
    digest_snapshot db = do
      hashed ← digest_entities db entities (frame [] digest_domain)
      ok (record {
        format = projection_format;
        algorithm = "sha256";
        digest = "sha256:" <> hex (sha256 hashed);
        counts = counts_of db entities;
      })

    -- The revision is not negative in the model.
    unfoldable pub digest_with_revision : Db → Result (CanonicalDigest × ℕ)
    unfolding digest_snapshot
    digest_with_revision db = do
      result ← digest_snapshot db
      ok (result, db.library_meta.library_revision)

    unfoldable pub digest : Db → Result CanonicalDigest
    unfolding digest_with_revision
    digest db = do both ← digest_with_revision db; ok both.0

    module _ {Dump : Type 0} (frame_length : ServerFrame Dump (CanonicalRecord (Value Number)) → ℕ)
        (record_length : CanonicalRecord (Value Number) → ℕ) where
      unfoldable pub page :
          Db
          → (snapshot_digest : String) → CanonicalEntity
          → (cursor : Option String) → (limit : ℕ)
          → Result (CanonicalPage (CanonicalRecord (Value Number)))
      unfolding digest_snapshot page_from_snapshot
      page db snapshot_digest entity cursor limit = do
        current ← digest_snapshot db
        reject_if (not (str_eq current.digest snapshot_digest)) canonical_snapshot_changed
        page_from_snapshot media_metadata_json from_str frame_length record_length db current entity
            cursor limit

      unfoldable pub page_verified :
          Db
          → (snapshot : CanonicalDigest) → (expected_library_revision : ℕ) → CanonicalEntity
          → (cursor : Option String) → (limit : ℕ)
          → Result (CanonicalPage (CanonicalRecord (Value Number)))
      unfolding page_from_snapshot
      page_verified db snapshot expected_library_revision entity cursor limit = do
        reject_if (bad_limit limit) (query_page_too_large limit)
        reject_if (not (db.library_meta.library_revision == expected_library_revision))
            canonical_snapshot_changed
        page_from_snapshot media_metadata_json from_str frame_length record_length db snapshot
            entity cursor limit
