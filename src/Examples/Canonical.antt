-- ===== src/Examples/Canonical.antt =====
-- The canonical projection of a small Library, with numbers that are natural and short texts.
use reference_library.Common.{
  ℕ, ◌+◌, ◌≤◌, ◌<◌, ◌≡◌, refl, String, false, Option, none, some, List, [], ◌∷◌, length, All, arith,
}
use reference_library.Fallible.{Result, ok, err, Holds}
use reference_library.Database.{Db, SourceRevisionRow}
use reference_library.Protocol.Limits.{max_frame_bytes}
use reference_library.Protocol.States.{CanonicalEntity}
use reference_library.Protocol.Results.{CanonicalDigest, CanonicalPage}
use reference_library.Protocol.Canonical.{CanonicalRecord}
use reference_library.Protocol.Frame.{ServerFrame, CommandResult}
use reference_library.Canonical.Cursor.{decode_cursor}
use reference_library.Canonical.Json.{
  Value, null, number, string, object, no_entries, entry, write_canonical_json, normalize_json,
}
use reference_library.Canonical.Json.Normal.{write_canonical_json-normalize_json}
use reference_library.Canonical.Records.{entities, entity_count, selected}
use reference_library.Canonical.Page.{page_envelope_size, page_with, page_from_snapshot}
use reference_library.Canonical.Page.Collect.{content_length, envelope}
use reference_library.Canonical.Page.Window.{IsWindow, page_from_snapshot-IsWindow}
use reference_library.Canonical.Page.Walk.{walk, walk-all}
use reference_library.Canonical.Digest.{
  canonical_json, ascii_bytes, be_bytes, digest_domain, frame, digest_entities,
}
use reference_library.Canonical.Digest.Framing.{bytes_bound}
use reference_library.Canonical.Digest.Determined.{written, digest_entities-determined}
use reference_library.Session.State.{LibrarySession, CanonicalSessionSnapshot}
use reference_library.Session.Canonical.{canonical_page}
use reference_library.Session.Canonical.Cached.{
  snapshot_of, IsConservative, canonical_page-conservative,
}
use reference_library.Examples.Data.{start}

abbrev Entry : Type 0
Entry = CanonicalRecord (Value ℕ)

abbrev metadata : SourceRevisionRow → String
metadata row = "{}"

abbrev parsed : String → Option (Value ℕ)
parsed text = some null

abbrev value_of : Entry → Value ℕ
value_of r = null

abbrev digits_of : ℕ → List ℕ
digits_of n = be_bytes 1 n

abbrev ten : Entry → ℕ
ten r = 10

abbrev sized : ServerFrame (Unit {0}) Entry → ℕ
sized (ServerFrame.response v id (CommandResult.canonical_page p)) =
    100 + content_length ten p.records
sized _ = 0

sized-records :
    (page : CanonicalPage Entry)
    → page_envelope_size sized page
      ≡ page_envelope_size sized (record page { records = [] }) + content_length ten page.records
unfolding page_envelope_size
sized-records page = omega arith

abbrev digest_counts : CanonicalDigest
digest_counts = record {
  format = "f";
  algorithm = "sha256";
  digest = "d";
  counts = record { entity = CanonicalEntity.assets; count = 2 } ∷ [];
}

abbrev asset_entry : String → Entry
asset_entry id = CanonicalRecord.asset (record {
  id = id;
  custom_title = none;
  review_state = "unreviewed";
  note = none;
  tags = "red" ∷ [];
  used_in = [];
})

sized-room :
    (cursor : Option String) (offset at : ℕ)
    → decode_cursor cursor ≡ ok offset
    → envelope sized ten digest_counts CanonicalEntity.assets cursor 1 offset at + 10
      ≤ max_frame_bytes
unfolding page_envelope_size page_with
sized-room cursor offset at located = omega arith

walk-all_example :
    walk metadata parsed sized ten start digest_counts CanonicalEntity.assets 1 3 none
    ≡ ok (asset_entry "a1" ∷ asset_entry "a2" ∷ [])
unfolding selected
walk-all_example =
    walk-all metadata parsed sized ten start digest_counts CanonicalEntity.assets 1 sized-records
      (asset_entry "a1" ∷ asset_entry "a2" ∷ []) refl refl (omega arith) 10
      (omega arith, (omega arith, tt)) refl sized-room

abbrev second : CanonicalPage Entry
second = record {
  format = "pitchdog-reference-canonical-projection-v1";
  snapshot_digest = "d";
  entity = CanonicalEntity.assets;
  cursor = some "1";
  limit = 1;
  total = 2;
  records = asset_entry "a2" ∷ [];
  next_cursor = none;
}

page_from_snapshot-IsWindow_example :
    IsWindow sized 1 1 (selected metadata parsed start CanonicalEntity.assets) second
unfolding page_from_snapshot selected
page_from_snapshot-IsWindow_example =
    page_from_snapshot-IsWindow metadata parsed sized ten start digest_counts CanonicalEntity.assets
      (some "1") 1 1 second refl (omega arith) refl refl

abbrev mixed : Value ℕ
mixed = object (entry "b" (number 1) (entry "a" (string "x") no_entries))

write_canonical_json-normalize_json_example :
    write_canonical_json digits_of ascii_bytes (normalize_json mixed)
    ≡ write_canonical_json digits_of ascii_bytes mixed
write_canonical_json-normalize_json_example =
    write_canonical_json-normalize_json digits_of ascii_bytes mixed

-- The same Library a revision later.
abbrev later : Db
later = record start {
  library_meta = record start.library_meta { library_revision = 8; updated_at_ms = 5 };
}

abbrev bytes_of : Result (List ℕ) → List ℕ
bytes_of (ok bytes) = bytes
bytes_of (err cause) = []

abbrev hashed : List ℕ
hashed = bytes_of (
    digest_entities metadata parsed value_of digits_of ascii_bytes start entities
      (frame [] digest_domain))

start-few : (entity : CanonicalEntity) → entity_count start entity < bytes_bound 8
unfolding entity_count
start-few CanonicalEntity.library = omega arith
start-few CanonicalEntity.roots = omega arith
start-few CanonicalEntity.sources = omega arith
start-few CanonicalEntity.source_revisions = omega arith
start-few CanonicalEntity.locations = omega arith
start-few CanonicalEntity.asset_origins = omega arith
start-few CanonicalEntity.assets = omega arith
start-few CanonicalEntity.collections = omega arith
start-few CanonicalEntity.collection_memberships = omega arith

start-short :
    (entity : CanonicalEntity)
    → All
        (Holds (λ p. length p < bytes_bound 8))
        (written metadata parsed value_of digits_of ascii_bytes start entity)
unfolding selected canonical_json Holds
start-short CanonicalEntity.library = (omega arith, tt)
start-short CanonicalEntity.roots = tt
start-short CanonicalEntity.sources = tt
start-short CanonicalEntity.source_revisions = tt
start-short CanonicalEntity.locations = tt
start-short CanonicalEntity.asset_origins = tt
start-short CanonicalEntity.assets = (omega arith, (omega arith, tt))
start-short CanonicalEntity.collections = (omega arith, tt)
start-short CanonicalEntity.collection_memberships = (omega arith, tt)

later-few : (entity : CanonicalEntity) → entity_count later entity < bytes_bound 8
unfolding entity_count
later-few CanonicalEntity.library = omega arith
later-few CanonicalEntity.roots = omega arith
later-few CanonicalEntity.sources = omega arith
later-few CanonicalEntity.source_revisions = omega arith
later-few CanonicalEntity.locations = omega arith
later-few CanonicalEntity.asset_origins = omega arith
later-few CanonicalEntity.assets = omega arith
later-few CanonicalEntity.collections = omega arith
later-few CanonicalEntity.collection_memberships = omega arith

later-short :
    (entity : CanonicalEntity)
    → All
        (Holds (λ p. length p < bytes_bound 8))
        (written metadata parsed value_of digits_of ascii_bytes later entity)
unfolding selected canonical_json Holds
later-short CanonicalEntity.library = (omega arith, tt)
later-short CanonicalEntity.roots = tt
later-short CanonicalEntity.sources = tt
later-short CanonicalEntity.source_revisions = tt
later-short CanonicalEntity.locations = tt
later-short CanonicalEntity.asset_origins = tt
later-short CanonicalEntity.assets = (omega arith, (omega arith, tt))
later-short CanonicalEntity.collections = (omega arith, tt)
later-short CanonicalEntity.collection_memberships = (omega arith, tt)

digest_entities-determined_example :
    All
      (λ entity.
        written metadata parsed value_of digits_of ascii_bytes start entity
        ≡ written metadata parsed value_of digits_of ascii_bytes later entity)
      entities
unfolding digest_entities
digest_entities-determined_example =
    digest_entities-determined metadata parsed value_of digits_of ascii_bytes start later start-few
      later-few start-short later-short hashed refl refl

abbrev session : LibrarySession ℕ
session = record {
  session_id = "s";
  library_id = "l";
  db = start;
  authorized_roots = [];
  closed = false;
  canonical_snapshot = none;
}

abbrev as_hash : List ℕ → List ℕ
as_hash bytes = be_bytes 4 (length bytes)

nothing_kept :
    (snapshot : CanonicalSessionSnapshot)
    → session.canonical_snapshot ≡ some snapshot
    → session.db.library_meta.library_revision ≡ snapshot.library_revision
    → snapshot_of metadata parsed value_of digits_of ascii_bytes as_hash sized ten session.db
      ≡ ok snapshot.digest
nothing_kept snapshot h now = cc

canonical_page-conservative_example :
    IsConservative metadata parsed value_of digits_of ascii_bytes as_hash sized ten
      CanonicalEntity.assets none 1 session "sha256:00"
      (canonical_page metadata parsed value_of digits_of ascii_bytes as_hash sized ten
        CanonicalEntity.assets none 1 session "sha256:00")
canonical_page-conservative_example =
    canonical_page-conservative metadata parsed value_of digits_of ascii_bytes as_hash sized ten
      CanonicalEntity.assets none 1 session "sha256:00" refl refl nothing_kept
