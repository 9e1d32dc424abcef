-- ===== src/Session/Evidence.antt =====
-- `validate_root_evidence` and `platform_identity_matches` of crates/reference-core/src/session.rs.
pub mod Recognized
use reference_library.Common.{
  same_bytes, ℕ, ◌+◌, ◌*◌, min, String, Bool, true, false, not, Option, none, some, List, [], ◌∷◌,
  ◌++◌, ◌&&◌, ◌||◌, str_eq, ltb, leb, ◌==◌, if◌then◌else◌, map, keep_if, take,
}
use reference_library.Common.Order.{text_leb}
use reference_library.Common.Rank.{order_by}
use reference_library.Errors.{CoreError, database, root_identity_mismatch}
use reference_library.Fallible.{Result, ok, err, ◌>>=◌, ◌>>◌, reject_if, ok_or}
use reference_library.Database.{
  Db, RootRow, LocationRow, SourceRevisionRow, find_where, count_where,
}
use reference_library.Common.Members.{concat_map}
use reference_library.Editorial.Located.{is_current}
use reference_library.Session.Authority.{
  Metadata, Filesystem, AuthorizedRoot, identity_kind, is_text, open_file, matches_identity_policy,
  to_be_bytes,
}

-- A row of the query: a known file of the root.
pub record Evidence : Type 0 where
  pub location_id : String
  pub relative : List ℕ
  pub byte_size : ℕ
  pub fingerprint : Option String
  pub platform_id : Option (List ℕ)
  pub platform_kind : Option String

abbrev pub max_evidence_file_bytes : ℕ
max_evidence_file_bytes = 128 * 1024 * 1024

abbrev pub max_evidence_hash_bytes : ℕ
max_evidence_hash_bytes = 256 * 1024 * 1024

abbrev pub is_some {ℓ} : {A : Type ℓ} → Option A → Bool
is_some none = false
is_some (some a) = true

abbrev pub evidence_of : LocationRow → SourceRevisionRow → Evidence
evidence_of l sr = record {
  location_id = l.id;
  relative = l.relative_path;
  byte_size = sr.byte_size;
  fingerprint = sr.quick_fingerprint;
  platform_id = l.platform_file_id;
  platform_kind = l.platform_file_id_kind;
}

-- `quick_fingerprint IS NOT NULL AND byte_size BETWEEN 0 AND ?2`
abbrev pub is_eligible : Evidence → Bool
is_eligible e = is_some e.fingerprint && leb e.byte_size max_evidence_file_bytes

abbrev pub in_root : String → LocationRow → Bool
in_root root_id l = str_eq l.root_id root_id

unfoldable pub eligible : Db → (root_id : String) → List Evidence
eligible db root_id =
    concat_map
      (λ l.
        concat_map
          (λ s.
            keep_if is_eligible
              (map (evidence_of l) (keep_if (λ sr. is_current s sr) db.source_revisions)))
          (keep_if (λ s. str_eq s.id l.source_id) db.sources))
      (keep_if (in_root root_id) db.locations)

-- `ORDER BY byte_size, id`
abbrev pub goes_before : Evidence → Evidence → Bool
goes_before a b =
    ltb a.byte_size b.byte_size
    || (a.byte_size == b.byte_size && text_leb a.location_id b.location_id)

-- `WHERE cumulative_bytes <= ?3`, with the sum of the sizes so far.
unfoldable pub within_budget : ℕ → List Evidence → List Evidence
within_budget sum [] = []
within_budget sum (e ∷ es) =
    let rest = within_budget (sum + e.byte_size) es in
    if leb (sum + e.byte_size) max_evidence_hash_bytes then e ∷ rest else rest

unfoldable pub evidence : Db → (root_id : String) → List Evidence
unfolding eligible order_by within_budget
evidence db root_id = take 8 (within_budget 0 (order_by goes_before (eligible db root_id)))

abbrev pub is_bytes : Option (List ℕ) → List ℕ → Bool
is_bytes none bytes = false
is_bytes (some id) bytes = same_bytes id bytes

abbrev pub platform_identity_matches : Metadata → Option (List ℕ) → Option String → Bool
platform_identity_matches metadata expected_id expected_kind =
    is_text expected_kind identity_kind
    && is_bytes expected_id
        (to_be_bytes 8 metadata.identity.dev ++ to_be_bytes 8 metadata.identity.ino)

abbrev pub has_evidence : Evidence → Bool
has_evidence e =
    (is_text e.platform_kind identity_kind && is_some e.platform_id) || is_some e.fingerprint

-- `.map_err(|_| CoreError::RootIdentityMismatch)`
abbrev pub or_mismatch : {A : Type 0} → Result A → Result A
or_mismatch (ok a) = ok a
or_mismatch (err cause) = err root_identity_mismatch

module _ {File : Type 0} (fs : Filesystem File) where
  abbrev pub compare_hash : (expected observed : Option String) → (ℕ × ℕ) → Result (ℕ × ℕ)
  compare_hash none observed counts = err root_identity_mismatch
  compare_hash (some expected) none counts = err root_identity_mismatch
  compare_hash (some expected) (some observed) counts =
      if str_eq observed expected
      then ok (counts.0 + 1, counts.1 + 1)
      else err root_identity_mismatch

  -- What is counted, as `required` and as `matched`, for one row.
  unfoldable pub weigh : AuthorizedRoot File → Evidence → ℕ × ℕ → Result (ℕ × ℕ)
  weigh root e counts =
      if has_evidence e
      then (do
        file ← or_mismatch (open_file fs root e.relative)
        metadata ← ok_or (fs.file_metadata file) root_identity_mismatch
        reject_if (not (metadata.len == e.byte_size)) root_identity_mismatch
        (if platform_identity_matches metadata e.platform_id e.platform_kind
            then ok (counts.0 + 1, counts.1 + 1)
            else compare_hash e.fingerprint (fs.fingerprint file e.byte_size) counts))
      else ok counts

  unfoldable pub weigh_all : AuthorizedRoot File → List Evidence → ℕ × ℕ → Result (ℕ × ℕ)
  unfolding weigh
  weigh_all root [] counts = ok counts
  weigh_all root (e ∷ es) counts = do counted ← weigh root e counts; weigh_all root es counted

  unfoldable pub validate_root_evidence :
      Db → (root_id : String) → AuthorizedRoot File → Result (Unit {0})
  unfolding weigh_all
  validate_root_evidence db root_id root = do
    row ← ok_or (find_where (λ r. str_eq r.id root_id) db.roots) (database "Query returned no rows")
    let total = count_where (in_root root_id) db.locations in
        if matches_identity_policy fs root row.scan_policy then ok tt else (do
          reject_if (total == 0) root_identity_mismatch
          counts ← weigh_all root (evidence db root_id) (0, 0)
          reject_if (ltb counts.0 (min 2 total) || not (counts.1 == counts.0))
              root_identity_mismatch)
