-- ===== src/Discovery/Match.antt =====
-- Which location a file is: `existing_location` and `relocated_location` of
-- crates/reference-core/src/discovery.rs. Whether a stored path is absent from the disk is a
-- parameter.
use reference_library.Common.{
  ℕ, ◌==◌, String, Bool, false, Option, none, some, List, [], ◌∷◌, str_eq, not, ◌&&◌, ◌||◌,
  if◌then◌else◌, same_bytes,
}
use reference_library.Database.{Db, SourceRevisionRow, LocationRow, find_where}
use reference_library.Session.Authority.{is_text}
use reference_library.Discovery.Marks.{ScanPlan}

pub record FileCandidate : Type 0 where
  pub relative_bytes : List ℕ
  pub relative_display : String
  pub byte_size : ℕ
  pub mtime_ms : Option ℕ
  pub quick_fingerprint : String
  pub platform_file_id : Option (List ℕ)
  pub platform_file_id_kind : Option String
  pub platform_link_count : Option ℕ
  pub location_state : String
  pub mime_type : String
  pub media_family : String
  pub preview_kind : String
  pub extension : Option String
  pub pixel_width : ℕ
  pub pixel_height : ℕ
  pub grid_servable : Bool

pub record ExistingLocation : Type 0 where
  pub location_id : String
  pub source_id : String
  pub byte_size : Option ℕ
  pub mtime_ms : Option ℕ
  pub fingerprint : Option String

abbrev pub at_path : (root_id : String) → (bytes : List ℕ) → LocationRow → Bool
at_path root_id bytes l = str_eq l.root_id root_id && same_bytes l.relative_path bytes

-- The current revision of a location's source: the two joins.
abbrev pub current_revision : Db → LocationRow → Option SourceRevisionRow
current_revision db l = elim (find_where (λ s. str_eq s.id l.source_id) db.sources) [
  | none ↦ none
  | some s ↦ find_where (λ v. is_text s.current_revision_id v.id) db.source_revisions
]

-- The locations that satisfy the condition, each with its current revision.
abbrev pub joined :
    Db → (LocationRow → Bool) → List LocationRow → List (LocationRow × SourceRevisionRow)
joined db p [] = []
joined db p (l ∷ ls) =
    let rest = joined db p ls in
    if p l then elim (current_revision db l) [ none ↦ rest | some v ↦ (l, v) ∷ rest ] else rest

abbrev pub existing_of : LocationRow × SourceRevisionRow → ExistingLocation
existing_of (l, v) = record {
  location_id = l.id;
  source_id = l.source_id;
  byte_size = l.last_stat_size;
  mtime_ms = l.last_stat_mtime_ms;
  fingerprint = v.quick_fingerprint;
}

-- `query_row(..).optional()`
abbrev pub first_existing : List (LocationRow × SourceRevisionRow) → Option ExistingLocation
first_existing [] = none
first_existing (found ∷ rest) = some (existing_of found)

unfoldable pub existing_location : Db → ScanPlan → FileCandidate → Option ExistingLocation
existing_location db plan candidate =
    first_existing (joined db (at_path plan.root_id candidate.relative_bytes) db.locations)

abbrev pub is_bytes : Option (List ℕ) → List ℕ → Bool
is_bytes none bytes = false
is_bytes (some own) bytes = same_bytes own bytes

-- `WHERE l.root_id = ?1 AND .. AND l.relative_path_bytes <> ?4`
abbrev pub same_file : ScanPlan → FileCandidate → List ℕ → String → LocationRow → Bool
same_file plan candidate file_id kind l =
    str_eq l.root_id plan.root_id
    && is_bytes l.platform_file_id file_id
    && is_text l.platform_file_id_kind kind
    && not (same_bytes l.relative_path candidate.relative_bytes)

abbrev pub is_one : Option ℕ → Bool
is_one none = false
is_one (some n) = n == 1

module _ (path_is_absent : List ℕ → Bool) where
  -- `let [(..)] = matches.as_slice() else { return Ok(None) }` and the tests behind it.
  abbrev pub only_match :
      FileCandidate → List (LocationRow × SourceRevisionRow) → Option ExistingLocation
  only_match candidate [] = none
  only_match candidate ((l, v) ∷ []) =
      if not (v.byte_size == candidate.byte_size)
        || not (is_text v.quick_fingerprint candidate.quick_fingerprint)
        || not (path_is_absent l.relative_path)
      then none
      else some (existing_of (l, v))
  only_match candidate (first ∷ (second ∷ rest)) = none

  abbrev pub matched_file :
      Db → ScanPlan → FileCandidate → Option (List ℕ) → Option String → Option ExistingLocation
  matched_file db plan candidate (some file_id) (some kind) =
      if is_one candidate.platform_link_count
      then only_match candidate (joined db (same_file plan candidate file_id kind) db.locations)
      else none
  matched_file db plan candidate (some file_id) none = none
  matched_file db plan candidate none kind = none

  unfoldable pub relocated_location : Db → ScanPlan → FileCandidate → Option ExistingLocation
  relocated_location db plan candidate =
      matched_file db plan candidate candidate.platform_file_id candidate.platform_file_id_kind
