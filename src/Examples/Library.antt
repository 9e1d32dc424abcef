-- ===== src/Examples/Library.antt =====
-- A Library of one root, on a machine whose directories are numbers.
use reference_library.Common.{
  ℕ, ◌≡◌, refl, String, true, false, not, none, some, List, [], ◌∷◌, ◌&&◌, str_eq, any,
  if◌then◌else◌,
}
use reference_library.Errors.{root_identity_mismatch}
use reference_library.Fallible.{ok, err}
use reference_library.Database.{
  Db, RootRow, LocationRow, SourceRow, SourceRevisionRow, OriginRow, JobRow,
}
use reference_library.Examples.Data.{start}
use reference_library.Session.Authority.{Filesystem, AuthorizedRoot, Metadata}
use reference_library.Session.Evidence.{validate_root_evidence}
use reference_library.Session.Evidence.Recognized.{recognized, validate_root_evidence-recognized}
use reference_library.Session.State.{LibrarySession, is_active}
use reference_library.Session.Roots.{add_root}
use reference_library.Session.Bind.{opened_session}
use reference_library.Session.Kept.{HasOneScan}
use reference_library.Session.Reached.{Step, Reached, Reached-HasOneScan}
use reference_library.Protocol.States.{ResourceProfile}
use reference_library.Session.Resources.{ResourcePlan}
use reference_library.Session.Vetted.{IsVetted, resource_plan-IsVetted}
use reference_library.Session.Recovered.{is_unsafe, opened_session-safe}

abbrev described : ℕ → Metadata
described n = record { identity = record { dev = 1; ino = n }; is_dir = true; len = 5 }

abbrev disk : Filesystem ℕ
disk = record {
  canonicalize = λ path. some path;
  metadata = λ path. some (described 4);
  open_directory = λ path. some 4;
  file_metadata = λ n. some (described n);
  open_relative_file = λ root bytes. some 6;
  fingerprint = λ file size. some "sha256-full:00";
  policy_to_string = λ policy. "policy";
  policy_from_str = λ text. none;
}

abbrev photos : RootRow
photos = record {
  id = "r1";
  library_id = "l1";
  display_name = "Photos";
  root_kind = "linked";
  last_known_display_path = some "/photos";
  state = "scanning";
  scan_policy = "{}";
  created_at_ms = 1;
  updated_at_ms = 1;
  last_seen_at_ms = none;
}

abbrev origin : OriginRow
origin = record {
  id = "o1";
  asset_id = "a1";
  source_id = "s1";
  origin_kind = "whole";
  origin_spec_json = "{}";
  revision_binding = "latest";
  created_at_ms = 1;
}

abbrev picture : SourceRow
picture = record {
  id = "s1";
  library_id = "l1";
  media_family = "still_image";
  current_revision_id = some "v1";
  lineage_state = "active";
  created_at_ms = 1;
  updated_at_ms = 1;
}

abbrev version : SourceRevisionRow
version = record {
  id = "v1";
  source_id = "s1";
  byte_size = 5;
  mtime_observed_ms = none;
  quick_fingerprint = some "sha256-full:00";
  mime_detected = "image/png";
  extension_observed = none;
  pixel_width = 4;
  pixel_height = 3;
  preview_kind = "grid";
  grid_preview = true;
  created_at_ms = 1;
}

abbrev place : LocationRow
place = record {
  id = "p1";
  root_id = "r1";
  source_id = "s1";
  relative_path = b'a' ∷ [];
  relative_path_display = "a";
  platform_file_id = none;
  platform_file_id_kind = none;
  state = "present";
  last_stat_size = none;
  last_stat_mtime_ms = none;
  created_at_ms = 1;
  updated_at_ms = 1;
}

abbrev scan : JobRow
scan = record {
  id = "j1";
  library_id = "l1";
  job_kind = "initial_scan";
  state = "running";
  observed_count = 0;
  unsupported_count = 0;
  error_code = none;
  root_id = some "r1";
  created_at_ms = 1;
  updated_at_ms = 1;
  finished_at_ms = none;
}

abbrev pub tables : Db
tables = record start {
  roots = photos ∷ [];
  sources = picture ∷ [];
  source_revisions = version ∷ [];
  locations = place ∷ [];
  jobs = scan ∷ [];
}

abbrev directory : AuthorizedRoot ℕ
directory = record { canonical_path = "/photos"; directory = 4 }

validate_root_evidence-recognized_example : validate_root_evidence disk tables "r1" directory ≡ (
    if recognized disk directory tables "r1" photos.scan_policy
    then ok tt
    else err root_identity_mismatch)
validate_root_evidence-recognized_example =
    validate_root_evidence-recognized disk directory tables "r1" photos refl

-- One known file, and its hash, suffice.
accepted : validate_root_evidence disk tables "r1" directory ≡ ok tt
unfolding validate_root_evidence reference_library.Session.Authority.matches_identity_policy
    reference_library.Session.Evidence.evidence reference_library.Session.Authority.open_file
accepted = refl

abbrev session : LibrarySession ℕ
session = opened_session "s1" "l1" 7 8 tables

Reached-HasOneScan_example : HasOneScan (add_root disk session "/photos" "Photos" "r2" "j2" 9).1.db
Reached-HasOneScan_example =
    Reached-HasOneScan (λ id. true) disk (add_root disk session "/photos" "Photos" "r2" "j2" 9).1
      (Reached.goes_on (Reached.opens "s1" "l1" 7 8 tables)
        (Step.adds_root session "/photos" "Photos" "r2" "j2" 9))

-- The directory is the known root, so its scan starts.
started : (add_root disk session "/photos" "Photos" "r2" "j2" 9).0 ≡ ok ("r1", "j2")
unfolding add_root opened_session reference_library.Session.Authority.open_root
    reference_library.Common.Text.trim reference_library.Session.Roots.match_evidence
    validate_root_evidence reference_library.Session.Authority.matches_identity_policy
    reference_library.Session.Evidence.evidence reference_library.Session.Authority.open_file
started = refl

opened_session-safe_example :
    (any is_active session.db.jobs ≡ false) × (any is_unsafe session.db.roots ≡ false)
opened_session-safe_example = opened_session-safe ℕ "s1" "l1" 7 8 tables

abbrev reading : LibrarySession ℕ
reading = record session {
  library_id = "l";
  db = record tables { asset_origins = origin ∷ [] };
  authorized_roots = ("r1", directory) ∷ [];
}

abbrev planned : ResourcePlan ℕ
planned = record {
  asset_id = "a1";
  location_id = "p1";
  root_id = "r1";
  source_revision_id = "v1";
  profile = ResourceProfile.preview;
  source_mime_type = "image/png";
  source_length = 5;
  expected_fingerprint = "sha256-full:00";
  source_file = 6;
  job_id = none;
}

resource_plan-IsVetted_example :
    IsVetted (λ id. true) disk reading "a1" ResourceProfile.preview none planned
unfolding reference_library.Session.Resources.resource_plan opened_session
    reference_library.Session.Resources.candidates
    reference_library.Rendition.preview_mime_supported reference_library.Session.Authority.open_file
resource_plan-IsVetted_example =
    resource_plan-IsVetted (λ id. true) disk reading "a1" ResourceProfile.preview none planned refl
