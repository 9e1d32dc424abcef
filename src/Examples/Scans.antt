-- ===== src/Examples/Scans.antt =====
-- A scan of one folder with one picture in it.
use reference_library.Common.{
  ℕ, ◌+◌, ◌≡◌, refl, length, Bool, true, false, none, some, List, [], ◌∷◌, ◌++◌, any, arith,
}
use reference_library.Fallible.{Result, ok, err}
use reference_library.Protocol.Event.{Event}
use reference_library.Discovery.Marks.{ScanPlan}
use reference_library.Database.{AssetRow, bump_revision}
use reference_library.Discovery.Match.{FileCandidate}
use reference_library.Discovery.Store.{NewIds}
use reference_library.Discovery.Flush.{Scanned, Candidates, flush_batch}
use reference_library.Discovery.Inspect.{Observed, FileReads}
use reference_library.Discovery.Walk.{Disk, OpenAt, Walk, Ran, going, cancelled, broken, walk_stack}
use reference_library.Discovery.Walk.Exhausted.{walk_stack-exhausted}
use reference_library.Discovery.Scan.{first_walk, scan_root}
use reference_library.Discovery.Unseen.{mark_unseen, mark_pages}
use reference_library.Discovery.Unseen.Paged.{mark_unseen-exhausted}
use reference_library.Discovery.Kept.Announced.{Announces, flush_batch-Announces}
use reference_library.Discovery.Kept.Marked.{IsKept}
use reference_library.Discovery.Scan.Preserved.{scan_root-IsKept}
use reference_library.Discovery.Scan.JobEnded.{under_way, scan_root-over}
use reference_library.Examples.Library.{tables}

abbrev plan : ScanPlan
plan = record { library_id = "l1"; root_id = "r1"; job_id = "j1" }

abbrev seen_as : Observed
seen_as = record { dev = 1; ino = 9; len = 5; mtime_ms = some 3; nlink = 1 }

-- The eight bytes that begin a PNG.
abbrev png : List ℕ
png = 137 ∷ 80 ∷ 78 ∷ 71 ∷ 13 ∷ 10 ∷ 26 ∷ 10 ∷ []

abbrev reads : List ℕ → FileReads
reads bytes = record {
  relative_bytes = bytes;
  relative_text = "b.png";
  extension = some "png";
  before = ok seen_as;
  prefix = ok png;
  dimensions = some (4, 3);
  full_fingerprint = ok "sha256-full:01";
  oversized_fingerprint = ok "";
  after = ok seen_as;
}

-- The folder has one file, `b`.
abbrev folder : Disk
folder = record {
  open_relative_directory = λ path. ok tt;
  read_directory_names = λ path. ok ((b'b' ∷ []) ∷ []);
  open_directory = λ path. OpenAt.not_directory;
  open_file = λ path. OpenAt.opened;
  is_file = λ path. ok true;
  read_file = reads;
  is_absent = λ path. false;
}

abbrev ids : ℕ → NewIds
ids n = record {
  source_id = "s2";
  revision_id = "v2";
  location_id = "p2";
  asset_id = "a3";
  origin_id = "o2";
}

abbrev at_once : ℕ → ℕ
at_once n = 9

abbrev never : ℕ → Bool
never n = false

scan_root-IsKept_example :
    IsKept tables (scan_root folder plan never ids at_once (ok tt) (ok tt) tables).db
scan_root-IsKept_example = scan_root-IsKept folder plan never ids at_once (ok tt) (ok tt) tables

scan_root-over_example :
    any (under_way "j1") (scan_root folder plan never ids at_once (ok tt) (ok tt) tables).db.jobs
    ≡ false
unfolding scan_root
scan_root-over_example = scan_root-over folder plan never ids at_once (ok tt) (ok tt) tables refl

abbrev walk_of : Ran → Walk
walk_of (going w) = w
walk_of (cancelled w) = w
walk_of (broken cause w) = w

abbrev walked : Walk
walked = walk_of (
    walk_stack folder plan never ids at_once 9
      (record (first_walk tables) { traversed_entries = 249998 }))

walk_stack-exhausted_example : walked.stack ≡ []
unfolding walk_stack
walk_stack-exhausted_example =
    walk_stack-exhausted folder plan never ids at_once 9
      (record (first_walk tables) { traversed_entries = 249998 }) walked (omega arith) refl

abbrev found : FileCandidate
found = record {
  relative_bytes = b'b' ∷ [];
  relative_display = "b";
  byte_size = 5;
  mtime_ms = none;
  quick_fingerprint = "sha256-full:01";
  platform_file_id = none;
  platform_file_id_kind = none;
  platform_link_count = none;
  location_state = "present";
  mime_type = "image/png";
  media_family = "still_image";
  preview_kind = "none";
  extension = none;
  pixel_width = 0;
  pixel_height = 0;
  grid_servable = false;
}

abbrev batch : Candidates
batch = (found, ids 0) ∷ []

abbrev before : Scanned
before = (first_walk tables).scanned

abbrev flushed_of : Result (List Event × Scanned) → List Event × Scanned
flushed_of (ok made) = made
flushed_of (err cause) = ([], before)

abbrev after : List Event × Scanned
after = flushed_of (flush_batch (λ path. false) plan 9 batch before)

flush_batch-Announces_example :
    (added : List AssetRow) × (after.1.db.assets ≡ before.db.assets ++ added)
    × Announces plan 1 1 after.1.db.library_meta.library_revision added after.0
unfolding flush_batch
flush_batch-Announces_example =
    flush_batch-Announces (λ path. false) plan 9 (found, ids 0) [] before after.1 after.0 refl

mark_unseen-exhausted_example :
    mark_unseen plan [] [] [] 9 tables
    ≡ bump_revision 9 (mark_pages plan [] [] [] 9 (5 + (length tables.locations + 1)) ("", tables))
mark_unseen-exhausted_example = mark_unseen-exhausted plan [] [] [] 9 tables 5
