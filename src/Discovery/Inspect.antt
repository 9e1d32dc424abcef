-- ===== src/Discovery/Inspect.antt =====
-- How a file is looked at: `FileCandidate::inspect_file` of crates/reference-core/src/discovery.rs,
-- on Unix. What the disk, the image probe and the hashes answer is an argument.
use Prim.Native.String.{◌∷◌ as char_first, [] as no_text, ◌++◌ as ◌<>◌}
use reference_library.Common.{
  ℕ, zero, suc, ◌-◌, ◌==◌, String, Bool, true, false, Option, none, some, List, ◌++◌, not, ◌&&◌,
  leb, if◌then◌else◌,
}
use reference_library.Common.Text.{char_count}
use reference_library.Errors.{source_revision_changed}
use reference_library.Fallible.{Result, ok, ◌>>=◌, ◌>>◌, reject_if}
use reference_library.Canonical.Digest.{be_bytes}
use reference_library.Session.Resources.{max_source_bytes}
use reference_library.Discovery.Media.{MediaClassification, classify_media, valid_dimensions}
use reference_library.Discovery.Match.{FileCandidate}

-- What the code reads of `fs::Metadata`.
pub record Observed : Type 0 where
  pub dev : ℕ
  pub ino : ℕ
  pub len : ℕ
  pub mtime_ms : Option ℕ
  pub nlink : ℕ

pub record FileReads : Type 0 where
  pub relative_bytes : List ℕ
  pub relative_text : String
  pub extension : Option String
  pub before : Result Observed
  pub prefix : Result (List ℕ)
  pub dimensions : Option (ℕ × ℕ)
  pub full_fingerprint : Result String
  pub oversized_fingerprint : Result String
  pub after : Result Observed

abbrev pub same_mtime : Option ℕ → Option ℕ → Bool
same_mtime none none = true
same_mtime (some a) (some b) = a == b
same_mtime a b = false

abbrev pub same_file_observation : Observed → Observed → Bool
same_file_observation before after =
    before.dev == after.dev
    && before.ino == after.ino
    && before.len == after.len
    && same_mtime before.mtime_ms after.mtime_ms

-- `chars().skip(n)`
abbrev pub skip_chars : ℕ → String → String
skip_chars zero s = s
skip_chars (suc n) no_text = no_text
skip_chars (suc n) (char_first c s) = skip_chars n s

unfoldable pub bounded_relative_display : String → String
bounded_relative_display value =
    if leb (char_count value) 1024 then value else "…" <> skip_chars (char_count value - 1023) value

abbrev pub is_some {ℓ} : {A : Type ℓ} → Option A → Bool
is_some none = false
is_some (some x) = true

abbrev pub valid : Option (ℕ × ℕ) → Bool
valid none = false
valid (some (width, height)) = valid_dimensions width height

-- `dimensions.filter(..).map(..).unwrap_or_default()`
abbrev pub pixels : Option (ℕ × ℕ) → ℕ × ℕ
pixels none = (0, 0)
pixels (some (width, height)) = if valid_dimensions width height then (width, height) else (0, 0)

abbrev pub probed : MediaClassification → Observed → FileReads → Option (ℕ × ℕ)
probed kind before reads =
    if kind.dimension_probe && leb before.len max_source_bytes then reads.dimensions else none

abbrev pub inspected_state : MediaClassification → Observed → Option (ℕ × ℕ) → String
inspected_state kind before dimensions =
    if kind.dimension_probe && leb before.len max_source_bytes && not (is_some dimensions)
    then "unreadable"
    else "present"

abbrev pub candidate_of :
    FileReads
    → MediaClassification
    → (dimensions : Option (ℕ × ℕ)) → (location_state fingerprint : String) → (after : Observed)
    → FileCandidate
candidate_of reads kind dimensions location_state fingerprint after = record {
  relative_bytes = reads.relative_bytes;
  relative_display = bounded_relative_display reads.relative_text;
  byte_size = after.len;
  mtime_ms = after.mtime_ms;
  quick_fingerprint = fingerprint;
  platform_file_id = some (be_bytes 8 after.dev ++ be_bytes 8 after.ino);
  platform_file_id_kind = some "unix-device-inode-v1";
  platform_link_count = some after.nlink;
  location_state = location_state;
  mime_type = kind.mime_type;
  media_family = kind.media_family;
  preview_kind = kind.preview_kind;
  extension = reads.extension;
  pixel_width = (pixels dimensions).0;
  pixel_height = (pixels dimensions).1;
  grid_servable = kind.grid_candidate && valid dimensions;
}

-- What follows the classification.
abbrev pub measured :
    FileReads → (before : Observed) → Option MediaClassification → Result (Option FileCandidate)
measured reads before none = ok none
measured reads before (some kind) = do
  fingerprint ←
      (if leb before.len max_source_bytes
        then reads.full_fingerprint
        else reads.oversized_fingerprint)
  after ← reads.after
  reject_if (not (same_file_observation before after)) source_revision_changed
  ok (
      some (
        candidate_of reads kind (probed kind before reads)
          (inspected_state kind before (probed kind before reads)) fingerprint after))

unfoldable pub inspect_file : FileReads → Result (Option FileCandidate)
unfolding classify_media valid_dimensions be_bytes bounded_relative_display
inspect_file reads = do
  before ← reads.before
  prefix ← reads.prefix
  measured reads before (classify_media prefix reads.extension)
