-- ===== src/Discovery/Media.antt =====
-- What a file is: `classify_media` of crates/reference-core/src/discovery.rs. A byte is a natural
-- number; a chain of early returns is a list of arms, of which the first that applies is taken.
pub mod Consistent
use Prim.Native.Char.{code}
use Prim.Native.String.{[] as empty, ◌∷◌ as char_first}
use reference_library.Common.{
  ℕ, suc, ◌*◌, String, Bool, true, false, Option, none, some, List, [], ◌∷◌, ◌++◌, ◌&&◌, ◌||◌,
  str_eq, ltb, leb, ◌==◌, if◌then◌else◌, contains, any, take, drop, length, map, min,
}
use reference_library.Common.Text.{lower_code}
use reference_library.Common.Decimal.{max_u64}

pub record MediaClassification : Type 0 where
  pub mime_type : String
  pub media_family : String
  pub preview_kind : String
  pub dimension_probe : Bool
  pub grid_candidate : Bool

abbrev pub media : String → String → String → Bool → Bool → MediaClassification
media mime family kind probe grid = record {
  mime_type = mime;
  media_family = family;
  preview_kind = kind;
  dimension_probe = probe;
  grid_candidate = grid;
}

-- The bytes of an ASCII text.
abbrev pub ascii : String → List ℕ
ascii empty = []
ascii (char_first c s) = code c ∷ ascii s

-- `starts_with`
abbrev pub starts_with : List ℕ → List ℕ → Bool
starts_with [] bytes = true
starts_with (p ∷ prefix) [] = false
starts_with (p ∷ prefix) (b ∷ bytes) = p == b && starts_with prefix bytes

-- `bytes.len() >= 12 && &bytes[from..from + 4] == text`, for the offsets 0, 4 and 8.
abbrev pub has_at : ℕ → String → List ℕ → Bool
has_at from text bytes = leb 12 (length bytes) && starts_with (ascii text) (drop from bytes)

-- `windows(4).any(|window| window.eq_ignore_ascii_case(b"<svg"))`
abbrev pub has_svg_window : List ℕ → Bool
has_svg_window [] = false
has_svg_window (b ∷ bytes) =
    starts_with (ascii "<svg") (map lower_code (take 4 (b ∷ bytes))) || has_svg_window bytes

-- The first arm whose test holds.
unfoldable pub first_arm : List (Bool × MediaClassification) → Option MediaClassification
first_arm [] = none
first_arm ((test, m) ∷ arms) = if test then some m else first_arm arms

abbrev pub extension_is : Option String → String → Bool
extension_is none name = false
extension_is (some extension) name = str_eq extension name

-- A file that starts with the signature of a ZIP.
unfoldable pub zip_media : Option String → MediaClassification
zip_media extension =
    if extension_is extension "pptx"
    then media "application/vnd.openxmlformats-officedocument.presentationml.presentation"
        "presentation" "none" false false
    else if extension_is extension "docx"
    then media "application/vnd.openxmlformats-officedocument.wordprocessingml.document" "document"
        "none" false false
    else media "application/zip" "archive" "none" false false

-- A file of ISO base media: the brand decides.
unfoldable pub brand_media : List ℕ → MediaClassification
brand_media bytes =
    let brand : String → Bool = λ text. starts_with (ascii text) (drop 8 bytes) in
    if brand "avif" || brand "avis"
    then media "image/avif" "still" "image" false false
    else if brand "heic"
        || brand "heix"
        || brand "hevc"
        || brand "hevx"
        || brand "mif1"
        || brand "msf1"
    then media "image/heic" "still" "none" false false
    else if brand "M4A " || brand "M4B "
    then media "audio/mp4" "audio" "audio" false false
    else if brand "qt  "
    then media "video/quicktime" "video" "video" false false
    else media "video/mp4" "video" "video" false false

unfoldable pub matroska_media : Option String → MediaClassification
matroska_media extension =
    if extension_is extension "webm"
    then media "video/webm" "video" "video" false false
    else media "video/x-matroska" "video" "none" false false

-- The arms that read the bytes.
abbrev pub byte_arms : List ℕ → Option String → List (Bool × MediaClassification)
byte_arms bytes extension =
    (
      starts_with (0x89 ∷ b'P' ∷ b'N' ∷ b'G' ∷ 0x0d ∷ 0x0a ∷ 0x1a ∷ 0x0a ∷ []) bytes,
      media "image/png" "still" "image" true true,
    )
    ∷ (starts_with (0xff ∷ 0xd8 ∷ 0xff ∷ []) bytes, media "image/jpeg" "still" "image" true true)
    ∷ (has_at 0 "RIFF" bytes && has_at 8 "WEBP" bytes, media "image/webp" "still" "image" true true)
    ∷ (
      starts_with (ascii "GIF87a") bytes || starts_with (ascii "GIF89a") bytes,
      media "image/gif" "animation" "image" false false,
    )
    ∷ (starts_with (ascii "%PDF-") bytes, media "application/pdf" "document" "pdf" false false)
    ∷ (starts_with (b'P' ∷ b'K' ∷ 0x03 ∷ 0x04 ∷ []) bytes, zip_media extension)
    ∷ (starts_with (ascii "OTTO") bytes, media "font/otf" "font" "font" false false)
    ∷ (starts_with (0 ∷ 1 ∷ 0 ∷ 0 ∷ []) bytes, media "font/ttf" "font" "font" false false)
    ∷ (starts_with (ascii "wOFF") bytes, media "font/woff" "font" "font" false false)
    ∷ (starts_with (ascii "wOF2") bytes, media "font/woff2" "font" "font" false false)
    ∷ (
      starts_with (ascii "8BPS") bytes,
      media "image/vnd.adobe.photoshop" "design" "none" false false,
    )
    ∷ (starts_with (ascii "BM") bytes, media "image/bmp" "still" "image" false false)
    ∷ (
      starts_with (b'I' ∷ b'I' ∷ b'*' ∷ 0 ∷ []) bytes
          || starts_with (b'M' ∷ b'M' ∷ 0 ∷ b'*' ∷ []) bytes,
      media "image/tiff" "still" "none" false false,
    )
    ∷ (has_at 4 "ftyp" bytes, brand_media bytes)
    ∷ (
      has_at 0 "RIFF" bytes && has_at 8 "WAVE" bytes,
      media "audio/wav" "audio" "audio" false false,
    )
    ∷ (starts_with (ascii "OggS") bytes, media "audio/ogg" "audio" "audio" false false)
    ∷ (starts_with (ascii "fLaC") bytes, media "audio/flac" "audio" "audio" false false)
    ∷ (
      starts_with (ascii "ID3") bytes || starts_with (0xff ∷ 0xfb ∷ []) bytes,
      media "audio/mpeg" "audio" "audio" false false,
    )
    ∷ (starts_with (0x1a ∷ 0x45 ∷ 0xdf ∷ 0xa3 ∷ []) bytes, matroska_media extension)
    ∷ (has_svg_window (take 512 bytes), media "image/svg+xml" "vector" "image" false false)
    ∷ []

-- The arms of `match extension? { … }`: the extensions of an arm, and what it yields.
abbrev pub extension_arms : List (List String × MediaClassification)
extension_arms =
    ("png" ∷ [], media "image/png" "still" "image" true true)
    ∷ ("jpg" ∷ "jpeg" ∷ [], media "image/jpeg" "still" "image" true true)
    ∷ ("webp" ∷ [], media "image/webp" "still" "image" true true)
    ∷ ("gif" ∷ [], media "image/gif" "animation" "image" false false)
    ∷ ("svg" ∷ [], media "image/svg+xml" "vector" "image" false false)
    ∷ ("bmp" ∷ [], media "image/bmp" "still" "image" false false)
    ∷ ("tif" ∷ "tiff" ∷ [], media "image/tiff" "still" "none" false false)
    ∷ ("avif" ∷ [], media "image/avif" "still" "image" false false)
    ∷ ("heic" ∷ "heif" ∷ [], media "image/heic" "still" "none" false false)
    ∷ ("ico" ∷ [], media "image/x-icon" "still" "image" false false)
    ∷ ("psd" ∷ "psb" ∷ [], media "image/vnd.adobe.photoshop" "design" "none" false false)
    ∷ ("ai" ∷ [], media "application/vnd.adobe.illustrator" "design" "none" false false)
    ∷ ("eps" ∷ [], media "application/postscript" "design" "none" false false)
    ∷ ("indd" ∷ "indl" ∷ "indt" ∷ [], media "application/x-indesign" "design" "none" false false)
    ∷ ("sketch" ∷ [], media "application/x-sketch" "design" "none" false false)
    ∷ ("fig" ∷ [], media "application/x-figma" "design" "none" false false)
    ∷ ("xd" ∷ [], media "application/x-adobe-xd" "design" "none" false false)
    ∷ (
      "afdesign" ∷ "afphoto" ∷ "afpub" ∷ [],
      media "application/x-affinity" "design" "none" false false,
    )
    ∷ ("pdf" ∷ [], media "application/pdf" "document" "pdf" false false)
    ∷ ("txt" ∷ "md" ∷ [], media "text/plain" "document" "text" false false)
    ∷ ("rtf" ∷ [], media "application/rtf" "document" "none" false false)
    ∷ ("doc" ∷ [], media "application/msword" "document" "none" false false)
    ∷ (
      "docx" ∷ [],
      media "application/vnd.openxmlformats-officedocument.wordprocessingml.document" "document"
          "none" false false,
    )
    ∷ ("ppt" ∷ [], media "application/vnd.ms-powerpoint" "presentation" "none" false false)
    ∷ (
      "pptx" ∷ [],
      media "application/vnd.openxmlformats-officedocument.presentationml.presentation"
          "presentation" "none" false false,
    )
    ∷ ("key" ∷ [], media "application/x-iwork-keynote-sffkey" "presentation" "none" false false)
    ∷ ("mp4" ∷ "m4v" ∷ [], media "video/mp4" "video" "video" false false)
    ∷ ("mov" ∷ [], media "video/quicktime" "video" "video" false false)
    ∷ ("webm" ∷ [], media "video/webm" "video" "video" false false)
    ∷ ("mkv" ∷ [], media "video/x-matroska" "video" "none" false false)
    ∷ ("avi" ∷ [], media "video/x-msvideo" "video" "none" false false)
    ∷ ("mxf" ∷ [], media "application/mxf" "video" "none" false false)
    ∷ ("mp3" ∷ [], media "audio/mpeg" "audio" "audio" false false)
    ∷ ("wav" ∷ [], media "audio/wav" "audio" "audio" false false)
    ∷ ("aif" ∷ "aiff" ∷ [], media "audio/aiff" "audio" "audio" false false)
    ∷ ("m4a" ∷ [], media "audio/mp4" "audio" "audio" false false)
    ∷ ("ogg" ∷ [], media "audio/ogg" "audio" "audio" false false)
    ∷ ("flac" ∷ [], media "audio/flac" "audio" "audio" false false)
    ∷ ("otf" ∷ [], media "font/otf" "font" "font" false false)
    ∷ ("ttf" ∷ "ttc" ∷ [], media "font/ttf" "font" "font" false false)
    ∷ ("woff" ∷ [], media "font/woff" "font" "font" false false)
    ∷ ("woff2" ∷ [], media "font/woff2" "font" "font" false false)
    ∷ ("zip" ∷ [], media "application/zip" "archive" "none" false false)
    ∷ ("rar" ∷ [], media "application/vnd.rar" "archive" "none" false false)
    ∷ ("7z" ∷ [], media "application/x-7z-compressed" "archive" "none" false false)
    ∷ ("tar" ∷ [], media "application/x-tar" "archive" "none" false false)
    ∷ ("gz" ∷ "tgz" ∷ [], media "application/gzip" "archive" "none" false false)
    ∷ ("xz" ∷ [], media "application/x-xz" "archive" "none" false false)
    ∷ []

unfoldable pub match_extension :
    List (List String × MediaClassification) → String → Option MediaClassification
match_extension [] extension = none
match_extension ((names, m) ∷ arms) extension =
    if contains names extension then some m else match_extension arms extension

unfoldable pub classify_media : List ℕ → Option String → Option MediaClassification
unfolding first_arm zip_media brand_media matroska_media match_extension
classify_media bytes extension = elim (first_arm (byte_arms bytes extension)) [
  | some m ↦ some m
  | none ↦ elim extension [ none ↦ none | some name ↦ match_extension extension_arms name ]
]

-- `valid_dimensions`: the product saturates at the largest u64.
unfoldable pub valid_dimensions : ℕ → ℕ → Bool
valid_dimensions width height =
    ltb 0 width
    && ltb 0 height
    && leb width 100000
    && leb height 100000
    && leb (min (width * height) max_u64) 500000000
