-- ===== src/Editorial/Preview.antt =====
-- How an asset is previewed: `preview_kind_for_mime` of crates/reference-core/src/editorial.rs.
use reference_library.Common.{String, [], ◌∷◌, contains, if◌then◌else◌}

unfoldable pub preview_kind_for_mime : String → String
preview_kind_for_mime mime =
    if contains
      ("image/png" ∷ "image/jpeg" ∷ "image/webp" ∷ "image/gif" ∷ "image/svg+xml" ∷ "image/bmp"
        ∷ "image/avif" ∷ "image/x-icon" ∷ [])
      mime
    then "image"
    else if contains ("video/mp4" ∷ "video/webm" ∷ "video/quicktime" ∷ []) mime
    then "video"
    else if contains
        ("audio/mpeg" ∷ "audio/wav" ∷ "audio/ogg" ∷ "audio/flac" ∷ "audio/mp4" ∷ "audio/aiff" ∷ [])
        mime
    then "audio"
    else if contains ("application/pdf" ∷ []) mime
    then "pdf"
    else if contains ("font/otf" ∷ "font/ttf" ∷ "font/woff" ∷ "font/woff2" ∷ []) mime
    then "font"
    else if contains ("text/plain" ∷ []) mime
    then "text"
    else "none"
