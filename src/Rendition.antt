-- ===== src/Rendition.antt =====
-- The media types that crates/reference-core/src/rendition.rs renders.
use reference_library.Common.{String, Bool, [], ◌∷◌, contains}

-- `grid_mime_supported`
unfoldable pub grid_mime_supported : String → Bool
grid_mime_supported mime = contains ("image/png" ∷ "image/jpeg" ∷ "image/webp" ∷ []) mime

-- `preview_mime_supported`
unfoldable pub preview_mime_supported : String → Bool
preview_mime_supported mime =
    contains
      ("image/png" ∷ "image/jpeg" ∷ "image/webp" ∷ "image/gif" ∷ "image/svg+xml" ∷ "image/bmp"
        ∷ "image/avif" ∷ "image/x-icon" ∷ "application/pdf" ∷ "video/mp4" ∷ "video/quicktime"
        ∷ "video/webm" ∷ "audio/mpeg" ∷ "audio/wav" ∷ "audio/ogg" ∷ "audio/flac" ∷ "audio/mp4"
        ∷ "audio/aiff" ∷ "font/otf" ∷ "font/ttf" ∷ "font/woff" ∷ "font/woff2" ∷ "text/plain"
        ∷ "text/markdown" ∷ [])
      mime
