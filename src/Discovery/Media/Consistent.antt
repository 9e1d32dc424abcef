-- ===== src/Discovery/Media/Consistent.antt =====
-- On classify_media of crates/reference-core/src/discovery.rs beside the media types of
-- editorial.rs and rendition.rs.
use reference_library.Common.{
  ℕ, ◌≡◌, refl, String, Bool, true, false, not, Option, none, some, List, [], ◌∷◌, ◌&&◌, ◌||◌,
  str_eq, eq_iff, sym, contains, if◌then◌else◌, All, arith, drop, &&_both, Bool-cases, Option-cases,
  inl, inr,
}
use reference_library.Rendition.{grid_mime_supported, preview_mime_supported}
use reference_library.Editorial.Preview.{preview_kind_for_mime}
use reference_library.Discovery.Media.{
  MediaClassification, ascii, starts_with, extension_is, first_arm, zip_media, brand_media,
  matroska_media, byte_arms, extension_arms, match_extension, classify_media,
}

-- What scanning stores is what the rest of the program expects of the media type.
pub record IsConsistent (m : MediaClassification) : Type 0 where
  pub kind : preview_kind_for_mime m.mime_type ≡ m.preview_kind
  pub preview : preview_mime_supported m.mime_type ≡ not (str_eq m.preview_kind "none")
  pub grid : grid_mime_supported m.mime_type ≡ m.grid_candidate
  pub probe : m.dimension_probe ≡ m.grid_candidate

abbrev same : Bool → Bool → Bool
same true b = b
same false b = not b

-- The same as a test, which computes on a fixed classification.
consistent : MediaClassification → Bool
unfolding preview_kind_for_mime preview_mime_supported grid_mime_supported
consistent m =
    str_eq (preview_kind_for_mime m.mime_type) m.preview_kind
    && same (preview_mime_supported m.mime_type) (not (str_eq m.preview_kind "none"))
    && same (grid_mime_supported m.mime_type) m.grid_candidate
    && same m.dimension_probe m.grid_candidate

same-eq : (a b : Bool) → same a b ≡ true → a ≡ b
same-eq true b h = ground arith
same-eq false b h = ground arith

all_four :
    (a b c d : Bool) → (a && b && c && d) ≡ true → (a ≡ true) × (b ≡ true) × (c ≡ true) × (d ≡ true)
all_four a b c d h = ground arith

consistent-IsConsistent : (m : MediaClassification) → consistent m ≡ true → IsConsistent m
unfolding consistent
consistent-IsConsistent m h =
    let parts =
      all_four (str_eq (preview_kind_for_mime m.mime_type) m.preview_kind)
        (same (preview_mime_supported m.mime_type) (not (str_eq m.preview_kind "none")))
        (same (grid_mime_supported m.mime_type) m.grid_candidate)
        (same m.dimension_probe m.grid_candidate) h in
    record {
      kind = (eq_iff (preview_kind_for_mime m.mime_type) m.preview_kind).0 parts.0;
      preview =
          same-eq (preview_mime_supported m.mime_type) (not (str_eq m.preview_kind "none")) parts.1;
      grid = same-eq (grid_mime_supported m.mime_type) m.grid_candidate parts.2;
      probe = same-eq m.dimension_probe m.grid_candidate parts.3;
    }

first_arm-consistent :
    (arms : List (Bool × MediaClassification)) (m : MediaClassification)
    → All (λ arm. consistent arm.1 ≡ true) arms
    → first_arm arms ≡ some m
    → consistent m ≡ true
unfolding first_arm
first_arm-consistent [] m h k = cc
first_arm-consistent ((test, n) ∷ arms) m h k = elim (Bool-cases test) [
  | inl e ↦ let found : n ≡ m = ground (arith, e, k) in rw (sym found) h.0
  | inr e ↦ first_arm-consistent arms m h.1 (ground (arith, e, k))
]

match_extension-consistent :
    (arms : List (List String × MediaClassification)) (extension : String) (m : MediaClassification)
    → All (λ arm. consistent arm.1 ≡ true) arms
    → match_extension arms extension ≡ some m
    → consistent m ≡ true
unfolding match_extension
match_extension-consistent [] extension m h k = cc
match_extension-consistent ((names, n) ∷ arms) extension m h k =
    elim (Bool-cases (contains names extension)) [
      | inl e ↦ let found : n ≡ m = ground (arith, e, k) in rw (sym found) h.0
      | inr e ↦ match_extension-consistent arms extension m h.1 (ground (arith, e, k))
    ]

all_consistent : List (List String × MediaClassification) → Bool
all_consistent [] = true
all_consistent ((names, m) ∷ arms) = consistent m && all_consistent arms

all_consistent-All :
    (arms : List (List String × MediaClassification))
    → all_consistent arms ≡ true
    → All (λ arm. consistent arm.1 ≡ true) arms
unfolding all_consistent
all_consistent-All [] h = tt
all_consistent-All ((names, m) ∷ arms) h =
    let parts = &&_both (consistent m) (all_consistent arms) h in
    (parts.0, all_consistent-All arms parts.1)

-- Whichever branch a choice takes.
either :
    (test : Bool) (m n : MediaClassification)
    → consistent m ≡ true
    → consistent n ≡ true
    → consistent (if test then m else n) ≡ true
either true m n h k = h
either false m n h k = k

zip_media-consistent : (extension : Option String) → consistent (zip_media extension) ≡ true
unfolding zip_media consistent
zip_media-consistent extension =
    either (extension_is extension "pptx") _ _ refl
      (either (extension_is extension "docx") _ _ refl refl)

matroska_media-consistent :
    (extension : Option String) → consistent (matroska_media extension) ≡ true
unfolding matroska_media consistent
matroska_media-consistent extension = either (extension_is extension "webm") _ _ refl refl

brand_media-consistent : (bytes : List ℕ) → consistent (brand_media bytes) ≡ true
unfolding brand_media consistent
brand_media-consistent bytes =
    let brand : String → Bool = λ text. starts_with (ascii text) (drop 8 bytes) in
    either (brand "avif" || brand "avis") _ _ refl (
      either
        (brand "heic"
          || brand "heix"
          || brand "hevc"
          || brand "hevx"
          || brand "mif1"
          || brand "msf1")
        _ _ refl
        (either (brand "M4A " || brand "M4B ") _ _ refl (either (brand "qt  ") _ _ refl refl)))

byte_arms-consistent :
    (bytes : List ℕ) (extension : Option String)
    → All (λ arm. consistent arm.1 ≡ true) (byte_arms bytes extension)
unfolding consistent
byte_arms-consistent bytes extension = (
  refl,
  (
    refl,
    (
      refl,
      (
        refl,
        (
          refl,
          (
            zip_media-consistent extension,
            (
              refl,
              (
                refl,
                (
                  refl,
                  (
                    refl,
                    (
                      refl,
                      (
                        refl,
                        (
                          refl,
                          (
                            brand_media-consistent bytes,
                            (
                              refl,
                              (
                                refl,
                                (refl, (refl, (matroska_media-consistent extension, (refl, tt)))),
                              ),
                            ),
                          ),
                        ),
                      ),
                    ),
                  ),
                ),
              ),
            ),
          ),
        ),
      ),
    ),
  ),
)

extension_arms-consistent : All (λ arm. consistent arm.1 ≡ true) extension_arms
unfolding all_consistent consistent
extension_arms-consistent = all_consistent-All extension_arms refl

by_extension :
    (bytes : List ℕ) (extension : Option String) (m : MediaClassification)
    → first_arm (byte_arms bytes extension) ≡ none
    → classify_media bytes extension ≡ some m
    → consistent m ≡ true
unfolding classify_media
by_extension bytes none m e h = ground (arith, e, h)
by_extension bytes (some name) m e h =
    match_extension-consistent extension_arms name m extension_arms-consistent
      (rw (classify_media, e) at h)

by_bytes :
    (bytes : List ℕ) (extension : Option String) (m n : MediaClassification)
    → first_arm (byte_arms bytes extension) ≡ some n
    → classify_media bytes extension ≡ some m
    → n ≡ m
unfolding classify_media
by_bytes bytes extension m n e h = let known : some n ≡ some m = (rw (classify_media, e) at h) in cc

-- Whatever the bytes and the extension, a classification has the preview kind that the editorial
-- queries give its media type, is previewable exactly when the renditions support that type, and
-- is a grid candidate exactly when they make grids of it.
pub classify_media-IsConsistent :
    (bytes : List ℕ) (extension : Option String) (m : MediaClassification)
    → classify_media bytes extension ≡ some m
    → IsConsistent m
classify_media-IsConsistent bytes extension m h =
    consistent-IsConsistent m (elim (Option-cases (first_arm (byte_arms bytes extension))) [
      | inr (n, e) ↦ rw (sym (by_bytes bytes extension m n e h)) (
          first_arm-consistent (byte_arms bytes extension) n (byte_arms-consistent bytes extension)
            e)
      | inl e ↦ by_extension bytes extension m e h
    ])
