-- ===== src/Examples/Pages.antt =====
-- The last three assets of 20 000, of which a frame holds two.
use reference_library.Common.{
  ℕ, ◌+◌, ◌*◌, ◌≤◌, ◌<◌, ◌≡◌, ◌==◌, refl, String, Option, none, some, inl, inr, Bool-cases, List,
  [], ◌∷◌, length, length-take, arith,
}
use reference_library.Protocol.Limits.{max_frame_bytes}
use reference_library.Protocol.Results.{AssetFacets, AssetSummary, AssetPage}
use reference_library.Editorial.Page.{page_of, byte_bound_asset_page}
use reference_library.Editorial.Page.Longest.{
  byte_bound_asset_page-fits, byte_bound_asset_page-longest,
}

abbrev facets : AssetFacets
facets = record { categories = []; extensions = []; media_families = []; tags = []; used_in = [] }

abbrev item : String → AssetSummary
item id = record {
  asset_id = id;
  location_id = "p";
  display_name = "elm.png";
  relative_display_path = "elm.png";
  media_family = "still";
  mime_type = "image/png";
  extension = none;
  byte_size = 10;
  category = "(Root)";
  preview_kind = "image";
  availability = "present";
  review_state = "keep";
  custom_title = none;
  tags = [];
  used_in = [];
  preview_asset_ids = [];
  created_at_ms = 1;
  revision = 0;
}

abbrev items : List AssetSummary
items = item "a1" ∷ item "a2" ∷ item "a3" ∷ []

abbrev spelled : Option ℕ → ℕ
spelled none = 4
spelled (some next) = 5

-- An item of 400 000 bytes, behind the next offset: five digits, or `null`.
abbrev encoded_length : AssetPage → ℕ
encoded_length page = spelled page.next_offset + 400000 * length page.items

abbrev sent : ℕ → AssetPage
sent = page_of encoded_length 19997 3 20000 items 8 facets

spelled-bound : (next : Option ℕ) → (4 ≤ spelled next) × (spelled next ≤ 5)
spelled-bound none = omega arith
spelled-bound (some next) = omega arith

-- Of two different pages the longer has an item more, which outweighs the next offset.
encoded_length_mono :
    (a b : ℕ) → a ≤ b → b ≤ length items → encoded_length (sent a) ≤ encoded_length (sent b)
unfolding page_of
encoded_length_mono a b h within = elim (Bool-cases (a == b)) [
  | inl e ↦ let same : a ≡ b = ground (arith, e) in rw same (omega arith)
  | inr e ↦
      let more : a + 1 ≤ b = ground (arith, e, h) in
      omega (
        arith,
        more,
        within,
        length-take a items,
        length-take b items,
        spelled-bound (sent a).next_offset,
        spelled-bound (sent b).next_offset,
      )
]

byte_bound_asset_page-fits_example : encoded_length (sent 2) + 4 ≤ max_frame_bytes
unfolding byte_bound_asset_page
byte_bound_asset_page-fits_example =
    byte_bound_asset_page-fits encoded_length 19997 3 20000 items 8 facets (sent 2) refl

byte_bound_asset_page-longest_example : max_frame_bytes < encoded_length (sent 3) + 4
unfolding byte_bound_asset_page
byte_bound_asset_page-longest_example =
    byte_bound_asset_page-longest encoded_length 19997 3 20000 items 8 facets encoded_length_mono
      (sent 2) refl 3 (omega arith) (omega arith)
