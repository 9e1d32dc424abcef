-- ===== src/Examples/Assets.antt =====
-- An asset that two clients edit.
use mathlib.Core.List.Memᴰ
use reference_library.Common.{true, ◌≡◌, refl, String, Option, none, some, [], ◌∷◌, All}
use reference_library.Common.Text.{trim}
use reference_library.Errors.{asset_revision_conflict}
use reference_library.Fallible.{err}
use reference_library.Protocol.Patch.{AssetPatch, TextPatch, default_patch}
use reference_library.Protocol.Results.{AssetDetail}
use reference_library.Database.{
  Db, AssetRow, RootRow, SourceRow, SourceRevisionRow, LocationRow, OriginRow,
}
use reference_library.Editorial.Tokens.{normalize_tokens}
use reference_library.Editorial.Tokens.Normal.{IsNormal, normalize_tokens-IsNormal}
use reference_library.Editorial.Located.{Place, preferred_place}
use reference_library.Editorial.Located.Joined.{IsPlace}
use reference_library.Editorial.Located.Preferred.{NotBehind, preferred_place-first}
use reference_library.Editorial.Assets.{update_asset}
use reference_library.Editorial.Assets.Stale.{update_asset-stale}
use reference_library.Editorial.Assets.Stored.{IsStored, update_asset-IsStored}
use reference_library.Examples.Data.{all_parse, asset, start}

abbrev as_it_is : String → String
as_it_is s = s

abbrev file_name : String → Option String
file_name path = some "elm.png"

abbrev folder : RootRow
folder = record {
  id = "r1";
  library_id = "l";
  display_name = "Trees";
  root_kind = "linked";
  last_known_display_path = none;
  state = "ready";
  scan_policy = "manual";
  created_at_ms = 1;
  updated_at_ms = 1;
  last_seen_at_ms = none;
}

abbrev tree : SourceRow
tree = record {
  id = "s1";
  library_id = "l";
  media_family = "still";
  current_revision_id = some "v1";
  lineage_state = "active";
  created_at_ms = 1;
  updated_at_ms = 1;
}

abbrev origin : OriginRow
origin = record {
  id = "o1";
  asset_id = "a1";
  source_id = "s1";
  origin_kind = "whole";
  origin_spec_json = "{}";
  revision_binding = "latest";
  created_at_ms = 1;
}

abbrev picture : SourceRevisionRow
picture = record {
  id = "v1";
  source_id = "s1";
  byte_size = 10;
  mtime_observed_ms = none;
  quick_fingerprint = none;
  mime_detected = "image/png";
  extension_observed = some "png";
  pixel_width = 4;
  pixel_height = 3;
  preview_kind = "image";
  grid_preview = true;
  created_at_ms = 1;
}

abbrev file : LocationRow
file = record {
  id = "p1";
  root_id = "r1";
  source_id = "s1";
  relative_path = [];
  relative_path_display = "trees/elm.png";
  platform_file_id = none;
  platform_file_id_kind = none;
  state = "present";
  last_stat_size = none;
  last_stat_mtime_ms = none;
  created_at_ms = 1;
  updated_at_ms = 1;
}

-- The start, with a file for the first asset.
abbrev found : Db
found = record start {
  roots = folder ∷ [];
  sources = tree ∷ [];
  source_revisions = picture ∷ [];
  locations = file ∷ [];
  asset_origins = origin ∷ [];
}

abbrev titled : AssetPatch
titled = record default_patch { custom_title = TextPatch.set " Elm " }

abbrev row : AssetRow
row = record (asset "a1" 1) { custom_title = some "Elm"; updated_at_ms = 9 }

abbrev edited : Db
edited = record found {
  library_meta = record { id = "l"; name = "Trees"; library_revision = 8; updated_at_ms = 9 };
  assets = row ∷ asset "a2" 0 ∷ [];
}

abbrev detail : AssetDetail
detail = record {
  asset_id = "a1";
  location_id = "p1";
  original_display_name = "elm.png";
  relative_display_path = "trees/elm.png";
  media_family = "still";
  mime_type = "image/png";
  extension = some "png";
  byte_size = 10;
  category = "trees";
  preview_kind = "image";
  availability = "present";
  review_state = "unreviewed";
  custom_title = some "Elm";
  note = none;
  tags = "red" ∷ [];
  used_in = [];
  revision = 1;
  collection_ids = "c1" ∷ [];
}

red-IsNormal : IsNormal as_it_is ("red" ∷ [])
unfolding normalize_tokens trim
red-IsNormal = (normalize_tokens-IsNormal as_it_is ("red" ∷ []) ("red" ∷ []) refl).0

none-IsNormal : IsNormal as_it_is []
unfolding normalize_tokens
none-IsNormal = (normalize_tokens-IsNormal as_it_is [] [] refl).0

start-IsStored : All (IsStored as_it_is) found.assets
start-IsStored = (
  record { title = tt; note = tt; tags = red-IsNormal; used_in = none-IsNormal },
  (record { title = tt; note = tt; tags = red-IsNormal; used_in = none-IsNormal }, tt),
)

update_asset-IsStored_example : All (IsStored as_it_is) edited.assets
unfolding update_asset trim reference_library.Editorial.Located.preferred_place
    reference_library.Editorial.Located.category
    reference_library.Editorial.Preview.preview_kind_for_mime
    reference_library.Editorial.Located.availability
update_asset-IsStored_example =
    update_asset-IsStored all_parse as_it_is file_name found "l" "a1" 0 titled 9 (detail, 8, edited)
      refl start-IsStored

update_asset-stale_example :
    update_asset all_parse as_it_is file_name edited "l" "a1" 0 default_patch 10
    ≡ err (asset_revision_conflict 0 1)
unfolding update_asset trim reference_library.Editorial.Located.preferred_place
    reference_library.Editorial.Located.category
    reference_library.Editorial.Preview.preview_kind_for_mime
    reference_library.Editorial.Located.availability
update_asset-stale_example =
    update_asset-stale all_parse as_it_is file_name found "l" "a1" 0 titled 9
      {made = (detail, 8, edited)} refl default_patch default_patch 10 refl

-- The same file in a folder that is offline.
abbrev copied : Db
copied = record found {
  roots = record folder { id = "r2"; state = "offline_volume" } ∷ folder ∷ [];
  locations = record file { id = "p0"; root_id = "r2" } ∷ file ∷ [];
}

abbrev elsewhere : Place
elsewhere = record {
  source = tree;
  revision = picture;
  location = record file { id = "p0"; root_id = "r2" };
  root = record folder { id = "r2"; state = "offline_volume" };
}

elsewhere-IsPlace : IsPlace copied "a1" elsewhere
elsewhere-IsPlace = record {
  origin = origin;
  origin_row = Memᴰ.head refl;
  of_asset = refl;
  source_row = Memᴰ.head refl;
  of_origin = refl;
  revision_row = Memᴰ.head refl;
  is_current = refl;
  location_row = Memᴰ.head refl;
  of_source = refl;
  root_row = Memᴰ.head refl;
  of_location = refl;
}

preferred_place-first_example :
    (best : Place) × (preferred_place copied "a1" ≡ some best)
    × IsPlace copied "a1" best
    × NotBehind best elsewhere
preferred_place-first_example = preferred_place-first copied "a1" elsewhere elsewhere-IsPlace
