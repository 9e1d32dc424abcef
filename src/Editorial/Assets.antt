-- ===== src/Editorial/Assets.antt =====
-- The editorial state of an asset: `update_asset` and `asset_detail` of
-- crates/reference-core/src/editorial.rs. A row's JSON columns are decoded already.
-- `file_name` stands for `Path::file_name`, `to_lowercase` for the method of `str`.
pub mod Stale
pub mod Stored
use reference_library.Common.{
  ℕ, ◌+◌, String, Bool, true, false, not, Option, none, some, List, [], ◌∷◌, ◌&&◌, ◌||◌, str_eq,
  ltb, ◌==◌, map, if◌then◌else◌, length, keep_if, take,
}
use reference_library.Common.Sort.{sort_by}
use reference_library.Errors.{
  CoreError, asset_not_found, asset_revision_conflict, asset_collection_limit_reached,
}
use reference_library.Fallible.{Result, ok, err, ◌>>=◌, ◌>>◌, reject_if, ok_or}
use reference_library.Protocol.Limits.{max_title_chars, max_note_chars, max_asset_collections}
use reference_library.Protocol.States.{review_state_as_str}
use reference_library.Protocol.Patch.{AssetPatch}
use reference_library.Protocol.Results.{AssetDetail}
use reference_library.Database.{Db, AssetRow, bump_revision, update_where, find_where}
use reference_library.Editorial.TextPatches.{normalize_text_patch, apply_patch}
use reference_library.Editorial.Tokens.{normalize_string_list_patch, apply_string_list_patch}
use reference_library.Editorial.Preview.{preview_kind_for_mime}
use reference_library.Editorial.Located.{preferred_place, availability, category, display_name}
use reference_library.Editorial.Collections.{validate_uuid}

-- The columns that a patch changes.
unfoldable pub patched_row : AssetRow → AssetPatch → ℕ → AssetRow
unfolding apply_patch apply_string_list_patch
patched_row row patch timestamp = record row {
  custom_title = apply_patch row.custom_title patch.custom_title;
  review_state = elim patch.review_state [
    | some state ↦ review_state_as_str state
    | none ↦ row.review_state
  ];
  note = apply_patch row.note patch.note;
  tags = apply_string_list_patch row.tags patch.tags;
  used_in = apply_string_list_patch row.used_in patch.used_in;
  revision = row.revision + 1;
  updated_at_ms = timestamp;
}

abbrev pub is_asset : String → String → AssetRow → Bool
is_asset library_id asset_id a = str_eq a.id asset_id && str_eq a.library_id library_id

-- The patches of an update, normalised in the source's order.
unfoldable pub normalize_patch : (String → String) → AssetPatch → Result AssetPatch
unfolding normalize_text_patch normalize_string_list_patch
normalize_patch to_lowercase patch = do
  title ← normalize_text_patch patch.custom_title max_title_chars true
  note ← normalize_text_patch patch.note max_note_chars false
  tags ← normalize_string_list_patch to_lowercase patch.tags
  used_in ← normalize_string_list_patch to_lowercase patch.used_in
  ok (record patch { custom_title = title; note = note; tags = tags; used_in = used_in })

-- The collections of an asset, ordered, cut one above the limit, which is then an error.
unfoldable pub collections_of : Db → String → Result (List String)
unfolding sort_by
collections_of db asset_id =
    let ids = take (max_asset_collections + 1) (
      sort_by (λ id. id)
        (map (λ m. m.collection_id)
          (keep_if (λ m. str_eq m.asset_id asset_id) db.collection_assets))) in
    if ltb max_asset_collections (length ids) then err asset_collection_limit_reached else ok ids

module _ (uuid_parses : String → Bool) (to_lowercase : String → String)
    (file_name : String → Option String) where
  -- The editorial columns over the preferred location's.
  unfoldable pub asset_detail : Db → String → String → Result AssetDetail
  unfolding collections_of
  asset_detail db library_id asset_id = do
    row ← ok_or (find_where (is_asset library_id asset_id) db.assets) asset_not_found
    place ← ok_or (preferred_place db asset_id) asset_not_found
    collection_ids ← collections_of db asset_id
    ok (record {
      asset_id = row.id;
      location_id = place.location.id;
      original_display_name = display_name file_name place.location.relative_path_display;
      relative_display_path = place.location.relative_path_display;
      media_family = place.source.media_family;
      mime_type = place.revision.mime_detected;
      extension = place.revision.extension_observed;
      byte_size = place.revision.byte_size;
      category = category place.location.relative_path_display;
      preview_kind = preview_kind_for_mime place.revision.mime_detected;
      availability = availability place;
      review_state = row.review_state;
      custom_title = row.custom_title;
      note = row.note;
      tags = row.tags;
      used_in = row.used_in;
      revision = row.revision;
      collection_ids = collection_ids;
    })

  unfoldable pub update_asset :
      Db
      → (library_id asset_id : String) → (expected_revision : ℕ) → AssetPatch
      → (timestamp : ℕ) → Result (AssetDetail × ℕ × Db)
  unfolding validate_uuid asset_detail patched_row normalize_patch bump_revision
  update_asset db library_id asset_id expected_revision patch timestamp = do
    validate_uuid uuid_parses asset_id asset_not_found
    normalized ← normalize_patch to_lowercase patch
    current ← ok_or (find_where (is_asset library_id asset_id) db.assets) asset_not_found
    reject_if (not (current.revision == expected_revision))
        (asset_revision_conflict expected_revision current.revision)
    let updated = record db {
      assets =
          update_where (λ a. is_asset library_id asset_id a && a.revision == expected_revision)
            (λ a. patched_row a normalized timestamp) db.assets;
    }
    let bumped = bump_revision timestamp updated
    detail ← asset_detail bumped library_id asset_id
    ok (detail, bumped.library_meta.library_revision, bumped)
