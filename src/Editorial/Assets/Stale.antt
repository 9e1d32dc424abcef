-- ===== src/Editorial/Assets/Stale.antt =====
-- On update_asset of crates/reference-core/src/editorial.rs with an expected revision.
use reference_library.Common.{
  ℕ, ◌+◌, ◌≡◌, refl, String, Bool, true, false, Option, some, ◌&&◌, ◌==◌, ==_iff, ap, arith,
  Option-cases, inl, inr,
}
use reference_library.Errors.{asset_not_found, asset_revision_conflict}
use reference_library.Fallible.{ok, err, Result-cases}
use reference_library.Protocol.Patch.{AssetPatch}
use reference_library.Protocol.Results.{AssetDetail}
use reference_library.Database.{Db, AssetRow, update_where, find_where, bump_revision}
use reference_library.Editorial.Collections.{validate_uuid}
use reference_library.Editorial.Collections.Stale.{find_where-update_where, find_where-holds}
use reference_library.Editorial.Assets.{patched_row, is_asset, normalize_patch, update_asset}

next_differs : {a b : ℕ} → a ≡ b → ((a + 1) == b) ≡ false
next_differs h = ground (arith, h)

module _ (uuid_parses : String → Bool) (to_lowercase : String → String)
    (file_name : String → Option String) (db : Db) (library_id asset_id : String) (expected : ℕ)
    (patch : AssetPatch) (timestamp : ℕ) {made : AssetDetail × ℕ × Db}
    (h : update_asset uuid_parses to_lowercase file_name db library_id asset_id expected patch
        timestamp
      ≡ ok made) where
  update_asset-known : validate_uuid uuid_parses asset_id asset_not_found ≡ ok tt
  unfolding update_asset
  update_asset-known = ground (arith, h)

  pub update_asset-patch :
      (normalized : AssetPatch) × (normalize_patch to_lowercase patch ≡ ok normalized)
  unfolding update_asset
  update_asset-patch = elim (Result-cases (normalize_patch to_lowercase patch)) [
    | inl found ↦ found
    | inr (e, refused) ↦ ground (arith, refused, update_asset-known, h)
  ]

  update_asset-row :
      (row : AssetRow) × (find_where (is_asset library_id asset_id) db.assets ≡ some row)
      × ((row.revision == expected) ≡ true)
  unfolding update_asset
  update_asset-row = elim (Option-cases (find_where (is_asset library_id asset_id) db.assets)) [
    | inl e ↦ ground (arith, e, update_asset-known, update_asset-patch.1, h)
    | inr (row, e) ↦ (row, e, ground (arith, e, update_asset-known, update_asset-patch.1, h))
  ]

  pub update_asset-tables :
      made.2
      ≡ bump_revision timestamp (record db {
        assets =
            update_where
              (λ a. is_asset library_id asset_id a && a.revision == expected)
              (λ a. patched_row a update_asset-patch.0 timestamp)
              db.assets;
      })
  unfolding update_asset
  update_asset-tables =
      ground
        (arith, update_asset-known, update_asset-patch.1, update_asset-row.1, update_asset-row.2, h)

  -- The row after the update, one revision later.
  update_asset-after :
      find_where (is_asset library_id asset_id) made.2.assets
      ≡ some (patched_row update_asset-row.0 update_asset-patch.0 timestamp)
  unfolding bump_revision patched_row
  update_asset-after = rw update_asset-tables (
      find_where-update_where (λ a. is_asset library_id asset_id a && a.revision == expected)
        (is_asset library_id asset_id) (λ a. patched_row a update_asset-patch.0 timestamp) db.assets
        update_asset-row.0 (λ a. refl) update_asset-row.1
        (ground (
          arith,
          update_asset-row.2,
          find_where-holds (is_asset library_id asset_id) db.assets update_asset-row.0
              update_asset-row.1,
        )))

  -- After a successful update of an asset, another update whose patch is valid and that expects
  -- the same revision is refused with a revision conflict.
  pub update_asset-stale :
      (other normalized : AssetPatch) (later : ℕ)
      → normalize_patch to_lowercase other ≡ ok normalized
      → update_asset uuid_parses to_lowercase file_name made.2 library_id asset_id expected other
          later
        ≡ err (asset_revision_conflict expected (expected + 1))
  unfolding update_asset patched_row
  update_asset-stale other normalized later k =
      let same : update_asset-row.0.revision ≡ expected =
        (==_iff update_asset-row.0.revision expected).0 update_asset-row.2 in
      let differs : ((update_asset-row.0.revision + 1) == expected) ≡ false = next_differs same in
      rw (update_asset-known, k, update_asset-after)
        (rw differs (ap (λ revision. err (asset_revision_conflict expected (revision + 1))) same))
