-- ===== src/Examples/Collections.antt =====
-- Collections created, renamed and deleted.
use reference_library.Common.{ℕ, ◌≡◌, ◌≤◌, refl, true, [], ◌∷◌, arith}
use reference_library.Errors.{collection_revision_conflict}
use reference_library.Fallible.{err}
use reference_library.Editorial.Collections.{
  create_collection, rename_collection, normalize_collection_name,
}
use reference_library.Editorial.Collections.Names.{IsValid, create_collection-IsValid}
use reference_library.Editorial.Collections.Stale.{rename_collection-stale}
use reference_library.Examples.Data.{all_parse, asset, collection, member, library, start}

start-IsValid : IsValid "l" start
start-IsValid = record { ids = (refl, tt); names = (refl, tt); bounded = omega arith }

create_collection-IsValid_example : IsValid "l" (
    library 8 9
      (asset "a1" 0 ∷ asset "a2" 0 ∷ [])
      (collection "c1" "Trees" 0 1
        ∷ record (collection "c2" "Rocks" 0 9) { created_at_ms = 9 }
        ∷ [])
      (member "c1" "a1" 1 ∷ []))
unfolding create_collection reference_library.Common.Text.trim
    reference_library.Common.Text.eq_ignore_ascii_case reference_library.Database.bump_revision
create_collection-IsValid_example =
    create_collection-IsValid start "l" "  Rocks " "c2" 9
      {made = (
        record { collection_id = "c2"; name = "Rocks"; asset_count = 0; revision = 0 },
        8,
        library 8 9 (asset "a1" 0 ∷ asset "a2" 0 ∷ [])
            (collection "c1" "Trees" 0 1
              ∷ record (collection "c2" "Rocks" 0 9) { created_at_ms = 9 }
              ∷ [])
            (member "c1" "a1" 1 ∷ []),
      )}
      refl start-IsValid

rename_collection-stale_example :
    rename_collection all_parse
      (library 8 9
        (asset "a1" 0 ∷ asset "a2" 0 ∷ [])
        (collection "c1" "Woods" 1 9 ∷ [])
        (member "c1" "a1" 1 ∷ []))
      "l"
      "c1"
      0
      "Shrubs"
      10
    ≡ err (collection_revision_conflict 0 1)
unfolding rename_collection normalize_collection_name reference_library.Common.Text.trim
    reference_library.Common.Text.eq_ignore_ascii_case
rename_collection-stale_example =
    rename_collection-stale all_parse start "l" "c1" 0 "Woods" 9
      {made = (
        record { collection_id = "c1"; name = "Woods"; asset_count = 1; revision = 1 },
        8,
        library 8 9 (asset "a1" 0 ∷ asset "a2" 0 ∷ []) (collection "c1" "Woods" 1 9 ∷ [])
            (member "c1" "a1" 1 ∷ []),
      )}
      refl "Shrubs" 10 {name = "Shrubs"} refl
