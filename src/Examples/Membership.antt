-- ===== src/Examples/Membership.antt =====
-- A batch of two assets put into a collection that has one of them.
use reference_library.Common.{ℕ, ◌≡◌, ◌≤◌, refl, true, Bool, [], ◌∷◌, arith}
use reference_library.Fallible.{ok}
use reference_library.Database.{Db}
use reference_library.Editorial.Membership.{set_collection_membership, is_member, memberships_of}
use reference_library.Editorial.Membership.Batch.{
  set_collection_membership-members, set_collection_membership-bound,
}
use reference_library.Editorial.Membership.Repeat.{set_collection_membership-repeated}
use reference_library.Examples.Data.{all_parse, asset, collection, member, library, start}

abbrev filled : Db
filled =
    library 8 9 (asset "a1" 0 ∷ asset "a2" 0 ∷ []) (collection "c1" "Trees" 1 9 ∷ [])
      (member "c1" "a1" 1 ∷ member "c1" "a2" 9 ∷ [])

set_collection_membership-members_example : is_member filled.collection_assets "c1" "a2" ≡ true
unfolding set_collection_membership reference_library.Editorial.Membership.dedup
    reference_library.Common.Sort.sort_by reference_library.Editorial.Membership.validate_ids
    reference_library.Editorial.Membership.require_assets
    reference_library.Editorial.Membership.require_room
    reference_library.Editorial.Membership.settle_revision
    reference_library.Editorial.Membership.apply_members
set_collection_membership-members_example =
    set_collection_membership-members all_parse start "l" "c1" ("a2" ∷ "a1" ∷ []) true 9
      {made = (1, 8, filled)} refl "c1" "a2"

set_collection_membership-bound_example : memberships_of filled.collection_assets "a2" ≤ 512
unfolding set_collection_membership reference_library.Editorial.Membership.dedup
    reference_library.Common.Sort.sort_by reference_library.Editorial.Membership.validate_ids
    reference_library.Editorial.Membership.require_assets
    reference_library.Editorial.Membership.require_room
    reference_library.Editorial.Membership.settle_revision
    reference_library.Editorial.Membership.apply_members
set_collection_membership-bound_example =
    set_collection_membership-bound all_parse start "l" "c1" ("a2" ∷ "a1" ∷ []) true 9
      {made = (1, 8, filled)} refl "a2" (omega arith)

set_collection_membership-repeated_example :
    set_collection_membership all_parse filled "l" "c1" ("a2" ∷ "a1" ∷ []) true 11
    ≡ ok (0, 8, filled)
unfolding set_collection_membership reference_library.Editorial.Membership.dedup
    reference_library.Common.Sort.sort_by reference_library.Editorial.Membership.validate_ids
    reference_library.Editorial.Membership.require_assets
    reference_library.Editorial.Membership.require_room
    reference_library.Editorial.Membership.settle_revision
    reference_library.Editorial.Membership.apply_members
set_collection_membership-repeated_example =
    set_collection_membership-repeated all_parse start "l" "c1" ("a2" ∷ "a1" ∷ []) true 9
      {made = (1, 8, filled)} refl 11 refl
