-- ===== src/Editorial/Membership/Batch.antt =====
-- On a whole call of set_collection_membership, crates/reference-core/src/editorial.rs.
use reference_library.Common.{
  ℕ, ◌≤◌, ◌≡◌, ◌∙◌, ap, String, Bool, true, false, not, List, ◌&&◌, ◌||◌, str_eq, ltb, ◌==◌,
  contains, NoRepeats, if◌then◌else◌, length, arith,
}
use reference_library.Errors.{collection_not_found}
use reference_library.Fallible.{ok}
use reference_library.Protocol.Limits.{max_asset_collections, max_collection_membership_batch}
use reference_library.Database.{Db, bump_revision, MembershipRow}
use reference_library.Editorial.Collections.{validate_uuid}
use reference_library.Editorial.Membership.{
  is_member, memberships_of, apply_members, require_room, require_assets, settle_revision,
  unique_ids, validate_ids, set_collection_membership,
}
use reference_library.Editorial.Membership.Unique.{unique_ids-NoRepeats, contains-unique_ids}
use reference_library.Editorial.Membership.Rows.{
  apply_members-added, apply_members-removed, apply_members-settled-added,
  apply_members-settled-removed,
}
use reference_library.Editorial.Membership.Room.{apply_members-room, memberships_of-removed}

-- The membership that a batch asks for.
abbrev pub requested : Bool → Bool → Bool → Bool
requested true before named = before || named
requested false before named = before && not named

apply_members-requested :
    (member : Bool) (collection_id : String) (timestamp : ℕ) (ids : List String)
    (rows : List MembershipRow) (c a : String)
    → is_member (apply_members member collection_id timestamp ids rows).1 c a
      ≡ requested member (is_member rows c a) (str_eq collection_id c && contains ids a)
apply_members-requested true = apply_members-added
apply_members-requested false = apply_members-removed

apply_members-bound :
    (member : Bool) (collection_id : String) (timestamp : ℕ) (ids : List String)
    (rows : List MembershipRow) (a : String)
    → NoRepeats ids
    → (if member then require_room rows collection_id ids else ok tt) ≡ ok tt
    → memberships_of rows a ≤ max_asset_collections
    → memberships_of (apply_members member collection_id timestamp ids rows).1 a
      ≤ max_asset_collections
apply_members-bound true collection_id timestamp ids rows a h k bound =
    apply_members-room collection_id timestamp ids rows a h k bound
apply_members-bound false collection_id timestamp ids rows a h k bound =
    omega (arith, bound, memberships_of-removed collection_id timestamp ids rows a)

pub apply_members-repeated :
    (member : Bool) (collection_id : String) (timestamp : ℕ) (ids : List String)
    (rows : List MembershipRow)
    → ((a : String) → contains ids a ≡ true → is_member rows collection_id a ≡ member)
    → apply_members member collection_id timestamp ids rows ≡ (0, rows)
apply_members-repeated true = apply_members-settled-added
apply_members-repeated false = apply_members-settled-removed

module _ (uuid_parses : String → Bool) (db : Db) (library_id collection_id : String)
    (asset_ids : List String) (member : Bool) (timestamp : ℕ) {made : ℕ × ℕ × Db}
    (h : set_collection_membership uuid_parses db library_id collection_id asset_ids member
        timestamp
      ≡ ok made) where
  pub batch_settled :
      settle_revision
        (record db {
          collection_assets =
              (apply_members member collection_id timestamp
                (unique_ids asset_ids)
                db.collection_assets).1;
        })
        library_id
        collection_id
        timestamp
        (apply_members member collection_id timestamp (unique_ids asset_ids) db.collection_assets).0
      ≡ ok made
  unfolding set_collection_membership
  batch_settled = ground (arith, h)

  pub batch_rows :
      made.2.collection_assets
      ≡ (apply_members member collection_id timestamp (unique_ids asset_ids) db.collection_assets).1
  unfolding settle_revision bump_revision
  batch_rows = ground (arith, batch_settled)

  pub batch_count :
      made.0
      ≡ (apply_members member collection_id timestamp (unique_ids asset_ids) db.collection_assets).0
  unfolding settle_revision bump_revision
  batch_count = ground (arith, batch_settled)

  pub batch_length : length (unique_ids asset_ids) ≡ length asset_ids
  unfolding set_collection_membership
  batch_length = ground (arith, h)

  pub batch_room :
      (if member
        then require_room db.collection_assets collection_id (unique_ids asset_ids)
        else ok tt)
      ≡ ok tt
  unfolding set_collection_membership
  batch_room = ground (arith, h)

  -- After a successful batch, an asset is a member of a collection as it was before, but for the
  -- assets of the batch in the collection of the batch, which are members after adding and are
  -- not after removing.
  pub set_collection_membership-members :
      (c a : String)
      → is_member made.2.collection_assets c a
        ≡ requested member
            (is_member db.collection_assets c a)
            (str_eq collection_id c && contains asset_ids a)
  set_collection_membership-members c a =
      ap (λ rows. is_member rows c a) batch_rows
      ∙ apply_members-requested member collection_id timestamp (unique_ids asset_ids)
          db.collection_assets c a
      ∙ ap
          (λ named.
            requested member (is_member db.collection_assets c a) (str_eq collection_id c && named))
          (contains-unique_ids asset_ids a)

  -- A successful batch keeps every asset that is in at most 512 collections in at most 512.
  pub set_collection_membership-bound :
      (a : String)
      → memberships_of db.collection_assets a ≤ max_asset_collections
      → memberships_of made.2.collection_assets a ≤ max_asset_collections
  set_collection_membership-bound a bound = rw batch_rows (
      apply_members-bound member collection_id timestamp (unique_ids asset_ids) db.collection_assets
        a (unique_ids-NoRepeats asset_ids) batch_room bound)

  pub batch_known : validate_uuid uuid_parses collection_id collection_not_found ≡ ok tt
  unfolding set_collection_membership
  batch_known = ground (arith, h)

  pub batch_assets : made.2.assets ≡ db.assets
  unfolding settle_revision bump_revision
  batch_assets = ground (arith, batch_settled)

  pub batch_library : made.2.library_meta.id ≡ db.library_meta.id
  unfolding settle_revision bump_revision
  batch_library = ground (arith, batch_settled)

  pub batch_revision : made.1 ≡ made.2.library_meta.library_revision
  unfolding settle_revision bump_revision
  batch_revision = ground (arith, batch_settled)

  pub batch_ids : validate_ids uuid_parses (unique_ids asset_ids) ≡ ok tt
  unfolding set_collection_membership
  batch_ids = ground (arith, h)

  pub batch_exists : require_assets db library_id (unique_ids asset_ids) ≡ ok tt
  unfolding set_collection_membership
  batch_exists = ground (arith, h)

  pub batch_size :
      (length asset_ids == 0 || ltb max_collection_membership_batch (length asset_ids)) ≡ false
  unfolding set_collection_membership
  batch_size = ground (arith, h)
