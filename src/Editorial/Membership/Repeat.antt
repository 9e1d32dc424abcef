-- ===== src/Editorial/Membership/Repeat.antt =====
-- On a second call of set_collection_membership, crates/reference-core/src/editorial.rs.
use reference_library.Common.{
  ℕ, ◌+◌, ◌≡◌, refl, ◌∙◌, ap, String, Bool, true, false, none, some, List, [], ◌∷◌, str_eq, eq_refl,
  contains, any, if◌then◌else◌, arith, Bool-cases, inl, inr,
}
use reference_library.Fallible.{ok}
use reference_library.Database.{Db, MembershipRow, bump_revision, update_where, find_where}
use reference_library.Editorial.Collections.{collection_by_id, is_collection}
use reference_library.Editorial.Membership.{
  is_member, require_room, require_assets, settle_revision, unique_ids, set_collection_membership,
}
use reference_library.Editorial.Membership.Unique.{contains-unique_ids}
use reference_library.Editorial.Membership.Batch.{
  requested, apply_members-repeated, set_collection_membership-members, batch_settled, batch_known,
  batch_size, batch_length, batch_ids, batch_exists, batch_assets, batch_library, batch_revision,
}

require_assets-same :
    (db later : Db) (library_id : String) (ids : List String)
    → later.assets ≡ db.assets
    → require_assets later library_id ids ≡ require_assets db library_id ids
unfolding require_assets
require_assets-same db later library_id [] h = refl
require_assets-same db later library_id (id ∷ ids) h =
    rw (h, require_assets-same db later library_id ids h) refl

require_room-members :
    (rows : List MembershipRow) (collection_id : String) (ids : List String)
    → ((a : String) → contains ids a ≡ true → is_member rows collection_id a ≡ true)
    → require_room rows collection_id ids ≡ ok tt
unfolding require_room
require_room-members rows collection_id [] h = refl
require_room-members rows collection_id (id ∷ ids) h =
    rw (h id (ground (arith, eq_refl id)))
      (require_room-members rows collection_id ids (λ a k. h a (ground (arith, k))))

any-update_where {ℓ} :
    {A : Type ℓ} (p q : A → Bool) (f : A → A) (xs : List A)
    → ((x : A) → q (f x) ≡ q x)
    → any q (update_where p f xs) ≡ any q xs
any-update_where p q f [] keeps = refl
any-update_where p q f (x ∷ xs) keeps = ground (arith, keeps x, any-update_where p q f xs keeps)

find_where-any {ℓ} :
    {A : Type ℓ} (q : A → Bool) (xs : List A)
    → any q xs ≡ true
    → (a : A) × (find_where q xs ≡ some a)
find_where-any q [] h = cc
find_where-any q (x ∷ xs) h = elim (Bool-cases (q x)) [
  | inl e ↦ (x, rw e refl)
  | inr e ↦ let rest = find_where-any q xs (ground arith) in (rest.0, rw e rest.1)
]

any-find_where {ℓ} :
    {A : Type ℓ} (q : A → Bool) (xs : List A) → any q xs ≡ false → find_where q xs ≡ none
any-find_where q [] h = refl
any-find_where q (x ∷ xs) h = ground (arith, any-find_where q xs)

requested_named : (member before : Bool) → requested member before true ≡ member
requested_named true before = ground arith
requested_named false before = ground arith

room_again :
    (member : Bool) (rows : List MembershipRow) (collection_id : String) (ids : List String)
    → ((a : String) → contains ids a ≡ true → is_member rows collection_id a ≡ member)
    → (if member then require_room rows collection_id ids else ok tt) ≡ ok tt
room_again true rows collection_id ids h = require_room-members rows collection_id ids h
room_again false rows collection_id ids h = refl

module _ (uuid_parses : String → Bool) (db : Db) (library_id collection_id : String)
    (asset_ids : List String) (member : Bool) (timestamp : ℕ) {made : ℕ × ℕ × Db}
    (h : set_collection_membership uuid_parses db library_id collection_id asset_ids member
        timestamp
      ≡ ok made) where
  found_before : any (is_collection library_id collection_id) db.collections ≡ true
  unfolding set_collection_membership collection_by_id
  found_before = elim (Bool-cases (any (is_collection library_id collection_id) db.collections)) [
    | inl e ↦ e
    | inr e ↦
        ground (arith, h, any-find_where (is_collection library_id collection_id) db.collections e)
  ]

  found_after : any (is_collection library_id collection_id) made.2.collections ≡ true
  unfolding settle_revision bump_revision
  found_after = ground (
    arith,
    batch_settled uuid_parses db library_id collection_id asset_ids member timestamp h,
    found_before,
    any-update_where (λ c. str_eq c.id collection_id) (is_collection library_id collection_id)
        (λ c. record c { revision = c.revision + 1; updated_at_ms = timestamp }) db.collections
        (λ c. refl),
  )

  members_after :
      (a : String)
      → contains (unique_ids asset_ids) a ≡ true
      → is_member made.2.collection_assets collection_id a ≡ member
  members_after a k =
      set_collection_membership-members uuid_parses db library_id collection_id asset_ids member
        timestamp h collection_id a
      ∙ ap (requested member (is_member db.collection_assets collection_id a))
          (ground (arith, eq_refl collection_id, contains-unique_ids asset_ids a, k))
      ∙ requested_named member (is_member db.collection_assets collection_id a)

  room_after :
      (if member
        then require_room made.2.collection_assets collection_id (unique_ids asset_ids)
        else ok tt)
      ≡ ok tt
  room_after =
      room_again member made.2.collection_assets collection_id (unique_ids asset_ids) members_after

  -- Where the Library is the one of the tables, running a successful batch again succeeds,
  -- changes no row, counts nothing as affected, and reports the same Library revision.
  pub set_collection_membership-repeated :
      (later : ℕ)
      → str_eq db.library_meta.id library_id ≡ true
      → set_collection_membership uuid_parses made.2 library_id collection_id asset_ids member later
        ≡ ok (0, made.1, made.2)
  unfolding set_collection_membership collection_by_id settle_revision
  set_collection_membership-repeated later k =
      let row =
        find_where-any (is_collection library_id collection_id) made.2.collections found_after in
      let exists =
        require_assets-same db made.2 library_id (unique_ids asset_ids)
          (batch_assets uuid_parses db library_id collection_id asset_ids member timestamp h) in
      let settled =
        apply_members-repeated member collection_id later (unique_ids asset_ids)
          made.2.collection_assets members_after in
      ground (
        arith,
        k,
        row.1,
        exists,
        settled,
        room_after,
        batch_known uuid_parses db library_id collection_id asset_ids member timestamp h,
        batch_size uuid_parses db library_id collection_id asset_ids member timestamp h,
        batch_length uuid_parses db library_id collection_id asset_ids member timestamp h,
        batch_ids uuid_parses db library_id collection_id asset_ids member timestamp h,
        batch_exists uuid_parses db library_id collection_id asset_ids member timestamp h,
        batch_library uuid_parses db library_id collection_id asset_ids member timestamp h,
        batch_revision uuid_parses db library_id collection_id asset_ids member timestamp h,
      )
