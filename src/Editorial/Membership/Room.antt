-- ===== src/Editorial/Membership/Room.antt =====
-- On the limit on the collections of an asset in set_collection_membership,
-- crates/reference-core/src/editorial.rs.
use reference_library.Common.{
  ℕ, ◌+◌, ◌≤◌, ◌<◌, ◌≡◌, refl, String, Bool, true, false, not, List, [], ◌∷◌, ◌++◌, ◌&&◌, str_eq,
  eq_iff, contains, NoRepeats, any-append, if◌then◌else◌, keep_if, arith, Bool-cases, inl, inr,
}
use reference_library.Fallible.{ok}
use reference_library.Protocol.Limits.{max_asset_collections}
use reference_library.Database.{MembershipRow}
use reference_library.Editorial.Membership.{
  is_row, is_member, membership, memberships_of, apply_members, require_room,
}

memberships_of-snoc :
    (rows : List MembershipRow) (m : MembershipRow) (a : String)
    → memberships_of (rows ++ (m ∷ [])) a
      ≡ memberships_of rows a + (if str_eq m.asset_id a then 1 else 0)
memberships_of-snoc [] m a = ground arith
memberships_of-snoc (n ∷ rows) m a = ground (arith, memberships_of-snoc rows m a)

memberships_of-added :
    (collection_id : String) (timestamp : ℕ) (ids : List String) (rows : List MembershipRow)
    (a : String)
    → NoRepeats ids
    → memberships_of (apply_members true collection_id timestamp ids rows).1 a
      ≤ memberships_of rows a
        + (if contains ids a && not (is_member rows collection_id a) then 1 else 0)
unfolding apply_members
memberships_of-added collection_id timestamp [] rows a h = ground arith
memberships_of-added collection_id timestamp (id ∷ ids) rows a h =
    elim (Bool-cases (is_member rows collection_id id)) [
      | inl e ↦ rw e (
          let rest = memberships_of-added collection_id timestamp ids rows a h.1 in
          ground (arith, rest))
      | inr e ↦ rw e (
          let rest =
            memberships_of-added collection_id timestamp ids
              (rows ++ (membership collection_id id timestamp ∷ [])) a h.1 in
          ground (
            arith,
            e,
            rest,
            h.0,
            eq_iff id a,
            memberships_of-snoc rows (membership collection_id id timestamp) a,
            any-append (is_row collection_id a) rows (membership collection_id id timestamp ∷ []),
          ))
    ]

require_room-bound :
    (rows : List MembershipRow) (collection_id : String) (ids : List String) (a : String)
    → require_room rows collection_id ids ≡ ok tt
    → contains ids a ≡ true
    → is_member rows collection_id a ≡ false
    → memberships_of rows a < max_asset_collections
unfolding require_room
require_room-bound rows collection_id [] a h k m = cc
require_room-bound rows collection_id (id ∷ ids) a h k m = elim (Bool-cases (str_eq id a)) [
  | inl e ↦
      let same = (eq_iff id a).0 e in
      let absent : is_member rows collection_id id ≡ false = rw same m in
      let count : memberships_of rows id ≡ memberships_of rows a = rw same refl in
      ground (arith, k, absent, count)
  | inr e ↦ require_room-bound rows collection_id ids a (ground arith) (ground arith) m
]

pub apply_members-room :
    (collection_id : String) (timestamp : ℕ) (ids : List String) (rows : List MembershipRow)
    (a : String)
    → NoRepeats ids
    → require_room rows collection_id ids ≡ ok tt
    → memberships_of rows a ≤ max_asset_collections
    → memberships_of (apply_members true collection_id timestamp ids rows).1 a
      ≤ max_asset_collections
apply_members-room collection_id timestamp ids rows a h k bound =
    let added = memberships_of-added collection_id timestamp ids rows a h in
    ground (arith, added, bound, require_room-bound rows collection_id ids a k)

memberships_of-keep_if-le :
    (p : MembershipRow → Bool) (rows : List MembershipRow) (a : String)
    → memberships_of (keep_if p rows) a ≤ memberships_of rows a
memberships_of-keep_if-le p [] a = omega arith
memberships_of-keep_if-le p (m ∷ rows) a = ground (arith, memberships_of-keep_if-le p rows a)

pub memberships_of-removed :
    (collection_id : String) (timestamp : ℕ) (ids : List String) (rows : List MembershipRow)
    (a : String)
    → memberships_of (apply_members false collection_id timestamp ids rows).1 a
      ≤ memberships_of rows a
unfolding apply_members
memberships_of-removed collection_id timestamp [] rows a = omega arith
memberships_of-removed collection_id timestamp (id ∷ ids) rows a = omega (
  arith,
  memberships_of-removed collection_id timestamp ids
      (keep_if (λ m. not (is_row collection_id id m)) rows) a,
  memberships_of-keep_if-le (λ m. not (is_row collection_id id m)) rows a,
)
