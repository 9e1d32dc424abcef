-- ===== src/Editorial/Membership/Rows.antt =====
-- On the membership rows under the loop of set_collection_membership,
-- crates/reference-core/src/editorial.rs.
use reference_library.Common.{
  ℕ, ◌+◌, ◌≡◌, refl, ◌∙◌, String, Bool, true, false, not, List, [], ◌∷◌, ◌++◌, ◌&&◌, ◌||◌, str_eq,
  eq_iff, eq_refl, contains, any, any-append, keep_if, length, length-append, arith, Bool-cases,
  inl, inr,
}
use reference_library.Database.{MembershipRow}
use reference_library.Editorial.Membership.{is_row, is_member, membership, apply_members}

any-keep_if {ℓ} :
    {A : Type ℓ} (p q : A → Bool) (xs : List A) → any q (keep_if p xs) ≡ any (λ x. p x && q x) xs
any-keep_if p q [] = refl
any-keep_if p q (x ∷ xs) = ground (arith, any-keep_if p q xs)

is_member_at :
    (rows : List MembershipRow) (c d a b : String)
    → str_eq c d ≡ true
    → str_eq a b ≡ true
    → is_member rows c a ≡ is_member rows d b
is_member_at rows c d a b h k = rw ((eq_iff c d).0 h, (eq_iff a b).0 k) refl

-- Adding: the members are those from before and the batch.
pub apply_members-added :
    (collection_id : String) (timestamp : ℕ) (ids : List String) (rows : List MembershipRow)
    (c a : String)
    → is_member (apply_members true collection_id timestamp ids rows).1 c a
      ≡ (is_member rows c a || (str_eq collection_id c && contains ids a))
unfolding apply_members
apply_members-added collection_id timestamp [] rows c a = ground arith
apply_members-added collection_id timestamp (id ∷ ids) rows c a =
    elim (Bool-cases (is_member rows collection_id id)) [
      | inl e ↦ rw e (
          apply_members-added collection_id timestamp ids rows c a
          ∙ ground (arith, is_member_at rows collection_id c id a))
      | inr e ↦ rw e (
          apply_members-added collection_id timestamp ids
            (rows ++ (membership collection_id id timestamp ∷ [])) c a
          ∙ ground
              (arith, any-append (is_row c a) rows (membership collection_id id timestamp ∷ [])))
    ]

any-removed :
    (collection_id id c a : String) (rows : List MembershipRow)
    → is_member (keep_if (λ m. not (is_row collection_id id m)) rows) c a
      ≡ (is_member rows c a && not (str_eq collection_id c && str_eq id a))
any-removed collection_id id c a [] = refl
any-removed collection_id id c a (m ∷ rows) = ground (
  arith,
  any-removed collection_id id c a rows,
  eq_iff m.collection_id c,
  eq_iff m.collection_id collection_id,
  eq_iff collection_id c,
  eq_iff m.asset_id a,
  eq_iff m.asset_id id,
  eq_iff id a,
)

-- Removing: the members are those from before without the batch.
pub apply_members-removed :
    (collection_id : String) (timestamp : ℕ) (ids : List String) (rows : List MembershipRow)
    (c a : String)
    → is_member (apply_members false collection_id timestamp ids rows).1 c a
      ≡ (is_member rows c a && not (str_eq collection_id c && contains ids a))
unfolding apply_members
apply_members-removed collection_id timestamp [] rows c a = ground arith
apply_members-removed collection_id timestamp (id ∷ ids) rows c a =
    apply_members-removed collection_id timestamp ids
      (keep_if (λ m. not (is_row collection_id id m)) rows) c a
    ∙ ground (arith, any-removed collection_id id c a rows)

-- Nothing to do where the rows are as they should be.
pub apply_members-settled-added :
    (collection_id : String) (timestamp : ℕ) (ids : List String) (rows : List MembershipRow)
    → ((a : String) → contains ids a ≡ true → is_member rows collection_id a ≡ true)
    → apply_members true collection_id timestamp ids rows ≡ (0, rows)
unfolding apply_members
apply_members-settled-added collection_id timestamp [] rows h = refl
apply_members-settled-added collection_id timestamp (id ∷ ids) rows h =
    rw
      (
        h id (ground (arith, eq_refl id)),
        apply_members-settled-added collection_id timestamp ids rows
            (λ a k. h a (ground (arith, k))),
      )
      refl

unmatched :
    (collection_id id : String) (rows : List MembershipRow)
    → is_member rows collection_id id ≡ false
    → (keep_if (λ m. not (is_row collection_id id m)) rows ≡ rows)
      × (length (keep_if (is_row collection_id id) rows) ≡ 0)
unmatched collection_id id [] h = (refl, refl)
unmatched collection_id id (m ∷ rows) h = ground (arith, unmatched collection_id id rows)

pub apply_members-settled-removed :
    (collection_id : String) (timestamp : ℕ) (ids : List String) (rows : List MembershipRow)
    → ((a : String) → contains ids a ≡ true → is_member rows collection_id a ≡ false)
    → apply_members false collection_id timestamp ids rows ≡ (0, rows)
unfolding apply_members
apply_members-settled-removed collection_id timestamp [] rows h = refl
apply_members-settled-removed collection_id timestamp (id ∷ ids) rows h =
    let none_here = unmatched collection_id id rows (h id (ground (arith, eq_refl id))) in
    rw
      (
        none_here.0,
        none_here.1,
        apply_members-settled-removed collection_id timestamp ids rows
            (λ a k. h a (ground (arith, k))),
      )
      refl

length-split :
    (p : MembershipRow → Bool) (rows : List MembershipRow)
    → length (keep_if (λ m. not (p m)) rows) + length (keep_if p rows) ≡ length rows
length-split p [] = refl
length-split p (m ∷ rows) = ground (arith, length-split p rows)

-- The count of changed rows is the change in the number of rows.
pub apply_members-count-added :
    (collection_id : String) (timestamp : ℕ) (ids : List String) (rows : List MembershipRow)
    → length (apply_members true collection_id timestamp ids rows).1
      ≡ length rows + (apply_members true collection_id timestamp ids rows).0
unfolding apply_members
apply_members-count-added collection_id timestamp [] rows = omega arith
apply_members-count-added collection_id timestamp (id ∷ ids) rows =
    elim (Bool-cases (is_member rows collection_id id)) [
      | inl e ↦ rw e (omega (arith, apply_members-count-added collection_id timestamp ids rows))
      | inr e ↦ rw e (
          omega (
            arith,
            apply_members-count-added collection_id timestamp ids
                (rows ++ (membership collection_id id timestamp ∷ [])),
            length-append rows (membership collection_id id timestamp ∷ []),
          ))
    ]

pub apply_members-count-removed :
    (collection_id : String) (timestamp : ℕ) (ids : List String) (rows : List MembershipRow)
    → length (apply_members false collection_id timestamp ids rows).1
        + (apply_members false collection_id timestamp ids rows).0
      ≡ length rows
unfolding apply_members
apply_members-count-removed collection_id timestamp [] rows = omega arith
apply_members-count-removed collection_id timestamp (id ∷ ids) rows = omega (
  arith,
  apply_members-count-removed collection_id timestamp ids
      (keep_if (λ m. not (is_row collection_id id m)) rows),
  length-split (is_row collection_id id) rows,
)
