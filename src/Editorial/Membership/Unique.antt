-- ===== src/Editorial/Membership/Unique.antt =====
-- On sort and dedup in set_collection_membership of crates/reference-core/src/editorial.rs.
use reference_library.Common.{
  ◌≡◌, refl, sym, ◌∙◌, String, true, false, List, [], ◌∷◌, ◌||◌, str_eq, eq_iff, contains,
  NoRepeats, any, arith, All, Bool-cases, inl, inr,
}
use reference_library.Common.Order.{text_leb, text_leb_antisym}
use reference_library.Common.Sort.{sort_by, IsSortedBy, sort_by-IsSortedBy, any-sort_by}
use reference_library.Editorial.Membership.{dedup, dedup_behind, unique_ids}

-- In a sorted list an item equal to an earlier one would be its neighbour.
contains-above :
    (x y : String) (xs : List String)
    → str_eq x y ≡ false
    → text_leb x y ≡ true
    → All (λ z. text_leb y z ≡ true) xs
    → contains xs x ≡ false
contains-above x y [] h k a = refl
contains-above x y (z ∷ xs) h k a = elim (Bool-cases (str_eq z x)) [
  | inl e ↦ ground (arith, a.0, eq_iff z x, eq_iff x y, text_leb_antisym x y k)
  | inr e ↦ rw e (contains-above x y xs h k a.1)
]

contains-dedup_behind :
    (last : String) (xs : List String) (k : String)
    → (str_eq last k || contains (dedup_behind last xs) k) ≡ (str_eq last k || contains xs k)
unfolding dedup_behind
contains-dedup_behind last [] k = refl
contains-dedup_behind last (x ∷ xs) k = ground (arith, contains-dedup_behind x xs k, eq_iff last x)

dedup_behind-NoRepeats :
    (x : String) (xs : List String)
    → IsSortedBy (λ id. id) (x ∷ xs)
    → NoRepeats (x ∷ dedup_behind x xs)
unfolding dedup_behind
dedup_behind-NoRepeats x [] s = (refl, tt)
dedup_behind-NoRepeats x (y ∷ xs) s = elim (Bool-cases (str_eq x y)) [
  | inl e ↦
      rw e
        (let rest = dedup_behind-NoRepeats y xs s.1 in (ground (arith, eq_iff x y, rest.0), rest.1))
  | inr e ↦ rw e (
    let above = contains-above x y xs e s.0.0 s.1.0 in
        ground (arith, above, contains-dedup_behind y xs x, eq_iff y x, eq_iff x y),
    dedup_behind-NoRepeats y xs s.1,
  )
]

contains-any : (xs : List String) (k : String) → contains xs k ≡ any (λ x. str_eq x k) xs
contains-any [] k = refl
contains-any (x ∷ xs) k = ground (arith, contains-any xs k)

dedup-NoRepeats : (xs : List String) → IsSortedBy (λ id. id) xs → NoRepeats (dedup xs)
unfolding dedup
dedup-NoRepeats [] s = tt
dedup-NoRepeats (x ∷ xs) s = dedup_behind-NoRepeats x xs s

contains-dedup : (xs : List String) (k : String) → contains (dedup xs) k ≡ contains xs k
unfolding dedup
contains-dedup [] k = refl
contains-dedup (x ∷ xs) k = contains-dedup_behind x xs k

pub unique_ids-NoRepeats : (ids : List String) → NoRepeats (unique_ids ids)
unique_ids-NoRepeats ids =
    dedup-NoRepeats (sort_by (λ id. id) ids) (sort_by-IsSortedBy (λ id. id) ids)

pub contains-unique_ids :
    (ids : List String) (k : String) → contains (unique_ids ids) k ≡ contains ids k
contains-unique_ids ids k =
    contains-dedup (sort_by (λ id. id) ids) k
    ∙ contains-any (sort_by (λ id. id) ids) k
    ∙ any-sort_by (λ id. id) (λ x. str_eq x k) ids
    ∙ sym (contains-any ids k)
