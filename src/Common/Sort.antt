-- ===== src/Common/Sort.antt =====
-- The stable `sort_by_key`, for keys that are texts.
use Prim.Native.Nat.{suc}
use Prim.Native.String.{String}
use mathlib.Core.Path.{◌≡◌, refl, ◌∙◌, ap}
use mathlib.Core.Bool.{Bool, true, false, ◌||◌}
use mathlib.Core.Logic.{inl, inr}
use mathlib.Core.List.{List, [], ◌∷◌, map}
use native.Mathlib.Omega.{arith}
use reference_library.Common.Tests.{if◌then◌else◌, Bool-cases}
use reference_library.Common.Lists.{length, any, All, Apart}
use reference_library.Common.Order.{text_leb, text_leb_total, text_leb_trans}

module _ {ℓ} {A : Type ℓ} (key : A → String) where
  -- Before the first item whose key is not smaller: an item stays ahead of later equals.
  insert_by : A → List A → List A
  insert_by x [] = x ∷ []
  insert_by x (y ∷ ys) =
      let rest = insert_by x ys in if text_leb (key x) (key y) then x ∷ y ∷ ys else y ∷ rest

  -- `sort_by_key(key)`; `sort` is the case of the identity.
  unfoldable pub sort_by : List A → List A
  unfolding insert_by text_leb
  sort_by [] = []
  sort_by (x ∷ xs) = insert_by x (sort_by xs)

  -- Each item's key is at most those of all later items.
  abbrev pub IsSortedBy : List A → Type ℓ
  IsSortedBy [] = Unit
  IsSortedBy (x ∷ xs) = All (λ y. text_leb (key x) (key y) ≡ true) xs × IsSortedBy xs

  any-insert_by : (p : A → Bool) (x : A) (xs : List A) → any p (insert_by x xs) ≡ (p x || any p xs)
  unfolding insert_by
  any-insert_by p x [] = refl
  any-insert_by p x (y ∷ ys) = ground (arith, any-insert_by p x ys)

  pub any-sort_by : (p : A → Bool) (xs : List A) → any p (sort_by xs) ≡ any p xs
  unfolding sort_by
  any-sort_by p [] = refl
  any-sort_by p (x ∷ xs) = any-insert_by p x (sort_by xs) ∙ ap (λ b. p x || b) (any-sort_by p xs)

  length-insert_by : (x : A) (xs : List A) → length (insert_by x xs) ≡ suc (length xs)
  unfolding insert_by
  length-insert_by x [] = refl
  length-insert_by x (y ∷ ys) = ground (arith, length-insert_by x ys)

  pub length-sort_by : (xs : List A) → length (sort_by xs) ≡ length xs
  unfolding sort_by
  length-sort_by [] = refl
  length-sort_by (x ∷ xs) = length-insert_by x (sort_by xs) ∙ ap suc (length-sort_by xs)

  module _ {κ} (P : A → Type κ) where
    All-insert_by : (x : A) (xs : List A) → P x → All P xs → All P (insert_by x xs)
    unfolding insert_by
    All-insert_by x [] h hs = (h, hs)
    All-insert_by x (y ∷ ys) h hs = elim (Bool-cases (text_leb (key x) (key y))) [
      | inl e ↦ rw e (h, hs)
      | inr e ↦ rw e (hs.0, All-insert_by x ys h hs.1)
    ]

    pub All-sort_by : (xs : List A) → All P xs → All P (sort_by xs)
    unfolding sort_by
    All-sort_by [] hs = hs
    All-sort_by (x ∷ xs) hs = All-insert_by x (sort_by xs) hs.0 (All-sort_by xs hs.1)

  -- What lies above `y` lies above everything below `y`.
  All-below :
      (x y : A) (xs : List A)
      → text_leb (key x) (key y) ≡ true
      → All (λ z. text_leb (key y) (key z) ≡ true) xs
      → All (λ z. text_leb (key x) (key z) ≡ true) xs
  All-below x y [] h hs = tt
  All-below x y (z ∷ xs) h hs =
      (text_leb_trans (key x) (key y) (key z) h hs.0, All-below x y xs h hs.1)

  insert_by-IsSortedBy : (x : A) (xs : List A) → IsSortedBy xs → IsSortedBy (insert_by x xs)
  unfolding insert_by
  insert_by-IsSortedBy x [] s = (tt, tt)
  insert_by-IsSortedBy x (y ∷ ys) s = elim (Bool-cases (text_leb (key x) (key y))) [
    | inl e ↦ rw e ((e, All-below x y ys e s.0), s)
    | inr e ↦
        rw e (
          All-insert_by _ x ys (text_leb_total (key x) (key y) e) s.0,
          insert_by-IsSortedBy x ys s.1,
        )
  ]

  pub sort_by-IsSortedBy : (xs : List A) → IsSortedBy (sort_by xs)
  unfolding sort_by
  sort_by-IsSortedBy [] = tt
  sort_by-IsSortedBy (x ∷ xs) = insert_by-IsSortedBy x (sort_by xs) (sort_by-IsSortedBy xs)

  insert_by_first :
      (x : A) (xs : List A)
      → All (λ y. text_leb (key x) (key y) ≡ true) xs
      → insert_by x xs ≡ x ∷ xs
  unfolding insert_by
  insert_by_first x [] h = refl
  insert_by_first x (y ∷ ys) h = rw h.0 refl

  -- A sorted list is left as it is.
  pub sort_by_sorted : (xs : List A) → IsSortedBy xs → sort_by xs ≡ xs
  unfolding sort_by
  sort_by_sorted [] s = refl
  sort_by_sorted (x ∷ xs) s = rw (sort_by_sorted xs s.1) (insert_by_first x xs s.0)

  module _ (r : A → A → Bool) (r_sym : (a b : A) → r a b ≡ r b a) where
    insert_by-Apart :
        (x : A) (xs : List A) → any (r x) xs ≡ false → Apart r xs → Apart r (insert_by x xs)
    unfolding insert_by
    insert_by-Apart x [] h a = (refl, tt)
    insert_by-Apart x (y ∷ ys) h a = elim (Bool-cases (text_leb (key x) (key y))) [
      | inl e ↦ rw e (h, a)
      | inr e ↦ rw e (
        any-insert_by (r y) x ys ∙ ground (arith, r_sym y x, a.0),
        insert_by-Apart x ys (ground arith) a.1,
      )
    ]

    -- Items that are pairwise unrelated stay so.
    pub sort_by-Apart : (xs : List A) → Apart r xs → Apart r (sort_by xs)
    unfolding sort_by
    sort_by-Apart [] a = tt
    sort_by-Apart (x ∷ xs) a =
        insert_by-Apart x (sort_by xs) (any-sort_by (r x) xs ∙ a.0) (sort_by-Apart xs a.1)

-- A map that keeps the keys commutes with the sort.
module _ {ℓ κ} {A : Type ℓ} {B : Type κ} (k : A → String) (l : B → String) (f : A → B)
    (same : (x : A) → l (f x) ≡ k x) where
  insert_by-map : (x : A) (xs : List A) → insert_by l (f x) (map f xs) ≡ map f (insert_by k x xs)
  unfolding insert_by
  insert_by-map x [] = refl
  insert_by-map x (y ∷ ys) = elim (Bool-cases (text_leb (k x) (k y))) [
    | inl e ↦ rw (same x, same y, e) refl
    | inr e ↦ rw (same x, same y, e) (ap (λ rest. f y ∷ rest) (insert_by-map x ys))
  ]

  pub sort_by-map : (xs : List A) → sort_by l (map f xs) ≡ map f (sort_by k xs)
  unfolding sort_by
  sort_by-map [] = refl
  sort_by-map (x ∷ xs) = ap (insert_by l (f x)) (sort_by-map xs) ∙ insert_by-map x (sort_by k xs)
