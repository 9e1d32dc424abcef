-- ===== src/Common/Members.antt =====
-- Membership in the lists that a join builds.
use mathlib.Core.Path.{◌≡◌, refl, sym, ap, ◌∙◌, subst}
use mathlib.Core.Bool.{Bool, true, false}
use mathlib.Core.Logic.{inl, inr}
use mathlib.Core.List.{List, [], ◌∷◌, ◌++◌, Memᴰ}
use mathlib.Core.List.Memᴰ
use native.Mathlib.Omega.{arith}
use reference_library.Common.Tests.{Bool-cases}
use reference_library.Common.Lists.{any, keep_if}

abbrev pub concat_map {ℓ κ} : {A : Type ℓ} {B : Type κ} → (A → List B) → List A → List B
concat_map f [] = []
concat_map f (x ∷ xs) = f x ++ concat_map f xs

module _ {A B : Type 0} where
  pub Memᴰ-concat_map :
      (f : A → List B) {x : A} {y : B} {xs : List A}
      → Memᴰ x xs
      → Memᴰ y (f x)
      → Memᴰ y (concat_map f xs)
  Memᴰ-concat_map f {xs = []} among m = elim among [ ]
  Memᴰ-concat_map f {y = y} {xs = x' ∷ xs} (Memᴰ.head e) m =
      Memᴰ.append_left (concat_map f xs) (subst (λ z. Memᴰ y (f z)) e m)
  Memᴰ-concat_map f {xs = x' ∷ xs} (Memᴰ.tail later) m =
      Memᴰ.append_right (f x') (Memᴰ-concat_map f later m)

  pub Memᴰ_of_concat_map :
      (f : A → List B) {y : B} (xs : List A)
      → Memᴰ y (concat_map f xs)
      → (x : A) × Memᴰ x xs × Memᴰ y (f x)
  Memᴰ_of_concat_map f [] m = absurd (Memᴰ.not-nil m)
  Memᴰ_of_concat_map f (x ∷ xs) m = elim (Memᴰ.append_cases (f x) m) [
    | inl here ↦ (x, Memᴰ.head refl, here)
    | inr there ↦
        let (z, among, within) = Memᴰ_of_concat_map f xs there in (z, Memᴰ.tail among, within)
  ]

module _ {A : Type 0} where
  pub Memᴰ-keep_if :
      (p : A → Bool) {x : A} {xs : List A} → Memᴰ x xs → p x ≡ true → Memᴰ x (keep_if p xs)
  Memᴰ-keep_if p {xs = []} among h = elim among [ ]
  Memᴰ-keep_if p {xs = y ∷ ys} (Memᴰ.head e) h = rw (sym (ap p e) ∙ h) (Memᴰ.head e)
  Memᴰ-keep_if p {xs = y ∷ ys} (Memᴰ.tail later) h = elim (Bool-cases (p y)) [
    | inl kept ↦ rw kept (Memᴰ.tail (Memᴰ-keep_if p later h))
    | inr dropped ↦ rw dropped (Memᴰ-keep_if p later h)
  ]

  pub Memᴰ_of_keep_if :
      (p : A → Bool) {x : A} (xs : List A) → Memᴰ x (keep_if p xs) → Memᴰ x xs × (p x ≡ true)
  Memᴰ_of_keep_if p [] m = absurd (Memᴰ.not-nil m)
  Memᴰ_of_keep_if p {x = x} (y ∷ ys) m = elim (Bool-cases (p y)) [
    | inl kept ↦ elim (Memᴰ.cases_cons (rw kept at m)) [
      | inl same ↦ (Memᴰ.head same, ap p same ∙ kept)
      | inr later ↦ let (among, holds) = Memᴰ_of_keep_if p ys later in (Memᴰ.tail among, holds)
    ]
    | inr dropped ↦
        let (among, holds) = Memᴰ_of_keep_if p ys (rw dropped at m) in (Memᴰ.tail among, holds)
  ]

  pub any-Memᴰ : (p : A → Bool) {x : A} {xs : List A} → any p xs ≡ false → Memᴰ x xs → p x ≡ false
  any-Memᴰ p {xs = []} h among = elim among [ ]
  any-Memᴰ p {xs = y ∷ ys} h (Memᴰ.head e) = ap p e ∙ ground (arith, h)
  any-Memᴰ p {xs = y ∷ ys} h (Memᴰ.tail later) = any-Memᴰ p (ground (arith, h)) later
