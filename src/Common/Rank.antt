-- ===== src/Common/Rank.antt =====
-- `ORDER BY` on the rows of a query, as a stable insertion.
use Prim.Native.Nat.{suc}
use mathlib.Core.Path.{◌≡◌, refl, ◌∙◌, ap}
use native.Mathlib.Omega.{arith}
use mathlib.Core.Bool.{Bool}
use mathlib.Core.List.{List, [], ◌∷◌}
use reference_library.Common.Lists.{length}
use reference_library.Common.Tests.{if◌then◌else◌}

module _ {ℓ} {A : Type ℓ} (before : A → A → Bool) where
  unfoldable pub put : A → List A → List A
  put x [] = x ∷ []
  put x (y ∷ ys) = let rest = put x ys in if before x y then x ∷ (y ∷ ys) else y ∷ rest

  unfoldable pub order_by : List A → List A
  unfolding put
  order_by [] = []
  order_by (x ∷ xs) = put x (order_by xs)

  length-put : (x : A) (xs : List A) → length (put x xs) ≡ suc (length xs)
  unfolding put
  length-put x [] = refl
  length-put x (y ∷ ys) = ground (arith, length-put x ys)

  pub length-order_by : (xs : List A) → length (order_by xs) ≡ length xs
  unfolding order_by
  length-order_by [] = refl
  length-order_by (x ∷ xs) = length-put x (order_by xs) ∙ ap suc (length-order_by xs)
