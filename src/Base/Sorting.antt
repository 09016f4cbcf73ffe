-- ===== src/Base/Sorting.antt =====
-- `ORDER BY` of a number, and `LIMIT`.
use Prim.Native.Nat.{ℕ, zero, suc, ◌≤◌}
use mathlib.Core.Path.{◌≡◌}
use mathlib.Core.Logic.{◌⊎◌, inl, inr}
use mathlib.Core.List.{List, [], ◌∷◌}
use native.Mathlib.Omega.{arith}
use ticket_system.Base.Tests.{if◌then◌else◌, ltb, Bool-cases}
use ticket_system.Base.Lists.{In, length}

module _ {ℓ} {A : Type ℓ} where
  abbrev pub insert_row : (A → ℕ) → A → List A → List A
  insert_row rank a [] = a ∷ []
  insert_row rank a (x ∷ xs) =
      let rest = insert_row rank a xs in if ltb (rank x) (rank a) then x ∷ rest else a ∷ x ∷ xs

  -- Equal rows keep their order.
  abbrev pub order_rows : (A → ℕ) → List A → List A
  order_rows rank [] = []
  order_rows rank (x ∷ xs) = insert_row rank x (order_rows rank xs)

  abbrev pub limit : ℕ → List A → List A
  limit zero xs = []
  limit (suc n) [] = []
  limit (suc n) (x ∷ xs) = x ∷ limit n xs

  pub In-insert_row :
      (rank : A → ℕ) (a b : A) (xs : List A) → In b (insert_row rank a xs) → (a ≡ b) ⊎ In b xs
  In-insert_row rank a b [] i = i
  In-insert_row rank a b (x ∷ xs) i = elim (Bool-cases (ltb (rank x) (rank a))) [
    | inl before ↦ passed (λ j. In-insert_row rank a b xs j) (rw before at i)
    | inr here ↦ rw here at i
  ]
    where
      passed :
          (In b (insert_row rank a xs) → (a ≡ b) ⊎ In b xs)
          → (x ≡ b) ⊎ In b (insert_row rank a xs)
          → (a ≡ b) ⊎ ((x ≡ b) ⊎ In b xs)
      passed ih (inl e) = inr (inl e)
      passed ih (inr j) = elim (ih j) [ inl e ↦ inl e | inr k ↦ inr (inr k) ]

  pub In-order_rows : (rank : A → ℕ) (b : A) (xs : List A) → In b (order_rows rank xs) → In b xs
  In-order_rows rank b [] i = i
  In-order_rows rank b (x ∷ xs) i = elim (In-insert_row rank x b (order_rows rank xs) i) [
    | inl e ↦ inl e
    | inr j ↦ inr (In-order_rows rank b xs j)
  ]

  pub In-limit : (n : ℕ) (b : A) (xs : List A) → In b (limit n xs) → In b xs
  In-limit zero b xs i = elim i [ ]
  In-limit (suc n) b [] i = i
  In-limit (suc n) b (x ∷ xs) (inl e) = inl e
  In-limit (suc n) b (x ∷ xs) (inr i) = inr (In-limit n b xs i)

  pub length-limit : (n : ℕ) (xs : List A) → length (limit n xs) ≤ n
  length-limit zero xs = omega arith
  length-limit (suc n) [] = omega arith
  length-limit (suc n) (x ∷ xs) = omega (arith, length-limit n xs)
