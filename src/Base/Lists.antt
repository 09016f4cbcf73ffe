-- ===== src/Base/Lists.antt =====
-- Lists measured by native numbers and searched by Boolean tests.
use Prim.Native.Nat.{ℕ, suc, ◌+◌, ◌<◌}
use mathlib.Core.Path.{◌≡◌, refl, subst}
use mathlib.Core.Logic.{◌⊎◌, inl, inr}
use mathlib.Core.Bool.{Bool, true, false, ◌||◌}
use mathlib.Core.List.{List, [], ◌∷◌, ◌++◌}
use mathlib.Core.Option.{Option, none, some}
use native.Mathlib.Omega.{arith}
use ticket_system.Base.Tests.{if◌then◌else◌, bit, Bool-cases}

-- The empty type at every level.
pub data Never {ℓ} : Type ℓ where

module _ {ℓ} {A : Type ℓ} where
  abbrev pub length : List A → ℕ
  length [] = 0
  length (x ∷ xs) = suc (length xs)

  pub length-append : (xs ys : List A) → length (xs ++ ys) ≡ length xs + length ys
  length-append [] ys = omega arith
  length-append (x ∷ xs) ys = omega (arith, length-append xs ys)

  -- The first element that passes: `find` of an array, and a query for one row.
  abbrev pub find : (A → Bool) → List A → Option A
  find p [] = none
  find p (x ∷ xs) = let rest = find p xs in if p x then some x else rest

  -- The elements that pass, in order.
  abbrev pub filter : (A → Bool) → List A → List A
  filter p [] = []
  filter p (x ∷ xs) = let rest = filter p xs in if p x then x ∷ rest else rest

  -- How many pass.
  abbrev pub count : (A → Bool) → List A → ℕ
  count p [] = 0
  count p (x ∷ xs) = bit (p x) + count p xs

  abbrev pub any : (A → Bool) → List A → Bool
  any p [] = false
  any p (x ∷ xs) = p x || any p xs

  -- A predicate on every element.
  abbrev pub All {κ} : (A → Type κ) → List A → Type κ
  All P [] = Unit
  All P (x ∷ xs) = P x × All P xs

  pub count-append : (p : A → Bool) (xs ys : List A) → count p (xs ++ ys) ≡ count p xs + count p ys
  count-append p [] ys = omega arith
  count-append p (x ∷ xs) ys = omega (arith, count-append p xs ys)

  pub find-passes : (p : A → Bool) (xs : List A) (a : A) → find p xs ≡ some a → p a ≡ true
  find-passes p [] a h = cc
  find-passes p (x ∷ xs) a h = ground (arith, find-passes p xs a)

  -- What is found is counted by every test that it passes.
  pub find-count :
      (p q : A → Bool) (xs : List A) (a : A) → find p xs ≡ some a → q a ≡ true → 0 < count q xs
  find-count p q [] a h t = cc
  find-count p q (x ∷ xs) a h t = ground (arith, find-count p q xs a)

  pub find-none-count : (p : A → Bool) (xs : List A) → find p xs ≡ none → count p xs ≡ 0
  find-none-count p [] h = refl
  find-none-count p (x ∷ xs) h = ground (arith, find-none-count p xs)

  pub count_zero-find : (p : A → Bool) (xs : List A) → count p xs ≡ 0 → find p xs ≡ none
  count_zero-find p [] h = refl
  count_zero-find p (x ∷ xs) h = ground (arith, count_zero-find p xs)

  pub any-false-find :
      (p q : A → Bool) (xs : List A) → any (λ a. p a || q a) xs ≡ false → find q xs ≡ none
  any-false-find p q [] h = refl
  any-false-find p q (x ∷ xs) h = ground (arith, any-false-find p q xs)

  -- The place of an element in a list.
  abbrev pub In : A → List A → Type ℓ
  In a [] = Never
  In a (x ∷ xs) = (x ≡ a) ⊎ In a xs

  In-kept :
      (p : A → Bool) (x : A) (xs : List A) (a : A)
      → p x ≡ true
      → (In a (filter p xs) → In a xs × (p a ≡ true))
      → (x ≡ a) ⊎ In a (filter p xs)
      → ((x ≡ a) ⊎ In a xs) × (p a ≡ true)
  In-kept p x xs a t ih (inl e) = (inl e, subst (λ b. p b ≡ true) e t)
  In-kept p x xs a t ih (inr i) = let (j, q) = ih i in (inr j, q)

  pub In-filter : (p : A → Bool) (xs : List A) (a : A) → In a (filter p xs) → In a xs × (p a ≡ true)
  In-filter p [] a h = elim h [ ]
  In-filter p (x ∷ xs) a h = elim (Bool-cases (p x)) [
    | inl t ↦ In-kept p x xs a t (In-filter p xs a) (rw t at h)
    | inr f ↦ let (i, q) = In-filter p xs a (rw f at h) in (inr i, q)
  ]
