-- ===== src/Base/Rows.antt =====
-- A table: a list of rows, each under the number that is its primary key.
use Prim.Native.Nat.{ℕ, ◌+◌, ◌≤◌, ◌<◌}
use mathlib.Core.Path.{◌≡◌, refl, ap}
use mathlib.Core.Logic.{inl, inr}
use mathlib.Core.Bool.{Bool}
use mathlib.Core.List.{List, [], ◌∷◌}
use mathlib.Core.Option.{Option, none, some}
use native.Mathlib.Omega.{arith}
use ticket_system.Base.Tests.{if◌then◌else◌, bit, ◌==◌, ==_refl, is_some}
use ticket_system.Base.Lists.{In, find, count, find-count}

pub record Keyed {ℓ} (A : Type ℓ) : Type ℓ where
  pub key : A → ℕ

module _ {ℓ} {A : Type ℓ} ⦃k : Keyed A⦄ where
  -- The row under a key.
  abbrev pub row : ℕ → List A → Option A
  row i = find (λ a. k.key a == i)

  -- `save` of a row that is there already.
  abbrev pub put : A → List A → List A
  put a [] = []
  put a (x ∷ xs) = let rest = put a xs in if k.key x == k.key a then a ∷ xs else x ∷ rest

  -- How many rows go by a key.
  abbrev pub copies : ℕ → List A → ℕ
  copies i = count (λ a. k.key a == i)

  pub copies-put : (i : ℕ) (a : A) (xs : List A) → copies i (put a xs) ≡ copies i xs
  copies-put i a [] = refl
  copies-put i a (x ∷ xs) = ground (arith, copies-put i a xs)

  -- A write changes a count by the row that it replaces.
  pub count-put :
      (q : A → Bool) (a old : A) (xs : List A)
      → row (k.key a) xs ≡ some old
      → count q (put a xs) + bit (q old) ≡ count q xs + bit (q a)
  count-put q a old [] h = cc
  count-put q a old (x ∷ xs) h = ground (arith, count-put q a old xs)

  pub row-put :
      (i : ℕ) (a : A) (xs : List A)
      → row i (put a xs)
        ≡ (if k.key a == i then (if is_some (row i xs) then some a else none) else row i xs)
  row-put i a [] = ground arith
  row-put i a (x ∷ xs) = ground (arith, row-put i a xs)

  -- With one row to a key, a row found by any test is the row under its key.
  copies-none : (i : ℕ) (xs : List A) → copies i xs ≡ 0 → row i xs ≡ none
  copies-none i [] h = refl
  copies-none i (x ∷ xs) h = ground (arith, copies-none i xs)

  pub find-row :
      (p : A → Bool) (a : A) (xs : List A)
      → copies (k.key a) xs ≤ 1
      → find p xs ≡ some a
      → row (k.key a) xs ≡ some a
  find-row p a [] u h = cc
  find-row p a (x ∷ xs) u h =
      ground
        (arith, find-row p a xs, find-count p (λ b. k.key b == k.key a) xs a, ==_refl (k.key a))

  In-copies : (a : A) (xs : List A) → In a xs → 0 < copies (k.key a) xs
  In-copies a [] i = elim i [ ]
  In-copies a (x ∷ xs) (inl e) = ground (arith, ap k.key e)
  In-copies a (x ∷ xs) (inr i) = ground (arith, In-copies a xs i)

  pub In-row : (a : A) (xs : List A) → copies (k.key a) xs ≤ 1 → In a xs → row (k.key a) xs ≡ some a
  In-row a [] u i = elim i [ ]
  In-row a (x ∷ xs) u (inl e) = ground (arith, ap k.key e)
  In-row a (x ∷ xs) u (inr i) = ground (arith, In-copies a xs i, In-row a xs)

  -- What is written under a key is read there.
  pub row-put_self :
      (a a' : A) (xs : List A)
      → row (k.key a) xs ≡ some a
      → k.key a' ≡ k.key a
      → row (k.key a') (put a' xs) ≡ some a'
  row-put_self a a' xs h e = ground (arith, row-put (k.key a') a' xs)
