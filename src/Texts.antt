-- ===== src/Texts.antt =====
-- What the program asks of strings: equality, prefixes, and `split` and `join` at a character.
use ticket_system.Base.{
  ℕ, ◌≡◌, refl, Bool, true, false, not, ◌&&◌, List, [], ◌∷◌, ◌++◌, arith, ◌==◌, any, if◌then◌else◌,
  Bool-cases, inl, inr, ==_refl,
}
use ticket_system.Domain.{Text}

-- `===`.
abbrev pub same_text : Text → Text → Bool
same_text [] [] = true
same_text (c ∷ cs) (d ∷ ds) = let rest = same_text cs ds in (c == d) && rest
same_text _ _ = false

pub same_text_refl : (t : Text) → same_text t t ≡ true
same_text_refl [] = refl
same_text_refl (c ∷ cs) = ground (arith, same_text_refl cs, ==_refl c)

pub same_text→eq : (s t : Text) → same_text s t ≡ true → s ≡ t
same_text→eq [] [] h = refl
same_text→eq [] (d ∷ ds) h = cc
same_text→eq (c ∷ cs) [] h = cc
same_text→eq (c ∷ cs) (d ∷ ds) h = ground (arith, same_text→eq cs ds)

-- `text.startsWith(prefix)`.
abbrev pub starts_with : Text → Text → Bool
starts_with [] text = true
starts_with (p ∷ ps) [] = false
starts_with (p ∷ ps) (c ∷ cs) = let rest = starts_with ps cs in (p == c) && rest

-- `text.slice(prefix.length)`.
abbrev pub drop_prefix : Text → Text → Text
drop_prefix [] text = text
drop_prefix (p ∷ ps) [] = []
drop_prefix (p ∷ ps) (c ∷ cs) = drop_prefix ps cs

pub starts_with-append : (p t : Text) → starts_with p (p ++ t) ≡ true
starts_with-append [] t = refl
starts_with-append (c ∷ cs) t = ground (arith, starts_with-append cs t, ==_refl c)

pub drop_prefix-append : (p t : Text) → drop_prefix p (p ++ t) ≡ t
drop_prefix-append [] t = refl
drop_prefix-append (c ∷ cs) t = drop_prefix-append cs t

-- A unit before the first part.
abbrev pub onto_first : ℕ → List Text → List Text
onto_first c [] = (c ∷ []) ∷ []
onto_first c (w ∷ ws) = (c ∷ w) ∷ ws

-- `text.split(separator)`.
unfoldable pub split_at : ℕ → Text → List Text
split_at separator [] = [] ∷ []
split_at separator (c ∷ cs) =
    let rest = split_at separator cs in if c == separator then [] ∷ rest else onto_first c rest

-- `parts.join(separator)`.
unfoldable pub join_with : ℕ → List Text → Text
join_with separator [] = []
join_with separator (w ∷ []) = w
join_with separator (w ∷ v ∷ ws) = w ++ separator ∷ join_with separator (v ∷ ws)

-- The separator does not occur.
abbrev pub without : ℕ → Text → Bool
without separator text = not (any (λ c. c == separator) text)

pub split_at-append :
    (x : ℕ) (w t : Text) → without x w ≡ true → split_at x (w ++ x ∷ t) ≡ w ∷ split_at x t
unfolding split_at
split_at-append x [] t h = rw (==_refl x) refl
split_at-append x (c ∷ cs) t h = elim (Bool-cases (c == x)) [
  | inl hit ↦ absurd (ground arith)
  | inr other ↦ rw (other, split_at-append x cs t (ground arith)) refl
]

join_with-onto_first :
    (x c : ℕ) (ws : List Text) → join_with x (onto_first c ws) ≡ c ∷ join_with x ws
unfolding join_with
join_with-onto_first x c [] = refl
join_with-onto_first x c (w ∷ []) = refl
join_with-onto_first x c (w ∷ v ∷ ws) = refl

join_with-empty :
    (x : ℕ) (t : Text) → join_with x ([] ∷ split_at x t) ≡ x ∷ join_with x (split_at x t)
unfolding join_with split_at
join_with-empty x [] = refl
join_with-empty x (c ∷ cs) = elim (Bool-cases (c == x)) [
  | inl hit ↦ rw hit refl
  | inr other ↦ rw other (first_of (split_at x cs))
]
  where
    first_of :
        (ws : List Text) → join_with x ([] ∷ onto_first c ws) ≡ x ∷ join_with x (onto_first c ws)
    first_of [] = refl
    first_of (w ∷ ws) = refl

-- What has been split is joined again.
pub join_with-split_at : (x : ℕ) (t : Text) → join_with x (split_at x t) ≡ t
unfolding split_at join_with
join_with-split_at x [] = refl
join_with-split_at x (c ∷ cs) = elim (Bool-cases (c == x)) [
  | inl hit ↦ rw hit (rw (join_with-empty x cs, join_with-split_at x cs) (ground arith))
  | inr other ↦ rw (other, join_with-onto_first x c (split_at x cs), join_with-split_at x cs) refl
]
