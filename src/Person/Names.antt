-- ===== src/Person/Names.antt =====
-- Which names the pattern accepts.
use ticket_system.Base.{
  ◌↔◌, ◌∙◌, ◌∙◌, ℕ, ◌≡◌, refl, Bool, true, false, [], ◌∷◌, ◌++◌, arith, Bool-cases, inl, inr,
}
use ticket_system.Domain.{Text}
use ticket_system.Person.{name_pattern, is_letter, is_separator, matches_from}

-- One or more letters.
pub data Word : Text → Type 0 where
  one : {c : ℕ} → is_letter c ≡ true → Word (c ∷ [])
  more : {c : ℕ} {cs : Text} → is_letter c ≡ true → Word cs → Word (c ∷ cs)

-- Words with one space or one hyphen between two of them.
pub data Name : Text → Type 0 where
  word : {cs : Text} → Word cs → Name cs
  join :
      (cs : Text) (c : ℕ) (ds : Text)
      → Word cs
      → is_separator c ≡ true
      → Name ds
      → Name (cs ++ c ∷ ds)

prepend : (c : ℕ) (cs : Text) → is_letter c ≡ true → Name cs → Name (c ∷ cs)
prepend c cs l (word w) = word (more l w)
prepend c _ l (join cs d ds w s n) = join (c ∷ cs) d ds (more l w) s n

after_letter :
    (s : Bool) (c : ℕ) (cs : Text)
    → is_letter c ≡ true
    → matches_from s (c ∷ cs) ≡ matches_from true cs
unfolding matches_from
after_letter s c cs l = rw l refl

-- A separator is no letter.
separator_no_letter : (c : ℕ) → is_separator c ≡ true → is_letter c ≡ false
unfolding is_letter
separator_no_letter c s = ground arith

after_separator :
    (c : ℕ) (cs : Text) → is_separator c ≡ true → matches_from true (c ∷ cs) ≡ matches_from false cs
unfolding matches_from
after_separator c cs s = rw (separator_no_letter c s, s) refl

-- What is accepted after a letter, and at the start of a word.
abbrev Accepted : Text → Type 0
Accepted cs =
    (matches_from false cs ≡ true → Name cs)
    × ((c : ℕ) → is_letter c ≡ true → matches_from true cs ≡ true → Name (c ∷ cs))

matches_from-Name : (cs : Text) → Accepted cs
unfolding matches_from
matches_from-Name [] = (λ h. cc, λ c l h. word (one l))
matches_from-Name (d ∷ cs) =
    let (at_start, after) = matches_from-Name cs in
    elim (Bool-cases (is_letter d)) [
      | inl l ↦ (λ h. after d l (rw l at h), λ c k h. prepend c (d ∷ cs) k (after d l (rw l at h)))
      | inr n ↦ elim (Bool-cases (is_separator d)) [
        | inl s ↦ (
          λ h. cc (rw (n, s) at h),
          λ c k h. join (c ∷ []) d cs (one k) s (at_start (rw (n, s) at h)),
        )
        | inr o ↦ (λ h. cc (rw (n, o) at h), λ c k h. cc (rw (n, o) at h))
      ]
    ]

Word-matches_from :
    (s : Bool) (cs ds : Text)
    → Word cs
    → matches_from true ds ≡ true
    → matches_from s (cs ++ ds) ≡ true
Word-matches_from s cs ds (one {c} l) h = after_letter s c ds l ∙ h
Word-matches_from s cs ds (more {c} {cs = rest} l w) h =
    after_letter s c (rest ++ ds) l ∙ Word-matches_from true rest ds w h

ends_accepted : (s : Bool) (cs : Text) → Word cs → matches_from s cs ≡ true
unfolding matches_from
ends_accepted s cs (one {c} l) = after_letter s c [] l
ends_accepted s cs (more {c} {cs = rest} l w) = after_letter s c rest l ∙ ends_accepted true rest w

Name-matches_from : (cs : Text) → Name cs → matches_from false cs ≡ true
unfolding matches_from
Name-matches_from cs (word w) = ends_accepted false cs w
Name-matches_from _ (join cs c ds w s n) =
    Word-matches_from false cs (c ∷ ds) w (after_separator c ds s ∙ Name-matches_from ds n)

-- The pattern accepts exactly the words of letters that are joined by one space or one hyphen each.
pub name_pattern-Name : (cs : Text) → (name_pattern cs ≡ true) ↔ Name cs
unfolding name_pattern
name_pattern-Name cs = ((matches_from-Name cs).0, Name-matches_from cs)
