-- ===== src/RateLimit/Keys.antt =====
-- The keys of holds are read back, and keys of different kinds differ.
use ticket_system.Base.{
  inr, inl, ◌==◌, Bool-cases, false, ℕ, ◌≡◌, ◌≢◌, refl, ap, true, List, [], ◌∷◌, some,
}
use ticket_system.Domain.{Text}
use ticket_system.Texts.{
  split_at, join_with, without, split_at-append, join_with-split_at, onto_first,
}
use ticket_system.RateLimit.{
  refresh_prefix, session_prefix, starts_with, hold_key, hold_prefix, parse_hold_key, slot_of_parts,
  is_blank, session_key, refresh_key, slot_holds,
}

slot_of_split :
    (desk : Text) (ws : List Text) (at : Text)
    → is_blank desk ≡ false
    → join_with 58 ws ≡ at
    → (ws ≢ [])
    → slot_of_parts ((115 ∷ 108 ∷ 111 ∷ 116 ∷ []) ∷ (104 ∷ 111 ∷ 108 ∷ 100 ∷ []) ∷ desk ∷ ws)
      ≡ some (record { desk_id = desk; scheduled_at = at })
slot_of_split desk [] at full joined some_part = absurd (some_part refl)
slot_of_split desk (w ∷ ws) at full joined some_part = rw (full, joined) refl

onto_first-full : (c : ℕ) (ws : List Text) → onto_first c ws ≢ []
onto_first-full c [] = λ e. cc
onto_first-full c (w ∷ ws) = λ e. cc

split_at-full : (x : ℕ) (t : Text) → split_at x t ≢ []
unfolding split_at
split_at-full x [] = λ e. cc
split_at-full x (c ∷ cs) = elim (Bool-cases (c == x)) [
  | inl hit ↦ rw hit (λ e. cc)
  | inr other ↦ rw other (onto_first-full c (split_at x cs))
]

hold_key-parts :
    (desk at : Text)
    → without 58 desk ≡ true
    → split_at 58 (hold_key desk at)
      ≡ (115 ∷ 108 ∷ 111 ∷ 116 ∷ []) ∷ (104 ∷ 111 ∷ 108 ∷ 100 ∷ []) ∷ desk ∷ split_at 58 at
unfolding hold_key split_at
hold_key-parts desk at plain = rw (split_at-append 58 desk at plain) refl

-- The key of a hold gives back the desk and the time, whatever separators the time has, where the desk is not empty and has no separator.
pub parse_hold_key-hold_key :
    (desk at : Text)
    → is_blank desk ≡ false
    → without 58 desk ≡ true
    → parse_hold_key (hold_key desk at) ≡ some (record { desk_id = desk; scheduled_at = at })
unfolding parse_hold_key
parse_hold_key-hold_key desk at full plain =
    rw (hold_key-parts desk at plain)
      (slot_of_split desk (split_at 58 at) at full (join_with-split_at 58 at) (split_at-full 58 at))

-- A prefix of one text and not of the other.
apart_by : (prefix a b : Text) → starts_with prefix a ≡ true → starts_with prefix b ≡ false → a ≢ b
apart_by prefix a b t f = λ e. cc (t, f, ap (starts_with prefix) e)

pub hold_key-session_key : (desk at session : Text) → hold_key desk at ≢ session_key session
unfolding hold_key
hold_key-session_key desk at session =
    apart_by hold_prefix (hold_key desk at) (session_key session) refl refl

pub hold_key-refresh_key : (desk at session : Text) → hold_key desk at ≢ refresh_key session
unfolding hold_key
hold_key-refresh_key desk at session =
    apart_by hold_prefix (hold_key desk at) (refresh_key session) refl refl

pub hold_key-slot_holds : (desk at : Text) → hold_key desk at ≢ slot_holds
unfolding hold_key
hold_key-slot_holds desk at = apart_by hold_prefix (hold_key desk at) slot_holds refl refl

pub session_key-refresh_key : (s r : Text) → session_key s ≢ refresh_key r
session_key-refresh_key s r = apart_by session_prefix (session_key s) (refresh_key r) refl refl

pub session_key-slot_holds : (s : Text) → session_key s ≢ slot_holds
session_key-slot_holds s = apart_by session_prefix (session_key s) slot_holds refl refl

pub refresh_key-slot_holds : (s : Text) → refresh_key s ≢ slot_holds
refresh_key-slot_holds s = apart_by refresh_prefix (refresh_key s) slot_holds refl refl
