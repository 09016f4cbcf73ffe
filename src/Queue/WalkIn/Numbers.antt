-- ===== src/Queue/WalkIn/Numbers.antt =====
-- The number of a ticket has all its digits: more fuel than the number itself changes nothing.
use ticket_system.Base.{
  ap, sym, ◌∙◌, ◌∙◌, sym, ℕ, zero, suc, ◌+◌, ◌/◌, ◌%◌, ◌<◌, ◌≡◌, refl, ◌∷◌, ltb, arith, Bool-cases,
  inl, inr,
}
use ticket_system.Domain.{Text}
use ticket_system.Queue.WalkIn.{decimal}

decimal_more :
    (fuel n : ℕ) (digits : Text) → n < fuel → decimal fuel n digits ≡ decimal (suc fuel) n digits
unfolding decimal
decimal_more zero n digits h = absurd (omega arith)
decimal_more (suc fuel) n digits h = elim (Bool-cases (ltb n 10)) [
  | inl short ↦ rw short refl
  | inr long ↦ rw long (decimal_more fuel (n / 10) ((48 + n % 10) ∷ digits) (ground arith))
]

no_more : (k : ℕ) → k + 0 ≡ k
no_more k = omega arith

one_more : (k more : ℕ) → k + suc more ≡ suc (k + more)
one_more k more = omega arith

-- Fuel above the number gives the digits that any further fuel gives.
pub decimal_enough :
    (more n : ℕ) (digits : Text) → decimal (n + 1 + more) n digits ≡ decimal (n + 1) n digits
decimal_enough zero n digits = ap (λ k. decimal k n digits) (no_more (n + 1))
decimal_enough (suc more) n digits =
    ap (λ k. decimal k n digits) (one_more (n + 1) more)
    ∙ sym (decimal_more (n + 1 + more) n digits (omega arith))
    ∙ decimal_enough more n digits
