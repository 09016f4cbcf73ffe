-- ===== src/Booking/Slots.antt =====
-- The times of the slots of a day.
use ticket_system.Base.{
  ◌∙◌, ap, true, subst, ℕ, zero, suc, ◌+◌, ◌*◌, ◌≤◌, ◌<◌, ◌≡◌, All, In, leb, arith, inl, inr,
  Bool-cases,
}
use ticket_system.Domain.{ClientCountry, rf, cn}
use ticket_system.Booking.{
  slot_loop, generate_slot_times, slot_duration, workday_start_minutes, workday_end_minutes,
}

-- A slot of the working day.
abbrev pub FitsDay : ℕ → ℕ → Type 0
FitsDay step t = (workday_start_minutes ≤ t) × (t + step ≤ workday_end_minutes)

slot_loop-FitsDay :
    (fuel step minutes : ℕ)
    → workday_start_minutes ≤ minutes
    → All (FitsDay step) (slot_loop fuel step minutes)
unfolding slot_loop
slot_loop-FitsDay zero step minutes h = tt
slot_loop-FitsDay (suc fuel) step minutes h =
    elim (Bool-cases (leb (minutes + step) workday_end_minutes)) [
      | inl fits ↦
          rw fits ((h, ground arith), slot_loop-FitsDay fuel step (minutes + step) (omega arith))
      | inr late ↦ rw late tt
    ]

-- Every slot that is offered lies within the working day.
pub generate_slot_times-FitsDay :
    (c : ClientCountry) → All (FitsDay (slot_duration c)) (generate_slot_times c)
unfolding generate_slot_times
generate_slot_times-FitsDay c =
    slot_loop-FitsDay workday_end_minutes (slot_duration c) workday_start_minutes (omega arith)

goes_on : (a b : ℕ) → a ≤ b → leb a b ≡ true
goes_on a b h = ground arith

next_step : (minutes step k : ℕ) → minutes + step + k * step ≡ minutes + suc k * step
next_step minutes step k = omega arith

slot_loop-In :
    (fuel step minutes k : ℕ)
    → k < fuel
    → minutes + k * step + step ≤ workday_end_minutes
    → In (minutes + k * step) (slot_loop fuel step minutes)
unfolding slot_loop
slot_loop-In zero step minutes k f h = absurd (omega arith)
slot_loop-In (suc fuel) step minutes zero f h =
    rw (goes_on (minutes + step) workday_end_minutes (omega arith)) (inl (omega arith))
slot_loop-In (suc fuel) step minutes (suc k) f h =
    rw (goes_on (minutes + step) workday_end_minutes (omega arith)) (
      inr (
        subst (λ t. In t (slot_loop fuel step (minutes + step))) (next_step minutes step k)
          (slot_loop-In fuel step (minutes + step) k (omega arith) (omega arith))))

-- Every slot that starts a whole number of steps into the working day and ends within it is offered.
pub generate_slot_times-In :
    (c : ClientCountry) (k : ℕ)
    → workday_start_minutes + k * slot_duration c + slot_duration c ≤ workday_end_minutes
    → In (workday_start_minutes + k * slot_duration c) (generate_slot_times c)
unfolding generate_slot_times
generate_slot_times-In rf k h =
    slot_loop-In workday_end_minutes 20 workday_start_minutes k (omega arith) h
generate_slot_times-In cn k h =
    slot_loop-In workday_end_minutes 30 workday_start_minutes k (omega arith) h

more_fuel :
    (fuel step minutes : ℕ)
    → 0 < step
    → workday_end_minutes ≤ fuel + minutes
    → slot_loop (suc fuel) step minutes ≡ slot_loop fuel step minutes
unfolding slot_loop
more_fuel zero step minutes pos le = ground arith
more_fuel (suc fuel) step minutes pos le =
    ground (arith, more_fuel fuel step (minutes + step) pos (omega arith))

-- The loop over the slots of a day ends within as many rounds as the day has minutes: with any further fuel it gives the same slots, for every positive step and from every minute on.
pub slot_loop_enough :
    (more step minutes : ℕ)
    → 0 < step
    → slot_loop (workday_end_minutes + more) step minutes
      ≡ slot_loop workday_end_minutes step minutes
slot_loop_enough zero step minutes pos = ap (λ k. slot_loop k step minutes) (omega arith)
slot_loop_enough (suc more) step minutes pos =
    let one : workday_end_minutes + suc more ≡ suc (workday_end_minutes + more) = omega arith in
    ap (λ k. slot_loop k step minutes) one
    ∙ more_fuel (workday_end_minutes + more) step minutes pos (omega arith)
    ∙ slot_loop_enough more step minutes pos
