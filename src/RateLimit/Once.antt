-- ===== src/RateLimit/Once.antt =====
-- A hold is consumed once.
use ticket_system.Base.{arith, ℕ, ◌≡◌, refl, ◌∙◌, true, false, none, Bool-cases, inl, inr}
use ticket_system.Domain.{Text}
use ticket_system.RateLimit.{
  Redis, HeldSlot, hold_key, session_key, refresh_key, slot_holds, hold_value, is_value,
  consume_hold, peek_hold,
}
use ticket_system.RateLimit.Keys.{
  hold_key-session_key, hold_key-refresh_key, hold_key-slot_holds, session_key-refresh_key,
  session_key-slot_holds,
}
use ticket_system.RateLimit.Laws.{TextLaws}
use ticket_system.RateLimit.Slots.{turned}

module _ {S : Type 0} (redis : Redis S) (laws : TextLaws redis) where
  -- The commands of `consumeHold`.
  abbrev given_up : Text → Text → S → S
  given_up session key st =
      redis.z_rem slot_holds key
        (redis.del (refresh_key session) (redis.del (session_key session) (redis.del key st)))

  pub consume_hold-absent :
      (now : ℕ) (session hold_id : Text) (slot : HeldSlot) (st : S)
      → redis.get now (hold_key slot.desk_id slot.scheduled_at) st ≡ none
      → (consume_hold redis now session hold_id slot st).0 ≡ false
  unfolding consume_hold
  consume_hold-absent now session hold_id slot st gone = rw gone refl

  consumed :
      (now : ℕ) (session hold_id : Text) (slot : HeldSlot) (st : S)
      → (consume_hold redis now session hold_id slot st).0 ≡ true
      → let key = hold_key slot.desk_id slot.scheduled_at in
        (consume_hold redis now session hold_id slot st).1 ≡ given_up session key st
  unfolding consume_hold
  consumed now session hold_id slot st h =
      elim (Bool-cases (
        is_value (redis.get now (hold_key slot.desk_id slot.scheduled_at) st)
          (hold_value session hold_id))) [ inl mine ↦ rw mine refl | inr other ↦ ground arith ]

  -- A hold is consumed once: from then on, as long as nothing is held anew, its session has no hold, the slot is free, and to consume it again is refused.
  pub consume_hold-once :
      (now later : ℕ) (session hold_id other_id : Text) (slot : HeldSlot) (st : S)
      → (consume_hold redis now session hold_id slot st).0 ≡ true
      → let after = (consume_hold redis now session hold_id slot st).1 in
        (peek_hold redis later session other_id after ≡ none)
        × (redis.get later (hold_key slot.desk_id slot.scheduled_at) after ≡ none)
        × ((consume_hold redis later session hold_id slot after).0 ≡ false)
  unfolding peek_hold
  consume_hold-once now later session hold_id other_id slot st h =
      rw (consumed now session hold_id slot st h) (
        rw (session_gone, peek_hold) refl,
        slot_gone,
        consume_hold-absent later session hold_id slot (given_up session key st) slot_gone,
      )
    where
      key : Text
      key = hold_key slot.desk_id slot.scheduled_at

      session_gone : redis.get later (session_key session) (given_up session key st) ≡ none
      session_gone =
          laws.get_z_rem later slot_holds (session_key session) key _
            (turned _ _ (session_key-slot_holds session))
          ∙ laws.get_del_other later (refresh_key session) (session_key session) _
              (turned _ _ (session_key-refresh_key session session))
          ∙ laws.get_del later (session_key session) _

      slot_gone : redis.get later key (given_up session key st) ≡ none
      slot_gone =
          laws.get_z_rem later slot_holds key key _
            (turned _ _ (hold_key-slot_holds slot.desk_id slot.scheduled_at))
          ∙ laws.get_del_other later (refresh_key session) key _
              (turned _ _ (hold_key-refresh_key slot.desk_id slot.scheduled_at session))
          ∙ laws.get_del_other later (session_key session) key _
              (turned _ _ (hold_key-session_key slot.desk_id slot.scheduled_at session))
          ∙ laws.get_del later key st
