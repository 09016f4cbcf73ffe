-- ===== src/RateLimit/Owner.antt =====
-- A held slot belongs to one session.
use ticket_system.Base.{
  ℕ, ◌≡◌, ◌≢◌, refl, ap, ◌∙◌, sym, false, some, Bool-cases, Option-cases, inl, inr,
}
use ticket_system.Domain.{Text}
use ticket_system.Texts.{same_text, same_text_refl, same_text→eq}
use ticket_system.RateLimit.{
  Redis, hold_key, session_key, hold_value, hold_seconds, is_owned, truthy, hold_made, hold_slot,
}
use ticket_system.RateLimit.Keys.{hold_key-session_key, hold_key-slot_holds}
use ticket_system.RateLimit.Laws.{TextLaws}
use ticket_system.RateLimit.Slots.{turned, list_hold-get, drop_previous-get, hold_slot-free, taken}

module _ {S : Type 0} (redis : Redis S) (laws : TextLaws redis) where
  taken-other :
      (now : ℕ) (session key value desk at : Text) (st : S)
      → key ≢ hold_key desk at
      → truthy (redis.get now (session_key session) (redis.set now key value hold_seconds st))
        ≢ some (hold_key desk at)
      → redis.get now (hold_key desk at) (taken redis laws now session key value st)
        ≡ redis.get now (hold_key desk at) st
  taken-other now session key value desk at st apart points =
      let j = hold_key desk at in
      list_hold-get redis laws now key j hold_seconds _ (turned _ _ (hold_key-slot_holds desk at))
      ∙ laws.get_set_other now (session_key session) j key hold_seconds _
          (turned _ _ (hold_key-session_key desk at session))
      ∙ drop_previous-get redis laws now _ key j _ (turned _ _ (hold_key-slot_holds desk at))
          (λ p points' _ same. points (points' ∙ ap some same))
      ∙ laws.get_set_other now key j value hold_seconds st apart

  hold_slot-refused :
      (now : ℕ) (session desk at hold_id w : Text) (st : S)
      → redis.get now (hold_key desk at) st ≡ some w
      → is_owned session (some w) ≡ false
      → hold_slot redis now session desk at hold_id st ≡ (false, st)
  unfolding hold_slot hold_made
  hold_slot-refused now session desk at hold_id w st there other =
      ap (λ o. hold_made redis now session (hold_key desk at) o st)
        (laws.set_if_taken now (hold_key desk at) (hold_value session hold_id) w hold_seconds st
          there)
      ∙ rw (there, other) refl

  hold_slot-again :
      (now : ℕ) (session desk at hold_id desk' at' v : Text) (st : S)
      → redis.get now (hold_key desk at) st ≡ some v
      → redis.get now (hold_key desk' at') (hold_slot redis now session desk at hold_id st).1
        ≡ redis.get now (hold_key desk' at') st
  unfolding hold_slot hold_made
  hold_slot-again now session desk at hold_id desk' at' v st held =
      ap
        (λ o.
          redis.get now (hold_key desk' at')
            (hold_made redis now session (hold_key desk at) o st).1)
        (laws.set_if_taken now (hold_key desk at) (hold_value session hold_id) v hold_seconds st
          held)
      ∙ elim (Bool-cases (is_owned session (redis.get now (hold_key desk at) st))) [
        | inl mine ↦ rw mine (
            list_hold-get redis laws now (hold_key desk at) (hold_key desk' at') _ st
              (turned _ _ (hold_key-slot_holds desk' at')))
        | inr other ↦ rw other refl
      ]

  still_held :
      (now : ℕ) (session desk at hold_id desk' at' w : Text) (st : S)
      → redis.get now (hold_key desk' at') st ≡ some w
      → is_owned session (some w) ≡ false
      → truthy (redis.get now (session_key session) st) ≢ some (hold_key desk' at')
      → redis.get now (hold_key desk' at') (hold_slot redis now session desk at hold_id st).1
        ≡ some w
  still_held now session desk at hold_id desk' at' w st there other points =
      elim (Bool-cases (same_text (hold_key desk at) (hold_key desk' at'))) [
        | inl same ↦
            let key_same = same_text→eq (hold_key desk at) (hold_key desk' at') same in
            rw (hold_slot-refused now session desk at hold_id w st (rw key_same there) other) there
        | inr differs ↦
            let apart : hold_key desk at ≢ hold_key desk' at' = λ e. cc (
              differs,
              ap (λ x. same_text x (hold_key desk' at')) e,
              same_text_refl (hold_key desk' at'),
            ) in
            elim (Option-cases (redis.get now (hold_key desk at) st)) [
              | inl free ↦ rw (hold_slot-free redis laws now session desk at hold_id st free) (
                  taken-other now session (hold_key desk at) (hold_value session hold_id) desk' at'
                    st apart
                    (λ e. points (
                      ap truthy (
                        sym (
                          laws.get_set_other now (hold_key desk at) (session_key session) _
                            hold_seconds st (hold_key-session_key desk at session)))
                      ∙ e))
                  ∙ there)
              | inr (v, held) ↦
                  hold_slot-again now session desk at hold_id desk' at' v st held ∙ there
            ]
      ]

  -- A session whose own last hold is not the slot that another session holds cannot take that slot away: after a request for any slot it is held as before, and a request for the slot itself is refused and changes nothing.
  pub hold_slot-keeps :
      (now : ℕ) (session desk at hold_id desk' at' w : Text) (st : S)
      → redis.get now (hold_key desk' at') st ≡ some w
      → is_owned session (some w) ≡ false
      → truthy (redis.get now (session_key session) st) ≢ some (hold_key desk' at')
      → (redis.get now (hold_key desk' at') (hold_slot redis now session desk at hold_id st).1
          ≡ some w)
        × (hold_slot redis now session desk' at' hold_id st ≡ (false, st))
  hold_slot-keeps now session desk at hold_id desk' at' w st there other points = (
    still_held now session desk at hold_id desk' at' w st there other points,
    hold_slot-refused now session desk' at' hold_id w st there other,
  )
