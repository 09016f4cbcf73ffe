-- ===== src/RateLimit/Slots.antt =====
-- A held slot belongs to one session: what `holdSlot`, `refreshHold` and `consumeHold` leave in Redis.
use ticket_system.Base.{
  ℕ, ◌≡◌, ◌≢◌, refl, ap, ◌∙◌, sym, true, false, [], ◌∷◌, ◌++◌, Option, none, some, Bool-cases, inl,
  inr,
}
use ticket_system.Domain.{Text}
use ticket_system.Texts.{
  same_text, same_text_refl, without, starts_with, starts_with-append, drop_prefix-append,
}
use ticket_system.RateLimit.{
  consume_hold, drop_prefix, Redis, HeldSlot, hold_key, is_blank, session_key, slot_holds,
  hold_value, hold_seconds, is_value, truthy, list_hold, drop_previous, hold_slot, hold_made,
  peek_hold, get_session_hold,
}
use ticket_system.RateLimit.Keys.{
  parse_hold_key-hold_key, hold_key-session_key, hold_key-slot_holds, session_key-slot_holds,
}
use ticket_system.RateLimit.Laws.{TextLaws}

pub turned : {A : Type 0} → (a b : A) → a ≢ b → b ≢ a
turned a b apart e = apart (sym e)

value_parts : (s h : Text) → s ++ 58 ∷ h ≡ (s ++ 58 ∷ []) ++ h
value_parts [] h = refl
value_parts (c ∷ cs) h = ap (λ t. c ∷ t) (value_parts cs h)

owned_value : (s h : Text) → starts_with (s ++ 58 ∷ []) (hold_value s h) ≡ true
owned_value s h = rw (value_parts s h) (starts_with-append (s ++ 58 ∷ []) h)

value_hold_id : (s h : Text) → drop_prefix (s ++ 58 ∷ []) (hold_value s h) ≡ h
value_hold_id s h = rw (value_parts s h) (drop_prefix-append (s ++ 58 ∷ []) h)

module _ {S : Type 0} (redis : Redis S) (laws : TextLaws redis) where
  pub list_hold-get :
      (now : ℕ) (key j : Text) (n : ℕ) (st : S)
      → slot_holds ≢ j
      → redis.get now j (list_hold redis now key n st) ≡ redis.get now j st
  unfolding list_hold
  list_hold-get now key j n st apart =
      laws.get_expire now slot_holds j _ _ ∙ laws.get_z_add now slot_holds j _ key st apart

  pub drop_previous-get :
      (now : ℕ) (o : Option Text) (key j : Text) (st : S)
      → slot_holds ≢ j
      → ((p : Text) → o ≡ some p → same_text p key ≡ false → p ≢ j)
      → redis.get now j (drop_previous redis o key st) ≡ redis.get now j st
  unfolding drop_previous
  drop_previous-get now none key j st apart other = refl
  drop_previous-get now (some p) key j st apart other = elim (Bool-cases (same_text p key)) [
    | inl same ↦ rw same refl
    | inr differs ↦ rw differs (
        laws.get_z_rem now slot_holds j p _ apart
        ∙ laws.get_del_other now p j st (other p refl differs))
  ]

  -- The slot that a session holds from now on.
  abbrev pub taken : ℕ → Text → Text → Text → S → S
  taken now session key value st =
      let created = redis.set now key value hold_seconds st in
      list_hold redis now key hold_seconds (
        redis.set now (session_key session) key hold_seconds
          (drop_previous redis (truthy (redis.get now (session_key session) created)) key created))

  pub hold_slot-free :
      (now : ℕ) (session desk at hold_id : Text) (st : S)
      → redis.get now (hold_key desk at) st ≡ none
      → hold_slot redis now session desk at hold_id st
        ≡ (true, taken now session (hold_key desk at) (hold_value session hold_id) st)
  unfolding hold_slot hold_made
  hold_slot-free now session desk at hold_id st free =
      ap (λ o. hold_made redis now session (hold_key desk at) o st)
        (laws.set_if_free now (hold_key desk at) (hold_value session hold_id) hold_seconds st free)

  taken-session :
      (now : ℕ) (session key value : Text) (st : S)
      → redis.get now (session_key session) (taken now session key value st) ≡ some key
  taken-session now session key value st =
      list_hold-get now key (session_key session) hold_seconds _
        (turned _ _ (session_key-slot_holds session))
      ∙ laws.get_set now (session_key session) key _ _

  taken-hold :
      (now : ℕ) (session desk at value : Text) (st : S)
      → redis.get now (hold_key desk at) (taken now session (hold_key desk at) value st)
        ≡ some value
  taken-hold now session desk at value st =
      let key = hold_key desk at in
      list_hold-get now key key hold_seconds _ (turned _ _ (hold_key-slot_holds desk at))
      ∙ laws.get_set_other now (session_key session) key key hold_seconds _
          (turned _ _ (hold_key-session_key desk at session))
      ∙ drop_previous-get now _ key key _ (turned _ _ (hold_key-slot_holds desk at))
          (λ p _ differs same. cc (differs, ap (λ x. same_text x key) same, same_text_refl key))
      ∙ laws.get_set now key value _ st

  pub is_value_refl : (v : Text) → is_value (some v) v ≡ true
  is_value_refl v = same_text_refl v

  pub peek_hold-found :
      (now : ℕ) (session hold_id desk at : Text) (st : S)
      → is_blank desk ≡ false
      → without 58 desk ≡ true
      → redis.get now (session_key session) st ≡ some (hold_key desk at)
      → redis.get now (hold_key desk at) st ≡ some (hold_value session hold_id)
      → peek_hold redis now session hold_id st ≡ some (record { desk_id = desk; scheduled_at = at })
  unfolding peek_hold hold_key
  peek_hold-found now session hold_id desk at st full plain points holds =
      rw (points, holds, is_value_refl (hold_value session hold_id), peek_hold)
        (parse_hold_key-hold_key desk at full plain)

  get_session_hold-found :
      (now : ℕ) (session hold_id desk at : Text) (st : S)
      → is_blank desk ≡ false
      → without 58 desk ≡ true
      → redis.get now (session_key session) st ≡ some (hold_key desk at)
      → redis.get now (hold_key desk at) st ≡ some (hold_value session hold_id)
      → get_session_hold redis now session st
        ≡ some (record { slot = record { desk_id = desk; scheduled_at = at }; hold_id = hold_id })
  unfolding get_session_hold hold_key
  get_session_hold-found now session hold_id desk at st full plain points holds =
      rw
        (
          points,
          holds,
          owned_value session hold_id,
          parse_hold_key-hold_key desk at full plain,
          value_hold_id session hold_id,
          get_session_hold,
        )
        refl

  -- A session that takes a free slot holds it: its hold is found again, by its id and without it, with the desk and the time that were asked for, where the key of the desk can be read back.
  pub hold_slot-peek_hold :
      (now : ℕ) (session desk at hold_id : Text) (st : S)
      → is_blank desk ≡ false
      → without 58 desk ≡ true
      → redis.get now (hold_key desk at) st ≡ none
      → let (held, after) = hold_slot redis now session desk at hold_id st in
        let slot : HeldSlot = record { desk_id = desk; scheduled_at = at } in
        (held ≡ true)
        × (peek_hold redis now session hold_id after ≡ some slot)
        × (get_session_hold redis now session after
            ≡ some (record { slot = slot; hold_id = hold_id }))
  hold_slot-peek_hold now session desk at hold_id st full plain free =
      let key = hold_key desk at in
      let value = hold_value session hold_id in
      rw (hold_slot-free now session desk at hold_id st free) (
        refl,
        peek_hold-found now session hold_id desk at _ full plain
            (taken-session now session key value st) (taken-hold now session desk at value st),
        get_session_hold-found now session hold_id desk at _ full plain
            (taken-session now session key value st) (taken-hold now session desk at value st),
      )

  pub hold_slot-consume_hold :
      (now : ℕ) (session desk at hold_id : Text) (st : S)
      → redis.get now (hold_key desk at) st ≡ none
      → let after = (hold_slot redis now session desk at hold_id st).1 in
        (consume_hold redis now session hold_id
          (record { desk_id = desk; scheduled_at = at })
          after).0
        ≡ true
  unfolding consume_hold hold_key
  hold_slot-consume_hold now session desk at hold_id st free =
      rw
        (
          hold_slot-free now session desk at hold_id st free,
          taken-hold now session desk at (hold_value session hold_id) st,
          is_value_refl (hold_value session hold_id),
        )
        refl
