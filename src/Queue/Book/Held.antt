-- ===== src/Queue/Book/Held.antt =====
-- What `holdSlot` holds, `createTicket` takes.
use ticket_system.Base.{ℕ, ◌≡◌, refl, true, none, ==_refl}
use ticket_system.Domain.{Text, ClientCountry, Desk}
use ticket_system.Booking.{Calendar}
use ticket_system.RateLimit.{Redis, Spelling, HeldSlot, hold_key, hold_slot, get_session_hold}
use ticket_system.RateLimit.Laws.{TextLaws, SpellingLaws}
use ticket_system.RateLimit.Slots.{hold_slot-peek_hold, hold_slot-consume_hold}
use ticket_system.Queue.Store.{Db, Env, ok, is_ok}
use ticket_system.Queue.Book.{
  slot_query, free_desk, current_holds, hold_desk, hold_slot_for, take_hold,
}

module _ {S : Type 0} (redis : Redis S) (laws : TextLaws redis) (spell : Spelling)
    (spelled : SpellingLaws spell) where
  abbrev pub desk_slot : Desk → ℕ → HeldSlot
  desk_slot desk at = record { desk_id = spell.uuid desk.id; scheduled_at = spell.iso at }

  hold_desk-after :
      (env : Env) (session hold_id : Text) (at : ℕ) (desk : Desk) (st : S)
      → (hold_slot redis env.now session (spell.uuid desk.id) (spell.iso at) hold_id st).0 ≡ true
      → (is_ok (hold_desk redis spell env session hold_id at (ok desk) st).0 ≡ true)
        × ((hold_desk redis spell env session hold_id at (ok desk) st).1
            ≡ (hold_slot redis env.now session (spell.uuid desk.id) (spell.iso at) hold_id st).1)
  unfolding hold_desk
  hold_desk-after env session hold_id at desk st held = (rw held refl, rw held refl)

  hold_slot_for-new :
      (cal : Calendar) (env : Env) (session : Text) (site : ℕ) (country : ClientCountry) (at : ℕ)
      (hold_id : Text) (db : Db) (desk : Desk) (st : S)
      → get_session_hold redis env.now session st ≡ none
      → free_desk cal
          (current_holds redis spell env.now st)
          env
          (slot_query site country at)
          none
          db
        ≡ ok desk
      → hold_slot_for redis spell cal env session site country at hold_id db st
        ≡ hold_desk redis spell env session hold_id at (ok desk) st
  unfolding hold_slot_for
  hold_slot_for-new cal env session site country at hold_id db desk st new free =
      rw (new, free, hold_slot_for) refl

  take_hold-desk :
      (env : Env) (session hold_id : Text) (at : ℕ) (desk : Desk) (st : S)
      → redis.get env.now (hold_key (spell.uuid desk.id) (spell.iso at)) st ≡ none
      → (take_hold redis spell env session hold_id at
          (hold_slot redis env.now session (spell.uuid desk.id) (spell.iso at) hold_id st).1).0
        ≡ ok (desk_slot desk at)
  unfolding take_hold
  take_hold-desk env session hold_id at desk st free =
      let (_, seen, _) =
        hold_slot-peek_hold redis laws env.now session (spell.uuid desk.id) (spell.iso at) hold_id
          st (spelled.uuid_full desk.id) (spelled.uuid_plain desk.id) free in
      rw
        (
          seen,
          spelled.time_of_iso at,
          ==_refl at,
          hold_slot-consume_hold redis laws env.now session (spell.uuid desk.id) (spell.iso at)
              hold_id st free,
          take_hold,
        )
        refl

  -- A client without a hold who asks for a slot where a desk is free, and free in Redis, gets it: the answer is a hold, and a ticket that is created with that hold finds it for the desk and the time.
  pub hold_slot_for-take_hold :
      (cal : Calendar) (env : Env) (session : Text) (site : ℕ) (country : ClientCountry) (at : ℕ)
      (hold_id : Text) (db : Db) (desk : Desk) (st : S)
      → get_session_hold redis env.now session st ≡ none
      → free_desk cal
          (current_holds redis spell env.now st)
          env
          (slot_query site country at)
          none
          db
        ≡ ok desk
      → redis.get env.now (hold_key (spell.uuid desk.id) (spell.iso at)) st ≡ none
      → let (answer, after) =
          hold_slot_for redis spell cal env session site country at hold_id db st in
        (is_ok answer ≡ true)
        × ((take_hold redis spell env session hold_id at after).0 ≡ ok (desk_slot desk at))
  hold_slot_for-take_hold cal env session site country at hold_id db desk st new free unheld =
      let (held, _, _) =
        hold_slot-peek_hold redis laws env.now session (spell.uuid desk.id) (spell.iso at) hold_id
          st (spelled.uuid_full desk.id) (spelled.uuid_plain desk.id) unheld in
      let (answers, after) = hold_desk-after env session hold_id at desk st held in
      rw (hold_slot_for-new cal env session site country at hold_id db desk st new free)
        (answers, rw after (take_hold-desk env session hold_id at desk st unheld))
