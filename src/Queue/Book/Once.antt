-- ===== src/Queue/Book/Once.antt =====
-- A hold gives one ticket: `createTicket` consumes it before it books.
use ticket_system.Base.{
  ℕ, ◌≡◌, refl, ap, ◌∙◌, sym, true, false, none, Bool-cases, Option-cases, inl, inr, ◌⊎◌,
}
use ticket_system.Domain.{Text}
use ticket_system.RateLimit.{Redis, Spelling, HeldSlot, peek_hold, consume_hold}
use ticket_system.Queue.Store.{Error, Env, Result, ok, err, is_ok}
use ticket_system.Queue.Book.{
  check_ticket_input, Checked, Db, WalkIn, SiteClock, create_ticket, Calendar, create_with, hold_at,
  take_hold,
}
use ticket_system.RateLimit.Laws.{TextLaws}
use ticket_system.RateLimit.Once.{consume_hold-once}

Checked-cases : (m : Result Checked) → ((c : Checked) × (m ≡ ok c)) ⊎ ((e : Error) × (m ≡ err e))
Checked-cases (ok c) = inl (c, refl)
Checked-cases (err e) = inr (e, refl)

module _ {S : Type 0} (redis : Redis S) (spell : Spelling) where
  take_hold-consumes :
      (env : Env) (session hold_id : Text) (at : ℕ) (slot : HeldSlot) (st : S)
      → (take_hold redis spell env session hold_id at st).0 ≡ ok slot
      → ((consume_hold redis env.now session hold_id slot st).0 ≡ true)
        × ((take_hold redis spell env session hold_id at st).1
            ≡ (consume_hold redis env.now session hold_id slot st).1)
  unfolding take_hold
  take_hold-consumes env session hold_id at slot st h =
      elim (Option-cases (hold_at redis spell at (peek_hold redis env.now session hold_id st))) [
        | inl gone ↦ cc (rw (gone, take_hold) at h)
        | inr (seen, there) ↦
            elim (Bool-cases (consume_hold redis env.now session hold_id seen st).0) [
              | inr lost ↦ cc (rw (there, lost, take_hold) at h)
              | inl done ↦
                  let same : seen ≡ slot = cc (rw (there, done, take_hold) at h) in
                  (
                    ap (λ x. (consume_hold redis env.now session hold_id x st).0) (sym same) ∙ done,
                    rw (there, take_hold)
                        (ap (λ x. (consume_hold redis env.now session hold_id x st).1) same),
                  )
            ]
      ]

  take_hold-gone :
      (env : Env) (session hold_id : Text) (at : ℕ) (st : S)
      → peek_hold redis env.now session hold_id st ≡ none
      → is_ok (take_hold redis spell env session hold_id at st).0 ≡ false
  unfolding take_hold
  take_hold-gone env session hold_id at st gone = rw (gone, take_hold) refl

  create_with-ok :
      (cal : Calendar) (clock : SiteClock) (env : Env) (i : WalkIn) (c : Checked) (db : Db)
      (m : Result HeldSlot × S)
      → is_ok (create_with redis spell cal clock env i c db m).0 ≡ true
      → (slot : HeldSlot) × (m.0 ≡ ok slot)
        × ((create_with redis spell cal clock env i c db m).1 ≡ m.1)
  unfolding create_with
  create_with-ok cal clock env i c db (ok slot, st) h = (slot, refl, refl)
  create_with-ok cal clock env i c db (err e, st) h = cc

  create_with-err :
      (cal : Calendar) (clock : SiteClock) (env : Env) (i : WalkIn) (c : Checked) (db : Db)
      (m : Result HeldSlot × S)
      → is_ok m.0 ≡ false
      → is_ok (create_with redis spell cal clock env i c db m).0 ≡ false
  unfolding create_with
  create_with-err cal clock env i c db (ok slot, st) h = cc
  create_with-err cal clock env i c db (err e, st) h = refl

  -- What a creation that succeeds did to the hold.
  create_ticket-taken :
      (cal : Calendar) (clock : SiteClock) (env : Env) (i : WalkIn) (session hold_id : Text)
      (db : Db) (st : S)
      → is_ok (create_ticket redis spell cal clock env i session hold_id db st).0 ≡ true
      → (slot : HeldSlot) × ((consume_hold redis env.now session hold_id slot st).0 ≡ true)
        × ((create_ticket redis spell cal clock env i session hold_id db st).1
            ≡ (consume_hold redis env.now session hold_id slot st).1)
  unfolding create_ticket
  create_ticket-taken cal clock env i session hold_id db st h =
      elim (Checked-cases (check_ticket_input i db)) [
        | inr (e, refused) ↦ cc (rw (refused, create_ticket) at h)
        | inl (c, checked) ↦
            let m = take_hold redis spell env session hold_id i.scheduled_at st in
            let (slot, held, stays) =
              create_with-ok cal clock env i c db m (rw (checked, create_ticket) at h) in
            let (consumed, becomes) =
              take_hold-consumes env session hold_id i.scheduled_at slot st held in
            (slot, consumed, rw (checked, create_ticket) (stays ∙ becomes))
      ]

  create_ticket-gone :
      (cal : Calendar) (clock : SiteClock) (env : Env) (i : WalkIn) (session hold_id : Text)
      (db : Db) (st : S)
      → peek_hold redis env.now session hold_id st ≡ none
      → is_ok (create_ticket redis spell cal clock env i session hold_id db st).0 ≡ false
  unfolding create_ticket
  create_ticket-gone cal clock env i session hold_id db st gone =
      elim (Checked-cases (check_ticket_input i db)) [
        | inr (e, refused) ↦ rw (refused, create_ticket) refl
        | inl (c, checked) ↦
            rw (checked, create_ticket)
              (create_with-err cal clock env i c db _
                (take_hold-gone env session hold_id i.scheduled_at st gone))
      ]

  -- A session's hold gives one ticket: after a ticket has been created, the session creates no other one, whatever hold it names, whatever it asks for and whatever the tables are by then, unless it holds a slot anew.
  pub create_ticket-once :
      (laws : TextLaws redis) (cal : Calendar) (clock : SiteClock) (env later : Env)
      (i other : WalkIn) (session hold_id other_id : Text) (db db' : Db) (st : S)
      → is_ok (create_ticket redis spell cal clock env i session hold_id db st).0 ≡ true
      → let after = (create_ticket redis spell cal clock env i session hold_id db st).1 in
        is_ok (create_ticket redis spell cal clock later other session other_id db' after).0 ≡ false
  create_ticket-once laws cal clock env later i other session hold_id other_id db db' st h =
      let (slot, consumed, becomes) = create_ticket-taken cal clock env i session hold_id db st h in
      create_ticket-gone cal clock later other session other_id db' _ (
        ap (λ after. peek_hold redis later.now session other_id after) becomes
        ∙ (consume_hold-once redis laws env.now later.now session hold_id other_id slot st
            consumed).0)
