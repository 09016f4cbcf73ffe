-- ===== src/Controller/Creates.antt =====
-- The route that creates a ticket, and all routes together.
use ticket_system.Base.{◌∙◌, ℕ, ◌≡◌, refl, Bool-cases, Option, none, some, sym, ap, inl, inr}
use ticket_system.Domain.{Ticket}
use ticket_system.RateLimit.{Redis, HeldSlot}
use ticket_system.RateLimit.Tickets.{Limited, accepted, wait, assert_can_create_ticket}
use ticket_system.Queue.Store.{Db, Result, ok, err}
use ticket_system.Queue.Holds.{Holds}
use ticket_system.Queue.Book.{
  Checked, check_ticket_input, create_with, create_held, create_ticket, take_hold, current_holds,
  book_held,
}
use ticket_system.Queue.Steps.{run, Operation}
use ticket_system.Queue.Views.{lookup_ticket}
use ticket_system.Controller.Current.{IsTicketOf, create_ticket-IsTicketOf}
use ticket_system.Controller.Asks.{
  active_token, applied, token_created, forgotten, asks_held, asks_allowed, asks_limited, asks,
  token_after,
}
use ticket_system.Controller.{
  Error, check_in_current, see_current, cancel_current, print_one, look_up, create_one, Request,
  is_filled, handle, Answer, create, CreateBody, World, find_active_ticket, create_allowed,
  create_limited, created, Visit,
}
use ticket_system.Controller.Steps.{
  kept, kept-transaction, find_active_ticket-cases, check_in-applied, cancel-applied,
  current-active_token, walk_in-applied, looked,
}

module _ {S : Type 0} (redis : Redis S) where
  -- The transaction on a hold is the operation that was asked for.
  held-run :
      (v : Visit) (b : CreateBody) (c : Checked) (db : Db) (m : Result HeldSlot × S)
      → check_ticket_input b.input db ≡ ok c
      → kept (create_with redis v.spell v.calendar v.clock v.env b.input c db m).0 db
        ≡ applied v.env (asks_held redis v b m) db
  unfolding create_with run create_held
  held-run v b c db (err e, st) passed = refl
  held-run v b c db (ok slot, st) passed =
      let holds = current_holds redis v.spell v.env.now st in
      let desk = v.spell.uuid_of slot.desk_id in
      sym (
        kept-transaction (create_held v.calendar v.clock holds v.env b.input desk) db
          (book_held v.calendar v.clock holds v.env b.input desk c.person c.site c.service db)
          (rw (passed, create_held) refl))

  failed-run :
      (v : Visit) (b : CreateBody) (e : Error) (db : Db) (m : Result HeldSlot × S)
      → check_ticket_input b.input db ≡ err e
      → db ≡ applied v.env (asks_held redis v b m) db
  unfolding run create_held
  failed-run v b e db (err _, st) failed = refl
  failed-run v b e db (ok slot, st) failed =
      let holds = current_holds redis v.spell v.env.now st in
      let desk = v.spell.uuid_of slot.desk_id in
      sym (
        kept-transaction (create_held v.calendar v.clock holds v.env b.input desk) db (err e)
          (rw (failed, create_held) refl))

  create_ticket-run :
      (v : Visit) (b : CreateBody) (db : Db) (st : S)
      → kept
          (create_ticket redis v.spell v.calendar v.clock v.env b.input v.session_id b.hold_id db
            st).0
          db
        ≡ applied v.env
            (asks_held redis v b
              (take_hold redis v.spell v.env v.session_id b.hold_id b.input.scheduled_at st))
            db
  unfolding create_ticket
  create_ticket-run v b db st = by_input (check_ticket_input b.input db) refl
    where
      by_input :
          (m : Result Checked)
          → check_ticket_input b.input db ≡ m
          → kept
              (create_ticket redis v.spell v.calendar v.clock v.env b.input v.session_id b.hold_id
                db st).0
              db
            ≡ applied v.env
                (asks_held redis v b
                  (take_hold redis v.spell v.env v.session_id b.hold_id b.input.scheduled_at st))
                db
      by_input (err e) failed =
          rw (failed, create_ticket)
            (failed-run v b e db
              (take_hold redis v.spell v.env v.session_id b.hold_id b.input.scheduled_at st) failed)
      by_input (ok c) passed =
          rw (passed, create_ticket)
            (held-run v b c db
              (take_hold redis v.spell v.env v.session_id b.hold_id b.input.scheduled_at st) passed)

  -- The end of `create`, for a visitor without a ticket.
  created-lem :
      (v : Visit) (b : CreateBody) (w : World S) (token : Option ℕ) (m : Result (Ticket × Db) × S)
      → Holds (IsTicketOf b.input.token_hash) m.0
      → w.session.ticket_token_hash ≡ none
      → ((created redis v b w m).1.db ≡ kept m.0 w.db)
        × ((created redis v b w m).1.session.ticket_token_hash
            ≡ token_created (created redis v b w m).0 token none b.input.token_hash)
  unfolding created
  created-lem v b w token (err e, st) h out = (refl, out)
  created-lem v b w token (ok (t, db), st) (there, same, status) out = (refl, ap some same)

  -- What `create` has done, in a world that it found.
  abbrev Does : Visit → CreateBody → World S → Option Operation → Answer × World S → Type 0
  Does v b w o (answer, after) =
      (after.db ≡ applied v.env o w.db)
      × (after.session.ticket_token_hash
          ≡ token_created answer w.session.ticket_token_hash (active_token w) b.input.token_hash)

  create_allowed-Does :
      (v : Visit) (b : CreateBody) (w : World S)
      → Does v b w
          (asks_allowed redis v b w)
          (create_allowed redis v b (find_active_ticket redis v w))
  unfolding create_allowed
  create_allowed-Does v b w = elim (find_active_ticket-cases redis v w) [
    | inl (hash, p, found, active, token) ↦ rw (found, active, asks_allowed) (refl, token)
    | inr (missing, none_active, no_token, same) ↦
        let lost = forgotten redis v w in
        let made =
          create_ticket redis v.spell v.calendar v.clock v.env b.input v.session_id b.hold_id
            lost.db lost.store in
        let (tables, session) =
          created-lem v b lost w.session.ticket_token_hash made
            (create_ticket-IsTicketOf redis v b.input b.hold_id lost.db lost.store) no_token in
        rw (missing, none_active, asks_allowed)
          (
            tables
                ∙ create_ticket-run v b lost.db lost.store
                ∙ ap
                    (applied v.env (
                      asks_held redis v b (
                        take_hold redis v.spell v.env v.session_id b.hold_id b.input.scheduled_at
                          lost.store)))
                    same,
            session,
          )
  ]

  create_limited-Does :
      (v : Visit) (b : CreateBody) (w : World S) (l : Limited × S)
      → Does v b w (asks_limited redis v b w l) (create_limited redis v b w l)
  unfolding create_limited
  create_limited-Does v b w (wait seconds, st) = (refl, refl)
  create_limited-Does v b w (accepted, st) = create_allowed-Does v b (record w { store = st })

  create-Does :
      (v : Visit) (b : CreateBody) (w : World S)
      → Does v b w (asks redis v (create_one b) w) (create redis v b w)
  unfolding create
  create-Does v b w = elim (Bool-cases (is_filled b.website)) [
    | inl robot ↦ rw robot (refl, refl)
    | inr person ↦
        rw person
          (create_limited-Does v b w (assert_can_create_ticket redis v.env.now v.ip w.store))
  ]

  -- A request of a visitor changes the tables exactly by the operation that it asks for, and not at all where it asks for none: `create` asks for a ticket on the visitor's hold, where the hidden field is empty, the limit lets the visitor through, the session has no open ticket and the hold can be taken; a check-in and a cancellation ask for that of the session's open ticket; the kiosk asks for a walk-in ticket, where the hidden field is empty. And the session is left with this token: after a check-in or a look at the ticket, that of the open ticket or none; after a cancellation the same, and none where it was accepted; after `create` what was there where the visitor was turned away by the field or the limit, else that of the open ticket or of the new one, and none where creation was refused; after a lookup that of the ticket found; else what was there.
  pub handle-run :
      (v : Visit) (r : Request) (w : World S)
      → ((handle redis v r w).1.db ≡ applied v.env (asks redis v r w) w.db)
        × ((handle redis v r w).1.session.ticket_token_hash
            ≡ token_after v r (handle redis v r w).0 w)
  unfolding handle
  handle-run v (create_one b) w = create-Does v b w
  handle-run v (look_up number code) w =
      looked redis v number code w (lookup_ticket v.view v.reader v.env number code w.db) refl
  handle-run v (print_one website i) w = walk_in-applied redis v website i w
  handle-run v check_in_current w = check_in-applied redis v w
  handle-run v see_current w = current-active_token redis v w
  handle-run v cancel_current w = cancel-applied redis v w
