-- ===== src/Controller/Asks.antt =====
-- What a request of a visitor asks of the tables, and which ticket the session has afterwards: the
-- specification of the routes.
use ticket_system.Base.{ℕ, Option, none, some, or_else, find, ◌==◌, if◌then◌else◌}
use ticket_system.Domain.{Ticket}
use ticket_system.RateLimit.{Redis, HeldSlot}
use ticket_system.RateLimit.Tickets.{
  Limited, accepted, wait, assert_can_create_ticket, clear_active_ticket,
}
use ticket_system.Queue.Store.{Db, Env, Result, ok, err}
use ticket_system.Queue.Retention.{terminal}
use ticket_system.Queue.Book.{take_hold, current_holds}
use ticket_system.Queue.Steps.{run, Operation}
use ticket_system.Queue.Views.{PublicTicket, lookup_ticket, mapped}
use ticket_system.Controller.{
  check_in_current, see_current, cancel_current, print_one, look_up, create_one, Request, is_filled,
  Answer, CreateBody, World, Visit, signed_out, ignored, gone, too_many, shown,
}

abbrev pub open_token : ℕ → Option Ticket → Option ℕ
open_token hash none = none
open_token hash (some t) = if terminal t.status then none else some hash

-- The token of the session, where its ticket is there and not over.
abbrev pub active_token : {S : Type 0} → World S → Option ℕ
active_token w = elim w.session.ticket_token_hash [
  | none ↦ none
  | some hash ↦ open_token hash (find (λ t. t.access_token_hash == hash) w.db.tickets)
]

-- An operation, or none.
abbrev pub applied : Env → Option Operation → Db → Db
applied env none db = db
applied env (some o) db = run env o db

-- A cancellation that is accepted takes the token away.
abbrev pub unless_gone : Answer → Option ℕ → Option ℕ
unless_gone gone token = none
unless_gone _ token = token

-- Where `create` shows a ticket, it is the active one or the new one.
abbrev pub token_created : Answer → Option ℕ → Option ℕ → ℕ → Option ℕ
token_created ignored token active hash = token
token_created (too_many seconds) token active hash = token
token_created (shown p) token active hash = or_else active (some hash)
token_created _ token active hash = none

abbrev pub token_looked_up : Result (PublicTicket × ℕ) → Option ℕ → Option ℕ
token_looked_up (ok (p, hash)) token = some hash
token_looked_up (err e) token = token

module _ {S : Type 0} (redis : Redis S) where
  -- The world without a token that is of no use.
  abbrev pub forgotten : Visit → World S → World S
  forgotten v w = elim w.session.ticket_token_hash [
    | none ↦ w
    | some hash ↦ record w {
      session = signed_out w.session;
      store = clear_active_ticket redis v.ip w.store;
    }
  ]

  abbrev pub asks_held : Visit → CreateBody → Result HeldSlot × S → Option Operation
  asks_held v b (err e, st) = none
  asks_held v b (ok slot, st) = some (
      Operation.create v.calendar v.clock (current_holds redis v.spell v.env.now st)
        (v.spell.uuid_of slot.desk_id) b.input)

  -- A visitor with a ticket asks for nothing, another one for a ticket on the hold of the session.
  abbrev pub asks_allowed : Visit → CreateBody → World S → Option Operation
  asks_allowed v b w = elim (active_token w) [
    | some hash ↦ none
    | none ↦ asks_held v b (
        take_hold redis v.spell v.env v.session_id b.hold_id b.input.scheduled_at
          (forgotten v w).store)
  ]

  abbrev pub asks_limited : Visit → CreateBody → World S → Limited × S → Option Operation
  asks_limited v b w (wait seconds, st) = none
  asks_limited v b w (accepted, st) = asks_allowed v b (record w { store = st })

  -- The operation that a request asks for.
  abbrev pub asks : Visit → Request → World S → Option Operation
  asks v (create_one b) w =
      if is_filled b.website
      then none
      else asks_limited v b w (assert_can_create_ticket redis v.env.now v.ip w.store)
  asks v (look_up number code) w = none
  asks v (print_one website i) w =
      if is_filled website
      then none
      else some (
          Operation.create_walk_in v.calendar v.clock
            (current_holds redis v.spell v.env.now w.store) i)
  asks v check_in_current w = mapped Operation.check_in (active_token w)
  asks v see_current w = none
  asks v cancel_current w = mapped Operation.cancel (active_token w)

-- The token of the session after a request and its answer.
abbrev pub token_after : {S : Type 0} → Visit → Request → Answer → World S → Option ℕ
token_after v (create_one b) a w =
    token_created a w.session.ticket_token_hash (active_token w) b.input.token_hash
token_after v (look_up number code) a w =
    token_looked_up (lookup_ticket v.view v.reader v.env number code w.db)
      w.session.ticket_token_hash
token_after v (print_one website i) a w = w.session.ticket_token_hash
token_after v check_in_current a w = active_token w
token_after v see_current a w = active_token w
token_after v cancel_current a w = unless_gone a (active_token w)
