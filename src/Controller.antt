-- ===== src/Controller.antt =====
-- apps/api/src/queue/queue.controller.ts: the routes of a client's own ticket. A session keeps the
-- ticket of a visitor; a route changes the session, the tables and Redis. The random secrets of a
-- ticket come with the request, and the session middleware stores what a route leaves.
pub mod Asks
pub mod Cooldown
pub mod Creates
pub mod Current
pub mod Steps
mod Tests
use ticket_system.Base.{
  ℕ, Bool, true, false, List, [], ◌∷◌, Option, none, some, ◌==◌, find, limit, if◌then◌else◌,
}
use ticket_system.Domain.{Assignment, Text, Ticket}
use ticket_system.Person.{trim, is_empty}
use ticket_system.RateLimit.{Redis, Spelling}
use ticket_system.RateLimit.Tickets.{
  Limited, accepted, wait, assert_can_create_ticket, record_ticket_cancelled, bind_active_ticket,
  clear_active_ticket,
}
use ticket_system.Booking.{Calendar}
use ticket_system.Queue.Store.{Db, Env, Error, Result, ok, err}
use ticket_system.Queue.WalkIn.{create_walk_in_ticket, SiteClock, WalkIn}
use ticket_system.Queue.Book.{current_holds, create_ticket}
use ticket_system.Queue.Manager.{check_in_by_hash, cancel_ticket_by_hash}
use ticket_system.Queue.Retention.{terminal}
use ticket_system.Queue.Views.{
  ViewEnv, PublicTicket, CodeReader, get_queue_meta, to_public, service_name_of, label_of,
  get_public_ticket_by_hash, lookup_ticket,
}

-- The fields of `request.session` that these routes use; a history that is not there is empty.
pub record Session : Type 0 where
  pub ticket_token_hash : Option ℕ
  pub lookup_code : Option Text
  pub ticket_history : List ℕ

-- What a route works on.
pub record World (S : Type 0) : Type 0 where
  pub session : Session
  pub db : Db
  pub store : S

-- The body of `POST tickets`; `website` is the field that no person fills in.
pub record CreateBody : Type 0 where
  pub website : Option Text
  pub input : WalkIn
  pub hold_id : Text
  pub code : Text

-- `null` is `nothing`.
pub data Answer : Type 0 where
  ignored nothing gone : Answer
  too_many : ℕ → Answer
  refused : Error → Answer
  shown : PublicTicket → Answer
  noted : Text → Text → Answer

-- What the routes take from the runtime, the request's address and the identifier of its session.
pub record Visit : Type 0 where
  pub view : ViewEnv
  pub reader : CodeReader
  pub calendar : Calendar
  pub clock : SiteClock
  pub spell : Spelling
  pub env : Env
  pub ip : Text
  pub session_id : Text

-- A ticket that could be read, and is not over.
abbrev pub live_view : Result PublicTicket → Option PublicTicket
live_view (err e) = none
live_view (ok p) = if terminal p.status then none else some p

abbrev pub signed_out : Session → Session
signed_out s = record s { ticket_token_hash = none; lookup_code = none }

-- The history keeps the last thirty.
abbrev pub signed_in : ℕ → Text → Session → Session
signed_in hash code s = record {
  ticket_token_hash = some hash;
  lookup_code = some code;
  ticket_history = limit 30 (hash ∷ s.ticket_history);
}

abbrev pub is_filled : Option Text → Bool
is_filled none = false
is_filled (some []) = false
is_filled (some (c ∷ cs)) = true

-- The answer of the service about a ticket that it has just saved.
abbrev pub saved_view : Visit → Option Text → Ticket → Db → PublicTicket
saved_view v code t db =
    to_public v.view v.env t (service_name_of db t) (label_of db t.reserved_desk)
      (get_queue_meta t db.tickets) none code

-- `checkInByHash` answers with the ticket as it has been saved.
abbrev pub checked_view : Visit → ℕ → Db → Answer
checked_view v hash db = elim (find (λ t. t.access_token_hash == hash) db.tickets) [
  | none ↦ refused Error.not_found
  | some t ↦ shown (saved_view v none t db)
]

abbrev pub with_code : Option Text → PublicTicket → PublicTicket
with_code code p = record p { lookup_code = code }

module _ {S : Type 0} (redis : Redis S) where
  -- The session's ticket, and the world without it where it is over or not there.
  unfoldable pub found_active :
      Visit → ℕ → Option PublicTicket → World S → Option (ℕ × PublicTicket) × World S
  found_active v hash (some p) w = (some (hash, p), w)
  found_active v hash none w = (
    none,
    record w { session = signed_out w.session; store = clear_active_ticket redis v.ip w.store },
  )

  unfoldable pub find_active_ticket : Visit → World S → Option (ℕ × PublicTicket) × World S
  unfolding get_public_ticket_by_hash found_active
  find_active_ticket v w = elim w.session.ticket_token_hash [
    | none ↦ (none, w)
    | some hash ↦
        found_active v hash (live_view (get_public_ticket_by_hash v.view v.env hash w.db)) w
  ]

  -- The end of `create`, after the service.
  unfoldable pub created :
      Visit → CreateBody → World S → Result (Ticket × Db) × S → Answer × World S
  created v b w (err e, st) = (refused e, record w { store = st })
  created v b w (ok (t, db), st) = (
    shown (saved_view v (some b.code) t db),
    record {
      session = signed_in t.access_token_hash b.code w.session;
      db = db;
      store = bind_active_ticket redis v.env.now v.ip st;
    },
  )

  unfoldable pub create_allowed :
      Visit → CreateBody → Option (ℕ × PublicTicket) × World S → Answer × World S
  unfolding created
  create_allowed v b (some (hash, p), w) = (shown p, w)
  create_allowed v b (none, w) = created v b w (
      create_ticket redis v.spell v.calendar v.clock v.env b.input v.session_id b.hold_id w.db
        w.store)

  unfoldable pub create_limited : Visit → CreateBody → World S → Limited × S → Answer × World S
  unfolding find_active_ticket create_allowed
  create_limited v b w (wait seconds, st) = (too_many seconds, record w { store = st })
  create_limited v b w (accepted, st) =
      create_allowed v b (find_active_ticket v (record w { store = st }))

  unfoldable pub create : Visit → CreateBody → World S → Answer × World S
  unfolding create_limited
  create v b w =
      if is_filled b.website
      then (ignored, w)
      else create_limited v b w (assert_can_create_ticket redis v.env.now v.ip w.store)

  unfoldable pub lookup : Visit → Text → Text → World S → Answer × World S
  unfolding lookup_ticket
  lookup v number code w = elim (lookup_ticket v.view v.reader v.env number code w.db) [
    | err e ↦ (refused e, w)
    | ok (p, hash) ↦
        (shown p, record w { session = signed_in hash (v.reader.upper (trim code)) w.session })
  ]

  unfoldable pub after_check_in :
      Visit → ℕ → World S → Result (Option Assignment × Db) → Answer × World S
  after_check_in v hash w (err e) = (refused e, w)
  after_check_in v hash w (ok (a, db)) = (checked_view v hash db, record w { db = db })

  unfoldable pub checked : Visit → Option (ℕ × PublicTicket) × World S → Answer × World S
  unfolding after_check_in
  checked v (none, w) = (nothing, w)
  checked v (some (hash, p), w) = after_check_in v hash w (check_in_by_hash v.env hash w.db)

  unfoldable pub check_in : Visit → World S → Answer × World S
  unfolding find_active_ticket checked
  check_in v w = checked v (find_active_ticket v w)

  unfoldable pub shown_current : Option (ℕ × PublicTicket) × World S → Answer × World S
  shown_current (none, w) = (nothing, w)
  shown_current (some (hash, p), w) = (shown (with_code w.session.lookup_code p), w)

  unfoldable pub current : Visit → World S → Answer × World S
  unfolding find_active_ticket shown_current
  current v w = shown_current (find_active_ticket v w)

  unfoldable pub after_cancel : Visit → World S → Result (Unit {0} × Db) → Answer × World S
  after_cancel v w (err e) = (refused e, w)
  after_cancel v w (ok (done, db)) = (
    gone,
    record {
      session = signed_out w.session;
      db = db;
      store = clear_active_ticket redis v.ip (record_ticket_cancelled redis v.env.now v.ip w.store);
    },
  )

  unfoldable pub dropped : Visit → Option (ℕ × PublicTicket) × World S → Answer × World S
  unfolding after_cancel
  dropped v (none, w) = (nothing, w)
  dropped v (some (hash, p), w) = after_cancel v w (cancel_ticket_by_hash v.env hash w.db)

  unfoldable pub cancel : Visit → World S → Answer × World S
  unfolding find_active_ticket dropped
  cancel v w = dropped v (find_active_ticket v w)

module _ {S : Type 0} (redis : Redis S) where
  -- A ticket that is printed at a kiosk belongs to no session.
  unfoldable pub after_walk_in : Visit → WalkIn → World S → Result (Ticket × Db) → Answer × World S
  after_walk_in v i w (err e) = (refused e, w)
  after_walk_in v i w (ok (t, db)) =
      (noted t.number (v.view.scheduled_label i.scheduled_at), record w { db = db })

  unfoldable pub walk_in : Visit → Option Text → WalkIn → World S → Answer × World S
  unfolding after_walk_in
  walk_in v website i w =
      if is_filled website
      then (ignored, w)
      else after_walk_in v i w (
          create_walk_in_ticket v.calendar v.clock (current_holds redis v.spell v.env.now w.store)
            v.env i w.db)

-- The requests about tickets.
pub data Request : Type 0 where
  create_one : CreateBody → Request
  look_up : Text → Text → Request
  print_one : Option Text → WalkIn → Request
  check_in_current see_current cancel_current : Request

module _ {S : Type 0} (redis : Redis S) where
  unfoldable pub handle : Visit → Request → World S → Answer × World S
  handle v (create_one b) w = create redis v b w
  handle v (look_up number code) w = lookup redis v number code w
  handle v (print_one website i) w = walk_in redis v website i w
  handle v check_in_current w = check_in redis v w
  handle v see_current w = current redis v w
  handle v cancel_current w = cancel redis v w
