-- ===== src/Queue/Sweep.antt =====
-- The timer of queue.service.ts: `markMissedAppointments`, `expireCalls`, `recoverBreakAssignments`
-- and `dispatchAvailable`. Each round of a loop is a transaction of its own where it is in the source.
pub mod Kept
pub mod Missed
use ticket_system.Base.{
  is_some, zero, suc, ◌==◌, leb, row, suc, ltb, find, if◌then◌else◌, ◌&&◌, Option, Bool, filter,
  List, ℕ, [], ◌∷◌, none, some, false, ◌+◌,
}
use ticket_system.Domain.{
  ticket_keyed, status_eq, TicketStatus, includes, Ticket, employee_keyed, assignment_keyed,
  Employee, Assignment, called, assigned, no_show, requeued, available,
}
use ticket_system.Rules.{auto_no_show_statuses, no_show_grace_ms}
use ticket_system.Queue.Store.{
  save_assignment, Db, Env, AuditAction, Result, ok, err, ◌>>=◌, save_ticket, audit, event,
  EventKind, is_active_on, set_employee_status_of,
}
use ticket_system.Queue.Assign.{
  is_available, work_country, order_by, load, assign_next, load, assign_next,
}
use ticket_system.Queue.Staff.{close}
use ticket_system.Queue.Desks.{is_away, release_assignment_for_break}

-- `scheduledAt: LessThanOrEqual(deadline)`; the deadline is an hour ago.
abbrev pub is_due : ℕ → Ticket → Bool
is_due now t =
    includes auto_no_show_statuses t.status
    && elim t.scheduled_at [ none ↦ false | some s ↦ leb (s + no_show_grace_ms) now ]

-- `take: 100`.
unfoldable pub take {ℓ} : {A : Type ℓ} → ℕ → List A → List A
take zero ts = []
take (suc n) [] = []
take (suc n) (t ∷ ts) = t ∷ take n ts

-- The loop over the active assignments of a missed ticket.
unfoldable pub close_all : Env → List Assignment → Db → Db
unfolding close
close_all env [] db = db
close_all env (a ∷ rest) db =
    close_all env rest
      (set_employee_status_of a.employee available (save_assignment (close env a) db))

-- One row of the sweep, read again under its lock.
unfoldable pub miss : Env → Option Ticket → Db → Db
unfolding close_all
miss env none db = db
miss env (some t) db =
    if is_due env.now t
    then (let db1 : Db = save_ticket (record t { status = no_show }) db in
        audit none (AuditAction.ticket_no_show (some t.status)) t.id (
          event t.id (EventKind.missed t.status) none
            (close_all env (filter (is_active_on t.id) db1.assignments) db1)))
    else db

unfoldable pub miss_all : Env → List Ticket → Db → Db
unfolding miss
miss_all env [] db = db
miss_all env (t ∷ ts) db = miss_all env ts (miss env (row t.id db.tickets) db)

unfoldable pub mark_missed_appointments : Env → Db → Db
unfolding miss_all take
mark_missed_appointments env db = miss_all env (take 100 (filter (is_due env.now) db.tickets)) db

-- A call that was not answered: the second time the client is missed, before that back in the queue.
abbrev pub after_call : Ticket → Ticket
after_call t =
    if leb 2 t.call_attempts
    then record t { status = no_show }
    else record t { status = requeued; priority = 0 }

unfoldable pub expire_ticket : Assignment → Option Ticket → Db → Db
expire_ticket a none db = db
expire_ticket a (some t) db =
    if status_eq t.status called
    then event t.id (EventKind.call_timeout (after_call t).status) none (
        set_employee_status_of a.employee available
          (save_ticket (after_call t) (save_assignment (record a { active = false }) db)))
    else db

-- One row of the sweep, read again under its lock.
unfoldable pub expire_call : Option Assignment → Db → Db
unfolding expire_ticket
expire_call none db = db
expire_call (some a) db = expire_ticket a (row a.ticket db.tickets) db

unfoldable pub expire_all : List Assignment → Db → Db
unfolding expire_call
expire_all [] db = db
expire_all (a ∷ rest) db =
    expire_all rest (expire_call (find (λ b. b.id == a.id && b.active) db.assignments) db)

abbrev pub ticket_status_of : Db → Assignment → Option TicketStatus
ticket_status_of db a = elim (row a.ticket db.tickets) [ none ↦ none | some t ↦ some t.status ]

abbrev pub has_status : List TicketStatus → Option TicketStatus → Bool
has_status ss none = false
has_status ss (some s) = includes ss s

abbrev pub before_time : Option ℕ → ℕ → Bool
before_time none t = false
before_time (some s) t = ltb s t

-- Active, called more than 90 seconds ago, and the ticket still called.
abbrev pub is_unanswered : Env → Db → Assignment → Bool
is_unanswered env db a =
    a.active
    && elim a.called_at [ none ↦ false | some s ↦ ltb (s + 90000) env.now ]
    && has_status (called ∷ []) (ticket_status_of db a)

unfoldable pub expire_calls : Env → Db → Db
unfolding expire_all
expire_calls env db = expire_all (filter (is_unanswered env db) db.assignments) db

abbrev pub employee_away : Db → Assignment → Bool
employee_away db a = elim (row a.employee db.employees) [ none ↦ false | some e ↦ is_away e.status ]

abbrev pub is_stale : Db → Assignment → Bool
is_stale db a =
    a.active && employee_away db a && has_status (assigned ∷ called ∷ []) (ticket_status_of db a)

-- The transaction of one stale assignment. An exception ends the whole sweep.
unfoldable pub recover_for : Env → Assignment → Option Employee → Db → Result Db
recover_for env a none db = ok db
recover_for env a (some e) db =
    if is_away e.status
    then release_assignment_for_break env a e.oidc_subject e.status db
    else ok db

unfoldable pub recover : Env → Option Assignment → Db → Result Db
unfolding recover_for
recover env none db = ok db
recover env (some a) db = recover_for env a (row a.employee db.employees) db

-- A round of a loop of transactions: an exception undoes the round and ends the loop.
abbrev pub next_round : Db → Result Db → (Db → Db × Result (Unit {0})) → Db × Result (Unit {0})
next_round db (ok db') rest = rest db'
next_round db (err e) rest = (db, err e)

-- What a loop of transactions leaves, and whether it came to its end.
unfoldable pub recover_all : Env → List Assignment → Db → Db × Result (Unit {0})
unfolding recover
recover_all env [] db = (db, ok tt)
recover_all env (a ∷ rest) db =
    next_round db (recover env (find (λ b. b.id == a.id && b.active) db.assignments) db)
      (recover_all env rest)

unfoldable pub recover_break_assignments : Env → Db → Db × Result (Unit {0})
unfolding recover_all
recover_break_assignments env db = recover_all env (filter (is_stale db) db.assignments) db

-- The transaction of one free employee, read again under its lock.
unfoldable pub dispatch_one : Env → Option Employee → Db → Result Db
dispatch_one env none db = ok db
dispatch_one env (some e) db =
    if is_available e.status then assign_next env (load db e) db >>= (λ r. ok r.1) else ok db

abbrev pub can_work : Db → Employee → Bool
can_work db e = is_some (work_country (load db e)) && is_some (load db e).desk

unfoldable pub dispatch_all : Env → List Employee → Db → Db × Result (Unit {0})
unfolding dispatch_one
dispatch_all env [] db = (db, ok tt)
dispatch_all env (e ∷ es) db =
    next_round db (dispatch_one env (row e.id db.employees) db) (dispatch_all env es)

unfoldable pub dispatch_rest : Env → Db × Result (Unit {0}) → Db × Result (Unit {0})
dispatch_rest env (db, ok r) = (expire_calls env db, ok tt)
dispatch_rest env (db, err x) = (db, err x)

-- The employees are loaded, and those who cannot work passed over, before the loop.
unfoldable pub dispatch_recovered : Env → Db × Result (Unit {0}) → Db × Result (Unit {0})
unfolding dispatch_all dispatch_rest take
dispatch_recovered env (db, err x) = (db, err x)
dispatch_recovered env (db, ok r) = dispatch_rest env (
    dispatch_all env
      (filter (can_work db)
        (take 100 (order_by env.updated_at (filter (λ e. is_available e.status) db.employees))))
      db)

unfoldable pub dispatch_available : Env → Db → Db × Result (Unit {0})
unfolding dispatch_recovered
dispatch_available env db = dispatch_recovered env (recover_break_assignments env db)
