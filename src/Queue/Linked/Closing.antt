-- ===== src/Queue/Linked/Closing.antt =====
-- What `assignmentAction` gives back, and when it succeeds.
use ticket_system.Base.{
  count_zero-find, count-put, refl, ℕ, ◌≡◌, true, false, Option, none, some, arith, find, row, put,
  is_some, Bool-cases, inl, inr, find-passes,
}
use ticket_system.Domain.{
  Employee, Assignment, Ticket, TicketStatus, ClientCountry, ticket_keyed, assignment_keyed,
  employee_keyed,
}
use ticket_system.Rules.{AssignmentAction, next_ticket_status}
use ticket_system.Queue.Store.{
  ◌>>=◌, require, AuditAction, EventKind, Db, Env, Result, ok, is_ok, not_found, bad_request, event,
  audit, is_active_of, save_ticket, save_assignment, save_employee,
}
use ticket_system.Queue.Assign.{load_plain, assign_next, assign_free, work_country}
use ticket_system.Queue.Staff.{
  act_on, is_own, record_action, next_assignment, is_closing, act_on_ticket, act_on_assignment,
  act_on_employee,
}
use ticket_system.Queue.Holds.{Holds, require-Holds}
use ticket_system.Queue.Linked.{IsLinked, assignment_row}

-- An employee without relations and without a client is handed nothing.
plain_none :
    (env : Env) (e : Employee) (db : Db)
    → find (is_active_of e.id) db.assignments ≡ none
    → assign_next env (load_plain e) db ≡ ok (none, db)
unfolding assign_next assign_free
plain_none env e db free = rw (free, assign_next) (no_desk (work_country (load_plain e)))
  where
    no_desk : (c : Option ClientCountry) → assign_free env (load_plain e) c none db ≡ ok (none, db)
    no_desk none = refl
    no_desk (some c) = refl

closed_none :
    (a a' : Assignment) (e : ℕ) (db : Db)
    → IsLinked db
    → row a.id db.assignments ≡ some a
    → is_active_of e a ≡ true
    → a'.id ≡ a.id
    → a'.active ≡ false
    → find (is_active_of e) (put a' db.assignments) ≡ none
closed_none a a' e db v found on same closed =
    count_zero-find (is_active_of e) (put a' db.assignments)
      (ground (arith, count-put (is_active_of e) a' a db.assignments, v.single e))

closing_ends :
    (env : Env) (action : AssignmentAction) (a : Assignment)
    → is_closing action ≡ true
    → (act_on_assignment env action a).active ≡ false
unfolding act_on_assignment
closing_ends env action a h = ground arith

acts_on_same :
    (env : Env) (action : AssignmentAction) (a : Assignment)
    → (act_on_assignment env action a).id ≡ a.id
unfolding act_on_assignment
acts_on_same env action a = ground arith

employee_same : (action : AssignmentAction) (e : Employee) → (act_on_employee action e).id ≡ e.id
unfolding act_on_employee
employee_same action e = ground arith

record_action-none :
    (env : Env) (subject : ℕ) (action : AssignmentAction) (id : ℕ) (a : Assignment) (e : Employee)
    (db : Db)
    → is_closing action ≡ true
    → find (is_active_of e.id) db.assignments ≡ none
    → Holds (λ r. r.0.1 ≡ none) (record_action env subject action id a e db)
unfolding record_action next_assignment event audit
record_action-none env subject action id a e db closing free =
    rw
      (
        closing,
        plain_none env e
            (audit (some subject) (AuditAction.assignment_acted action id) a.id
              (event id (EventKind.acted action) (some subject) db))
            free,
      )
      refl

-- On linked tables an action that ends the work of a manager never hands the manager another ticket: where it succeeds, the assignment it returns is none.
pub act_on_closing :
    (env : Env) (e : Employee) (subject id : ℕ) (action : AssignmentAction) (db : Db)
    → IsLinked db
    → is_closing action ≡ true
    → Holds (λ r. r.0.1 ≡ none) (act_on env e subject id action db)
unfolding act_on
act_on_closing env e subject id action db v closing =
    require-Holds {B = (Assignment × Option Assignment) × Db} (λ r. r.0.1 ≡ none)
      (find (is_own id e.id) db.assignments) not_found _
      λ a has.
        require-Holds {B = (Assignment × Option Assignment) × Db} (λ r. r.0.1 ≡ none)
          (row a.ticket db.tickets) not_found _
          λ t there.
            require-Holds {B = (Assignment × Option Assignment) × Db} (λ r. r.0.1 ≡ none)
              (next_ticket_status t.status action (is_some t.scheduled_at)) bad_request _
              λ next n.
                record_action-none env subject action t.id (act_on_assignment env action a)
                  (act_on_employee action e)
                  (save_employee (act_on_employee action e) (
                    save_assignment (act_on_assignment env action a)
                      (save_ticket (act_on_ticket action next t) db)))
                  closing
                  (rw (employee_same action e) (
                    closed_none a (act_on_assignment env action a) e.id db v
                      (assignment_row v _ a has)
                      (ground (arith, find-passes (is_own id e.id) db.assignments a has))
                      (acts_on_same env action a) (closing_ends env action a closing)))

record_action-is_ok :
    (env : Env) (subject : ℕ) (action : AssignmentAction) (id : ℕ) (a : Assignment) (e : Employee)
    (db : Db)
    → (is_closing action ≡ true → find (is_active_of e.id) db.assignments ≡ none)
    → is_ok (record_action env subject action id a e db) ≡ true
unfolding record_action next_assignment event audit
record_action-is_ok env subject action id a e db free = elim (Bool-cases (is_closing action)) [
  | inl closing ↦
      rw
        (
          closing,
          plain_none env e
              (audit (some subject) (AuditAction.assignment_acted action id) a.id
                (event id (EventKind.acted action) (some subject) db))
              (free closing),
        )
        refl
  | inr keeps ↦ rw keeps refl
]

require-is_ok :
    {A : Type 0}
    → (o : Option TicketStatus) (f : TicketStatus → Result A)
    → ((s : TicketStatus) → is_ok (f s) ≡ true)
    → is_ok (require o bad_request >>= f) ≡ is_some o
require-is_ok none f h = refl
require-is_ok (some s) f h = h s

-- On linked tables, an action on an active assignment of the caller whose ticket is there succeeds exactly where the lifecycle has a next status for it.
pub act_on-next_ticket_status :
    (env : Env) (e : Employee) (subject id : ℕ) (action : AssignmentAction) (db : Db)
    (a : Assignment) (t : Ticket)
    → IsLinked db
    → find (is_own id e.id) db.assignments ≡ some a
    → row a.ticket db.tickets ≡ some t
    → is_ok (act_on env e subject id action db)
      ≡ is_some (next_ticket_status t.status action (is_some t.scheduled_at))
unfolding act_on
act_on-next_ticket_status env e subject id action db a t v has there =
    rw (has, there)
      (require-is_ok (next_ticket_status t.status action (is_some t.scheduled_at)) _ λ next.
        record_action-is_ok env subject action t.id (act_on_assignment env action a)
          (act_on_employee action e)
          (save_employee (act_on_employee action e) (
            save_assignment (act_on_assignment env action a)
              (save_ticket (act_on_ticket action next t) db)))
          λ closing. rw (employee_same action e) (
            closed_none a (act_on_assignment env action a) e.id db v (assignment_row v _ a has)
              (ground (arith, find-passes (is_own id e.id) db.assignments a has))
              (acts_on_same env action a) (closing_ends env action a closing)))
