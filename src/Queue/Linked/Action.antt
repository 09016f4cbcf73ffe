-- ===== src/Queue/Linked/Action.antt =====
-- A manager's action on an assignment keeps the tables linked.
use ticket_system.Base.{
  refl, find-passes, Option, is_some, inr, arith, inl, not, ◌==◌, true, Bool-cases, row, find, ◌≡◌,
  ℕ, Bool, some,
}
use ticket_system.Domain.{
  Assignment, Employee, TicketStatus, Ticket, ticket_keyed, assignment_keyed, employee_keyed,
}
use ticket_system.Rules.{
  next_ticket_status, AssignmentAction, call, start, complete, requeue, mark_no_show,
}
use ticket_system.Queue.Linked.{
  in_progress-holding, is_active_on, Db, in_progress, IsLinked, finish, ticket_row, assignment_row,
  held_in_progress, keep_ticket, keep_assignment,
}
use ticket_system.Queue.Holds.{Holds, require-Holds, bind-Holds}
use ticket_system.Queue.Staff.{
  record_action, is_own, act_on, act_on_ticket, act_on_assignment, act_on_employee, next_assignment,
  is_closing,
}
use ticket_system.Queue.Store.{
  EventKind, save_ticket, bad_request, AuditAction, save_assignment, not_found, audit, event, Env,
}
use ticket_system.Queue.Linked.Hand.{assign_next-IsLinked}
use ticket_system.Queue.Assign.{load_plain}

-- An action that keeps the assignment keeps the client with the manager, and a closing one does not.
next_in_progress :
    (s t : TicketStatus) (a : AssignmentAction) (slot : Bool)
    → in_progress s ≡ true
    → next_ticket_status s a slot ≡ some t
    → in_progress t ≡ not (is_closing a)
unfolding next_ticket_status
next_in_progress s t a slot h k = ground arith

module _ (env : Env) (t : Ticket) (a : Assignment) (db : Db) (v : IsLinked db)
    (there : row t.id db.tickets ≡ some t) (found : row a.id db.assignments ≡ some a)
    (on : is_active_on t.id a ≡ true) where
  written-IsLinked :
      (action : AssignmentAction) (next : TicketStatus)
      → next_ticket_status t.status action (is_some t.scheduled_at) ≡ some next
      → IsLinked (
          save_assignment
            (act_on_assignment env action a)
            (save_ticket (act_on_ticket action next t) db))
  unfolding act_on_assignment act_on_ticket
  written-IsLinked call next n =
      keep_assignment
        (keep_ticket v t _ there refl refl
          (λ _. in_progress-holding t.status (held_in_progress v t a there found on))
          (ground (
            arith,
            held_in_progress v t a there found on,
            next_in_progress t.status next call (is_some t.scheduled_at),
          )))
        a _ found refl refl refl refl
  written-IsLinked start next n =
      keep_assignment
        (keep_ticket v t _ there refl refl
          (λ _. in_progress-holding t.status (held_in_progress v t a there found on))
          (ground (
            arith,
            held_in_progress v t a there found on,
            next_in_progress t.status next start (is_some t.scheduled_at),
          )))
        a _ found refl refl refl refl
  written-IsLinked complete next n =
      finish v t _ a _ there refl refl
        (ground (
          arith,
          held_in_progress v t a there found on,
          next_in_progress t.status next complete (is_some t.scheduled_at),
        ))
        found on refl refl
  written-IsLinked requeue next n = finish v t _ a _ there refl refl refl found on refl refl
  written-IsLinked mark_no_show next n =
      finish v t _ a _ there refl refl
        (ground (
          arith,
          held_in_progress v t a there found on,
          next_in_progress t.status next mark_no_show (is_some t.scheduled_at),
        ))
        found on refl refl

next_assignment-IsLinked :
    (env : Env) (action : AssignmentAction) (a : Assignment) (e : Employee) (db : Db)
    → IsLinked db
    → Holds (λ r. IsLinked r.1) (next_assignment env action a e db)
unfolding next_assignment
next_assignment-IsLinked env action a e db v = elim (Bool-cases (is_closing action)) [
  | inl closing ↦ rw closing (assign_next-IsLinked env (load_plain e) db v)
  | inr keeps ↦ rw keeps v
]

record_action-IsLinked :
    (env : Env) (subject : ℕ) (action : AssignmentAction) (id : ℕ) (a : Assignment) (e : Employee)
    (db : Db)
    → IsLinked db
    → Holds (λ r. IsLinked r.1) (record_action env subject action id a e db)
unfolding record_action event audit
record_action-IsLinked env subject action id a e db v =
    bind-Holds {B = (Assignment × Option Assignment) × Db} (λ r. IsLinked r.1) (λ r. IsLinked r.1)
      (next_assignment env action a e (
        audit (some subject) (AuditAction.assignment_acted action id) a.id
          (event id (EventKind.acted action) (some subject) db)))
      _ (next_assignment-IsLinked env action a e _ v) λ r w. w

own_on_ticket :
    (id e : ℕ) (a : Assignment) (t : Ticket) (db : Db)
    → find (is_own id e) db.assignments ≡ some a
    → row a.ticket db.tickets ≡ some t
    → is_active_on t.id a ≡ true
own_on_ticket id e a t db has there = ground (
  arith,
  find-passes (is_own id e) db.assignments a has,
  find-passes (λ (u : Ticket). u.id == a.ticket) db.tickets t there,
)

pub act_on-IsLinked :
    (env : Env) (e : Employee) (subject id : ℕ) (action : AssignmentAction) (db : Db)
    → IsLinked db
    → Holds (λ r. IsLinked r.1) (act_on env e subject id action db)
unfolding act_on
act_on-IsLinked env e subject id action db v =
    require-Holds {B = (Assignment × Option Assignment) × Db} (λ r. IsLinked r.1)
      (find (is_own id e.id) db.assignments) not_found _
      λ a has.
        require-Holds {B = (Assignment × Option Assignment) × Db} (λ r. IsLinked r.1)
          (row a.ticket db.tickets) not_found _
          λ t there.
            require-Holds {B = (Assignment × Option Assignment) × Db} (λ r. IsLinked r.1)
              (next_ticket_status t.status action (is_some t.scheduled_at)) bad_request _
              λ next n.
                record_action-IsLinked env subject action t.id (act_on_assignment env action a)
                  (act_on_employee action e) _
                  (written-IsLinked env t a db v (ticket_row v _ t there) (assignment_row v _ a has)
                    (own_on_ticket id e.id a t db has there) action next n)
