-- ===== src/Queue/Linked/Staff.antt =====
-- What managers do with tickets keeps the tables linked.
use ticket_system.Base.{
  ==_refl, any-false-find, any, true, is_id, ◌||◌, is_some, ◌&&◌, not, refl, Bool-cases, ℕ, Option,
  find-passes, arith, inr, inl, Option-cases, find, false, ◌≡◌, row, none, some,
}
use ticket_system.Domain.{
  status_code, requeued, status_eq, Employee, TicketStatus, Assignment, Ticket, called, completed,
  ticket_keyed, assignment_keyed, employee_keyed,
}
use ticket_system.Presentation.Moves.{
  stays, calls_booked, calls_waiting, calls_checked_in, calls_requeued, completes_assigned,
  completes_called, completes_served, ManagerMove, validate_manager_status_change-ManagerMove,
  stays, calls_booked, calls_waiting, calls_checked_in, calls_requeued, completes_assigned,
  completes_called, completes_served,
}
use ticket_system.Queue.Linked.{
  place, holding, is_active_of, free_of_waiting, is_active_on, Db, in_progress, IsLinked, finish,
  assignment_row, keep_ticket, not_held, begin,
}
use ticket_system.Queue.Holds.{Holds, guard-Holds, bind-Holds}
use ticket_system.Queue.Staff.{
  is_taken, has_other_client, apply_status, record_status, release_with, release_active, close,
  write_status, change_status, take_over, dispatch_freed, set_status_fields,
}
use ticket_system.Queue.Store.{
  EventKind, AuditAction, bad_request, forbidden, insert_assignment, audit, event, save_ticket,
  save_assignment, Env,
}
use ticket_system.Queue.Assign.{assign_next, Loaded}
use ticket_system.Queue.Linked.Hand.{assign_next-IsLinked}
use ticket_system.Presentation.Manager.{validate_manager_status_change}
use ticket_system.Presentation.{ticket_kind}

release_with-IsLinked :
    (env : Env) (a : Assignment) (o : Option Employee) (db : Db)
    → IsLinked (save_assignment (close env a) db)
    → IsLinked (release_with env a o db).1
unfolding release_with
release_with-IsLinked env a none db v = v
release_with-IsLinked env a (some e) db v = v

-- A ticket that has left the progress is released.
release_active-IsLinked :
    (env : Env) (t t' : Ticket) (db : Db)
    → IsLinked db
    → row t.id db.tickets ≡ some t
    → t'.id ≡ t.id
    → place t' ≡ place t
    → in_progress t'.status ≡ false
    → (holding t'.status ≡ true → holding t.status ≡ true)
    → IsLinked (release_active env t.id (save_ticket t' db)).1
unfolding release_active close
release_active-IsLinked env t t' db v there same stands out lives =
    elim (Option-cases (find (is_active_on t.id) db.assignments)) [
      | inl free ↦
          rw (free, release_active)
            (keep_ticket v t t' there same stands lives (ground (arith, not_held v t there free)))
      | inr (a, has) ↦
          rw (has, release_active)
            (release_with-IsLinked env a (row a.employee db.employees) (save_ticket t' db) (
              finish v t t' a _ there same stands out (assignment_row v _ a has)
                (find-passes (is_active_on t.id) db.assignments a has) refl refl))
    ]

dispatch_freed-IsLinked :
    (env : Env) (s : TicketStatus) (o : Option Loaded) (db : Db)
    → IsLinked db
    → Holds IsLinked (dispatch_freed env s o db)
unfolding dispatch_freed
dispatch_freed-IsLinked env s none db v = v
dispatch_freed-IsLinked env s (some e) db v =
    elim (Bool-cases (not (status_eq s requeued) && is_some e.desk)) [
      | inl go ↦ rw go (
          bind-Holds IsLinked (λ r. IsLinked r.1) (assign_next env e db) _
            (assign_next-IsLinked env e db v) λ r w. w)
      | inr stay ↦ rw stay v
    ]

record_status-IsLinked :
    (env : Env) (subject : ℕ) (t : Ticket) (from to : TicketStatus) (freed : Option Loaded)
    (db : Db)
    → IsLinked db
    → Holds (λ r. IsLinked r.1) (record_status env subject t from to freed db)
unfolding record_status event audit
record_status-IsLinked env subject t from to freed db v =
    bind-Holds {B = Ticket × Db} (λ r. IsLinked r.1) IsLinked
      (dispatch_freed env to freed (
        audit (some subject) (AuditAction.ticket_status_set from to) t.id
          (event t.id (EventKind.status_set from to) (some subject) db)))
      _ (dispatch_freed-IsLinked env to freed _ v) λ db' w. w

-- A client whom a manager has is completed.
write_completed-IsLinked :
    (env : Env) (e : Loaded) (subject : ℕ) (t : Ticket) (db : Db)
    → IsLinked db
    → row t.id db.tickets ≡ some t
    → Holds (λ r. IsLinked r.1) (write_status env e subject t completed db)
unfolding write_status set_status_fields
write_completed-IsLinked env e subject t db v there =
    record_status-IsLinked env subject (record t { status = completed }) t.status completed _ _
      (release_active-IsLinked env t (record t { status = completed }) db v there refl refl refl
        λ h. cc)

take_over_waiting-IsLinked :
    (env : Env) (e : Loaded) (t t' : Ticket) (s : TicketStatus) (db : Db)
    → IsLinked db
    → row t.id db.tickets ≡ some t
    → t'.id ≡ t.id
    → place t' ≡ place t
    → holding t.status ≡ true
    → in_progress t.status ≡ false
    → in_progress t'.status ≡ true
    → Holds IsLinked (take_over env e t' s none (save_ticket t' db))
unfolding take_over insert_assignment
take_over_waiting-IsLinked env e t t' s db v there same stands lives waits goes =
    elim (Bool-cases
      (any (λ b. is_active_on t'.id b || is_active_of e.employee.id b) db.assignments)) [
        | inl twice ↦ rw twice tt
        | inr fresh ↦ rw fresh (
            begin v t t' _ there same stands lives waits goes refl refl same (
              any-false-find (is_active_on t'.id) (is_active_of e.employee.id) db.assignments
                fresh))
      ]

-- A waiting client is called.
write_called-IsLinked :
    (env : Env) (e : Loaded) (subject : ℕ) (t : Ticket) (db : Db)
    → IsLinked db
    → row t.id db.tickets ≡ some t
    → holding t.status ≡ true
    → in_progress t.status ≡ false
    → Holds (λ r. IsLinked r.1) (write_status env e subject t called db)
unfolding write_status set_status_fields
write_called-IsLinked env e subject t db v there lives waits =
    let t' : Ticket = record t { status = called } in
    rw (free_of_waiting v t there waits, write_status)
      (bind-Holds {B = Ticket × Db} (λ r. IsLinked r.1) IsLinked
        (take_over env e t' called none (save_ticket t' db))
        (λ db'. record_status env subject t' t.status called none db')
        (take_over_waiting-IsLinked env e t t' called db v there refl refl lives waits refl)
        λ db' w. record_status-IsLinked env subject t' t.status called none db' w)

by_move-IsLinked :
    (env : Env) (e : Loaded) (subject : ℕ) (t : Ticket) (db : Db) {from to : TicketStatus}
    → IsLinked db
    → row t.id db.tickets ≡ some t
    → t.status ≡ from
    → ManagerMove from to
    → status_eq from to ≡ false
    → Holds (λ r. IsLinked r.1) (write_status env e subject t to db)
by_move-IsLinked env e subject t db v there e0 (stays {s}) d =
    absurd (ground (arith, ==_refl (status_code s)))
by_move-IsLinked env e subject t db v there e0 calls_booked d =
    write_called-IsLinked env e subject t db v there (rw e0 refl) (rw e0 refl)
by_move-IsLinked env e subject t db v there e0 calls_waiting d =
    write_called-IsLinked env e subject t db v there (rw e0 refl) (rw e0 refl)
by_move-IsLinked env e subject t db v there e0 calls_checked_in d =
    write_called-IsLinked env e subject t db v there (rw e0 refl) (rw e0 refl)
by_move-IsLinked env e subject t db v there e0 calls_requeued d =
    write_called-IsLinked env e subject t db v there (rw e0 refl) (rw e0 refl)
by_move-IsLinked env e subject t db v there e0 completes_assigned d =
    write_completed-IsLinked env e subject t db v there
by_move-IsLinked env e subject t db v there e0 completes_called d =
    write_completed-IsLinked env e subject t db v there
by_move-IsLinked env e subject t db v there e0 completes_served d =
    write_completed-IsLinked env e subject t db v there

apply_status-IsLinked :
    (env : Env) (e : Loaded) (subject : ℕ) (t : Ticket) (s : TicketStatus) (db : Db)
    → IsLinked db
    → row t.id db.tickets ≡ some t
    → validate_manager_status_change (ticket_kind t.scheduled_at) t.status s ≡ none
    → Holds (λ r. IsLinked r.1) (apply_status env e subject t s db)
unfolding apply_status
apply_status-IsLinked env e subject t s db v there valid =
    elim (Bool-cases (status_eq t.status s)) [
      | inl same ↦ rw same v
      | inr differs ↦ rw differs (
          guard-Holds {B = Ticket × Db} (λ r. IsLinked r.1) (not (has_other_client db e t s))
            bad_request (write_status env e subject t s db)
            λ _.
              by_move-IsLinked env e subject t db v there refl
                ((validate_manager_status_change-ManagerMove _ t.status s).0 valid) differs)
    ]

is_none_of : {A : Type 0} (o : Option A) → not (is_some o) ≡ true → o ≡ none
is_none_of none h = refl
is_none_of (some a) h = cc

pub change_status-IsLinked :
    (env : Env) (e : Loaded) (subject : ℕ) (t : Ticket) (s : TicketStatus) (db : Db)
    → IsLinked db
    → row t.id db.tickets ≡ some t
    → Holds (λ r. IsLinked r.1) (change_status env e subject t s db)
unfolding change_status
change_status-IsLinked env e subject t s db v there =
    guard-Holds {B = Ticket × Db} (λ r. IsLinked r.1) (not (is_some e.site) || is_id e.site t.site)
      forbidden _
      λ _.
        guard-Holds {B = Ticket × Db} (λ r. IsLinked r.1)
          (not (is_some (validate_manager_status_change (ticket_kind t.scheduled_at) t.status s)))
          bad_request _
          λ valid.
            guard-Holds {B = Ticket × Db} (λ r. IsLinked r.1) (not (is_taken db e t s)) forbidden
              (apply_status env e subject t s db)
              λ _. apply_status-IsLinked env e subject t s db v there (is_none_of _ valid)
