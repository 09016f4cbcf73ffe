-- ===== src/Queue/Staff.antt =====
-- What an employee does with tickets: `ensureEmployee`, `setTicketStatus` and `assignmentAction` of
-- queue.service.ts.
use ticket_system.Base.{
  any, is_id, or_else, true, ◌||◌, ◌&&◌, not, row, false, ℕ, ◌+◌, Bool, [], ◌∷◌, ◌++◌, Option, none,
  some, ◌==◌, if◌then◌else◌, is_some, find,
}
use ticket_system.Domain.{
  reserved, busy, in_service, available, assigned, called, requeued, booked, no_show, cancelled,
  checked_in, status_eq, completed, Ticket, includes, Assignment, TicketStatus, Text, offline, Role,
  Site, Employee, ticket_keyed, assignment_keyed, employee_keyed,
}
use ticket_system.Queue.Store.{
  EventKind, event, bad_request, forbidden, AuditAction, audit, is_active_of, guard, ◌>>◌,
  save_assignment, save_ticket, insert_assignment, is_active_on, transaction, entity_not_found, Env,
  err, Db, Result, ok, ◌>>=◌, require, not_found, save_employee,
}
use ticket_system.Queue.Assign.{Loaded, load, load_plain, assign_next, desk_id}
use ticket_system.Dispatch.{manager_in_progress_statuses}
use ticket_system.Rules.{call, start, requeue, next_ticket_status, AssignmentAction}
use ticket_system.Presentation.Manager.{validate_manager_status_change}
use ticket_system.Presentation.{ticket_kind}

pub record SessionUser : Type 0 where
  pub subject : ℕ
  pub display_name : Text
  pub is_admin : Bool

-- An employee with no site is given an active one, and an unknown subject a row of its own. These
-- writes go through the data source, not through a transaction that may be open around the call.
unfoldable pub give_site : Employee → Option Site → Db → Employee × Db
give_site e none db = (e, db)
give_site e (some site) db =
    let e' : Employee = record e { site = some site.id } in (e', save_employee e' db)

unfoldable pub new_employee : SessionUser → Site → ℕ → Employee
new_employee user site id = record {
  id = id;
  oidc_subject = user.subject;
  display_name = user.display_name;
  role = if user.is_admin then Role.admin else Role.employee;
  status = offline;
  site = some site.id;
  desk = none;
  country = none;
  service_type_ids = [];
}

abbrev pub active_site : Db → Option Site
active_site db = find (λ s. s.active) db.sites

unfoldable pub found_or_new : SessionUser → Option Employee → Db → Result (Employee × Db)
unfolding give_site new_employee
found_or_new user (some e) db =
    ok (if is_some e.site then (e, db) else give_site e (active_site db) db)
found_or_new user none db = do
  site ← require (active_site db) entity_not_found
  let e : Employee = new_employee user site db.next_id
  ok (e, record db { employees = db.employees ++ e ∷ []; next_id = db.next_id + 1 })

unfoldable pub ensure_employee : SessionUser → Db → Result (Employee × Db)
unfolding found_or_new
ensure_employee user db =
    found_or_new user (find (λ e. e.oidc_subject == user.subject) db.employees) db

unfoldable pub close : Env → Assignment → Assignment
close env a = record a { active = false; completed_at = some env.now }

-- Closes an assignment; its manager is free.
unfoldable pub release_with : Env → Assignment → Option Employee → Db → Option Loaded × Db
unfolding close
release_with env a none db = (none, save_assignment (close env a) db)
release_with env a (some e) db = (
  some (load db (record e { status = available })),
  save_employee (record e { status = available }) (save_assignment (close env a) db),
)

-- Closes the active assignment of a ticket; its manager is loaded with desk and site.
unfoldable pub release_active : Env → ℕ → Db → Option Loaded × Db
unfolding release_with
release_active env ticket_id db = elim (find (is_active_on ticket_id) db.assignments) [
  | none ↦ (none, db)
  | some a ↦ release_with env a (row a.employee db.employees) db
]

-- The columns that a status set by hand brings with it.
unfoldable pub set_status_fields : Env → TicketStatus → Ticket → Ticket
set_status_fields env status t =
    let t1 : Ticket = record t { status = status } in
    let t2 : Ticket =
      if status_eq status checked_in && not (is_some t1.checked_in_at)
      then record t1 { checked_in_at = some env.now; priority = 1 }
      else t1 in
    if status_eq status requeued || status_eq status booked then record t2 { priority = 0 } else t2

-- The manager takes the client: a new assignment, or the times of the one that is there.
unfoldable pub take_over : Env → Loaded → Ticket → TicketStatus → Option Assignment → Db → Result Db
take_over env e t status none db = do
  db' ←
      insert_assignment
        (record {
          id = db.next_id;
          ticket = t.id;
          employee = e.employee.id;
          desk = desk_id e.desk;
          active = true;
          assigned_at = env.now;
          called_at = some env.now;
          started_at = if status_eq status in_service then some env.now else none;
          completed_at = none;
        })
        db
  ok (
      save_employee
        (record e.employee { status = if status_eq status in_service then busy else reserved }) db')
take_over env e t status (some a) db = ok (
    save_employee
      (record e.employee { status = if status_eq status in_service then busy else reserved })
      (save_assignment
        (record a {
          called_at = or_else a.called_at (some env.now);
          started_at = if status_eq status in_service then some env.now else a.started_at;
        })
        db))

-- Whether a status set by hand ends the work of a manager on the ticket.
abbrev pub ends_work : TicketStatus → TicketStatus → Bool
ends_work previous status =
    includes (completed ∷ cancelled ∷ no_show ∷ booked ∷ requeued ∷ []) status
    || (status_eq status checked_in && includes (called ∷ assigned ∷ []) previous)

-- A manager who was freed takes the next ticket, unless this one went back into the queue.
unfoldable pub dispatch_freed : Env → TicketStatus → Option Loaded → Db → Result Db
dispatch_freed env status none db = ok db
dispatch_freed env status (some e) db =
    if not (status_eq status requeued) && is_some e.desk
    then assign_next env e db >>= (λ r. ok r.1)
    else ok db

-- `assignment?.employee?.id && assignment.employee.id !== employee.id`.
abbrev pub held_by_other : Option Assignment → ℕ → Bool
held_by_other none e = false
held_by_other (some a) e = not (a.employee == e)

-- The log of the change, and the next ticket of a manager who was freed.
unfoldable pub record_status :
    Env → ℕ → Ticket → TicketStatus → TicketStatus → Option Loaded → Db → Result (Ticket × Db)
record_status env subject t previous status freed db = do
  db' ← dispatch_freed env status freed (
      audit (some subject) (AuditAction.ticket_status_set previous status) t.id
        (event t.id (EventKind.status_set previous status) (some subject) db))
  ok (t, db')

-- The part of `setTicketStatus` that writes.
unfoldable pub write_status : Env → Loaded → ℕ → Ticket → TicketStatus → Db → Result (Ticket × Db)
write_status env e subject ticket status db = do
  let t : Ticket = set_status_fields env status ticket
  taken ←
      (if includes manager_in_progress_statuses status
        then take_over env e t status (find (is_active_on ticket.id) db.assignments)
            (save_ticket t db)
        else ok (save_ticket t db))
  let (freed, released) =
      (if ends_work ticket.status status then release_active env ticket.id taken else (none, taken))
  record_status env subject t ticket.status status freed released

-- Another manager has the client, before the change or after it.
abbrev pub is_taken : Db → Loaded → Ticket → TicketStatus → Bool
is_taken db e t status =
    held_by_other (find (is_active_on t.id) db.assignments) e.employee.id
    && (includes manager_in_progress_statuses t.status
        || includes manager_in_progress_statuses status)

-- The manager would have a second client.
abbrev pub has_other_client : Db → Loaded → Ticket → TicketStatus → Bool
has_other_client db e t status =
    includes manager_in_progress_statuses status
    && any (λ a. is_active_of e.employee.id a && not (a.ticket == t.id)) db.assignments

unfoldable pub apply_status : Env → Loaded → ℕ → Ticket → TicketStatus → Db → Result (Ticket × Db)
apply_status env e subject ticket status db =
    if status_eq ticket.status status
    then ok (ticket, db)
    else (guard (not (has_other_client db e ticket status)) bad_request
        >> write_status env e subject ticket status db)

-- The checks of `setTicketStatus`, in their order.
unfoldable pub change_status : Env → Loaded → ℕ → Ticket → TicketStatus → Db → Result (Ticket × Db)
change_status env e subject ticket status db = do
  guard (not (is_some e.site) || is_id e.site ticket.site) forbidden
  guard
      (not (
        is_some
          (validate_manager_status_change (ticket_kind ticket.scheduled_at) ticket.status status)))
      bad_request
  guard (not (is_taken db e ticket status)) forbidden
  apply_status env e subject ticket status db

-- The caller is looked up, or made, after the ticket has been found.
unfoldable pub with_employee {ℓ} :
    {A : Type ℓ} → SessionUser → (Employee → Db → Result (A × Db)) → Db → Db × Result A
with_employee user body db = elim (ensure_employee user db) [
  | err e ↦ (db, err e)
  | ok (e, db') ↦ transaction (body e) db'
]

unfoldable pub set_ticket_status : Env → SessionUser → ℕ → TicketStatus → Db → Db × Result Ticket
unfolding with_employee
set_ticket_status env user ticket_id status db = elim (row ticket_id db.tickets) [
  | none ↦ (db, err not_found)
  | some ticket ↦
      with_employee user (λ e db'. change_status env (load db' e) user.subject ticket status db') db
]

unfoldable pub act_on_ticket : AssignmentAction → TicketStatus → Ticket → Ticket
act_on_ticket call next t = record t { status = next; call_attempts = t.call_attempts + 1 }
act_on_ticket requeue next t = record t { status = requeued; priority = 0 }
act_on_ticket _ next t = record t { status = next }

unfoldable pub act_on_assignment : Env → AssignmentAction → Assignment → Assignment
act_on_assignment env call a = record a { called_at = some env.now }
act_on_assignment env start a = record a { started_at = some env.now }
act_on_assignment env _ a = record a { active = false; completed_at = some env.now }

unfoldable pub act_on_employee : AssignmentAction → Employee → Employee
act_on_employee call e = e
act_on_employee start e = record e { status = busy }
act_on_employee _ e = record e { status = available }

-- `['COMPLETE', 'REQUEUE', 'NO_SHOW'].includes(action)`.
abbrev pub is_closing : AssignmentAction → Bool
is_closing call = false
is_closing start = false
is_closing _ = true

-- The employee of the assignment is loaded with no relations.
unfoldable pub next_assignment :
    Env → AssignmentAction → Assignment → Employee → Db → Result (Option Assignment × Db)
next_assignment env action a e db =
    if is_closing action then assign_next env (load_plain e) db else ok (some a, db)

-- The log of an action, and what the manager has next.
unfoldable pub record_action :
    Env
    → ℕ
    → AssignmentAction
    → ℕ
    → Assignment
    → Employee
    → Db
    → Result ((Assignment × Option Assignment) × Db)
record_action env subject action ticket_id a e db = do
  (after, db') ← next_assignment env action a e (
      audit (some subject) (AuditAction.assignment_acted action ticket_id) a.id
        (event ticket_id (EventKind.acted action) (some subject) db))
  ok ((a, after), db')

-- The assignment must be active and of the caller.
abbrev pub is_own : ℕ → ℕ → Assignment → Bool
is_own assignment_id e a = a.id == assignment_id && is_active_of e a

-- `assignmentAction`, where the caller is known. The result is the assignment and the next one.
unfoldable pub act_on :
    Env → Employee → ℕ → ℕ → AssignmentAction → Db → Result ((Assignment × Option Assignment) × Db)
act_on env e subject assignment_id action db = do
  a ← require (find (is_own assignment_id e.id) db.assignments) not_found
  ticket ← require (row a.ticket db.tickets) not_found
  next ← require (next_ticket_status ticket.status action (is_some ticket.scheduled_at)) bad_request
  record_action env subject action ticket.id (act_on_assignment env action a)
      (act_on_employee action e)
      (save_employee (act_on_employee action e) (
        save_assignment (act_on_assignment env action a)
          (save_ticket (act_on_ticket action next ticket) db)))

unfoldable pub assignment_action :
    Env → SessionUser → ℕ → AssignmentAction → Db → Db × Result (Assignment × Option Assignment)
unfolding with_employee
assignment_action env user assignment_id action db =
    with_employee user (λ e db'. act_on env e user.subject assignment_id action db') db
