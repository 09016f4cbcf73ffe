-- ===== src/Queue/Assign.antt =====
-- How a waiting ticket gets to a manager: `assignNext`, `assignSpecificTicket` and
-- `activeDeskAssignment` of queue.service.ts.
pub mod Pick
use ticket_system.Base.{
  ℕ, Bool, true, false, not, ◌&&◌, List, [], ◌∷◌, Option, none, some, ltb, ◌==◌, if◌then◌else◌,
  is_some, or_else, is_id, find, filter, row, any,
}
use ticket_system.Domain.{
  TicketStatus, EmployeeStatus, ClientCountry, available, reserved, includes, live_queue_statuses,
  is_country, Desk, Employee, Ticket, Assignment, desk_keyed,
}
use ticket_system.Domain
use ticket_system.Dispatch.{employee_work_country, dispatched_before, limit_one}
use ticket_system.Queue.Store.{
  Db, Env, EventKind, Result, ok, ◌>>=◌, save_ticket, save_employee, insert_assignment, event,
  is_active_of,
}

-- An employee as a query returns it: with the relations `site` and `desk` that it asked for.
pub record Loaded : Type 0 where
  pub employee : Employee
  pub site : Option ℕ
  pub desk : Option Desk

-- `relations: { site: true, desk: true }`.
abbrev pub load : Db → Employee → Loaded
load db e = record {
  employee = e;
  site = e.site;
  desk = elim e.desk [ none ↦ none | some d ↦ row d db.desks ];
}

-- No relations: both fields are `undefined`.
abbrev pub load_plain : Employee → Loaded
load_plain e = record { employee = e; site = none; desk = none }

abbrev pub work_country : Loaded → Option ClientCountry
work_country e = employee_work_country e.employee.country e.desk

abbrev pub is_active_at : ℕ → Assignment → Bool
is_active_at desk a = a.active && is_id a.desk desk

unfoldable pub active_desk_assignment : Db → ℕ → Option Assignment
active_desk_assignment db desk = find (is_active_at desk) db.assignments

abbrev pub contains : List ℕ → ℕ → Bool
contains xs n = any (λ x. x == n) xs

-- `if (employee.serviceTypeIds?.length) … IN (…)`.
abbrev pub serves : List ℕ → ℕ → Bool
serves [] service = true
serves (x ∷ xs) service = contains (x ∷ xs) service

-- The conditions of `baseQuery`, with the rows that `SKIP LOCKED` leaves.
unfoldable pub is_candidate : Env → Loaded → ClientCountry → Ticket → Bool
is_candidate env e country t =
    is_id e.site t.site
    && includes live_queue_statuses t.status
    && is_country t.country country
    && serves e.employee.service_type_ids t.service_type
    && not (env.locked t.id)

-- The two queries: a ticket reserved for the desk, or else any.
unfoldable pub pick_ticket : Env → Loaded → ClientCountry → ℕ → List Ticket → Option Ticket
pick_ticket env e country desk tickets =
    or_else
      (limit_one dispatched_before
        (filter (λ t. is_candidate env e country t && is_id t.reserved_desk desk) tickets))
      (limit_one dispatched_before (filter (is_candidate env e country) tickets))

-- What both assignments write: the ticket, the employee and a new assignment, and the event.
unfoldable pub hand_out : Env → Ticket → Employee → ℕ → Db → Result (Option Assignment × Db)
hand_out env ticket employee desk db =
    let assignment : Assignment = record {
      id = db.next_id;
      ticket = ticket.id;
      employee = employee.id;
      desk = some desk;
      active = true;
      assigned_at = env.now;
      called_at = none;
      started_at = none;
      completed_at = none;
    } in
    do
      db' ← insert_assignment assignment (
          save_employee (record employee { status = reserved })
            (save_ticket (record ticket { status = Domain.assigned }) db))
      ok (
        some assignment,
        event ticket.id (EventKind.assigned db.next_id employee.id) (some employee.oidc_subject)
            db',
      )

unfoldable pub assign_picked :
    Env → Employee → ℕ → Option Ticket → Db → Result (Option Assignment × Db)
assign_picked env employee desk none db = ok (none, db)
assign_picked env employee desk (some ticket) db = hand_out env ticket employee desk db

unfoldable pub assign_at_desk :
    Env → Loaded → ClientCountry → Desk → Db → Result (Option Assignment × Db)
unfolding assign_picked active_desk_assignment
assign_at_desk env e country desk db = elim (active_desk_assignment db desk.id) [
  | some busy ↦ ok (if busy.employee == e.employee.id then some busy else none, db)
  | none ↦ assign_picked env e.employee desk.id (pick_ticket env e country desk.id db.tickets) db
]

unfoldable pub assign_free :
    Env → Loaded → Option ClientCountry → Option Desk → Db → Result (Option Assignment × Db)
unfolding assign_at_desk
assign_free env e (some country) (some desk) db = assign_at_desk env e country desk db
assign_free env e (some country) none db = ok (none, db)
assign_free env e none desk db = ok (none, db)

unfoldable pub assign_next : Env → Loaded → Db → Result (Option Assignment × Db)
unfolding assign_free
assign_next env e db = elim (find (is_active_of e.employee.id) db.assignments) [
  | some existing ↦ ok (some existing, db)
  | none ↦ assign_free env e (work_country e) e.desk db
]

abbrev pub same_id : Option ℕ → Option ℕ → Bool
same_id none none = true
same_id (some a) (some b) = a == b
same_id _ _ = false

abbrev pub same_country : Option ClientCountry → Option ClientCountry → Bool
same_country none none = true
same_country (some a) c = is_country c a
same_country none (some c) = false

abbrev pub desk_id : Option Desk → Option ℕ
desk_id none = none
desk_id (some d) = some d.id

abbrev pub is_available : EmployeeStatus → Bool
is_available available = true
is_available _ = false

-- `order: { updatedAt: 'ASC' }`.
unfoldable pub insert_by : (ℕ → ℕ) → Employee → List Employee → List Employee
insert_by rank e [] = e ∷ []
insert_by rank e (x ∷ xs) =
    let rest = insert_by rank e xs in if ltb (rank x.id) (rank e.id) then x ∷ rest else e ∷ x ∷ xs

unfoldable pub order_by : (ℕ → ℕ) → List Employee → List Employee
unfolding insert_by
order_by rank [] = []
order_by rank (e ∷ es) = insert_by rank e (order_by rank es)

-- The first query finds a manager at the reserved desk, the second any of the site with a desk.
unfoldable pub match_employee : Db → Ticket → List Employee → Option Employee
match_employee db ticket employees =
    or_else
      (find
        (λ e.
          same_id (desk_id (load db e).desk) ticket.reserved_desk
          && same_country (work_country (load db e)) ticket.country)
        employees)
      (find
        (λ e.
          is_id e.site ticket.site
          && is_some (load db e).desk
          && same_country (work_country (load db e)) ticket.country)
        employees)

unfoldable pub assign_match :
    Env → Ticket → Employee → Option Desk → Db → Result (Option Assignment × Db)
unfolding active_desk_assignment
assign_match env ticket employee none db = ok (none, db)
assign_match env ticket employee (some desk) db = elim (active_desk_assignment db desk.id) [
  | some busy ↦ ok (none, db)
  | none ↦ hand_out env ticket employee desk.id db
]

unfoldable pub assign_matched :
    Env → Ticket → Option Employee → Db → Result (Option Assignment × Db)
unfolding assign_match
assign_matched env ticket none db = ok (none, db)
assign_matched env ticket (some e) db = assign_match env ticket e (load db e).desk db

unfoldable pub assign_specific_ticket : Env → Ticket → Db → Result (Option Assignment × Db)
unfolding assign_matched
assign_specific_ticket env ticket db =
    if includes live_queue_statuses ticket.status
    then assign_matched env ticket
        (match_employee db ticket
          (order_by env.updated_at (filter (λ e. is_available e.status) db.employees)))
        db
    else ok (none, db)
