-- ===== src/Queue/Desks.antt =====
-- Breaks, desks and directions of the employees: `setEmployeeStatus`, `assignEmployeeDesk`,
-- `assignSelfDesk`, `updateEmployeeCountry`, `deleteDesk` of queue.service.ts, and the private
-- methods that release an assignment on the way.
pub mod Alone
pub mod Taken
use ticket_system.Base.{
  [], ◌∷◌, or_else, is_id, filter, ◌||◌, is_some, false, ◌&&◌, true, if◌then◌else◌, none, ◌∷◌, ◌==◌,
  some, Bool, not, row, find, Option, List, ℕ,
}
use ticket_system.Domain.{
  is_country, Assignment, EmployeeStatus, Employee, Role, requeued, paused, offline, reserved, busy,
  admin, desk_keyed, employee_keyed, ticket_keyed, assignment_keyed,
}
use ticket_system.Queue.Store.{
  Db, Env, EventKind, AuditAction, Result, ok, ◌>>=◌, ◌>>◌, guard, require, bad_request, conflict,
  not_found, save_ticket, save_assignment, save_employee, event, audit, is_active_of,
  set_employee_status_of, transaction,
}
use ticket_system.Queue.Assign.{is_available, load, assign_next}
use ticket_system.Queue.Staff.{SessionUser, with_employee, close}
use ticket_system.Rules.{can_release_on_break, blocks_break}

-- `['PAUSED', 'OFFLINE'].includes(status)`.
abbrev pub is_away : EmployeeStatus → Bool
is_away paused = true
is_away offline = true
is_away _ = false

abbrev pub is_serving : EmployeeStatus → Bool
is_serving reserved = true
is_serving busy = true
is_serving _ = false

abbrev pub is_admin : Role → Bool
is_admin admin = true
is_admin _ = false

-- A called client goes back into the queue; a client who is being served forbids the break.
unfoldable pub release_assignment_for_break : Env → Assignment → ℕ → EmployeeStatus → Db → Result Db
unfolding close
release_assignment_for_break env a subject reason db = do
  ticket ← require (row a.ticket db.tickets) not_found
  guard (not (blocks_break ticket.status)) conflict
  if not (can_release_on_break ticket.status)
      then ok (save_assignment (close env a) db)
      else ok (
          event ticket.id (EventKind.released reason) (some subject) (
            save_assignment (close env a)
              (save_ticket (record ticket { status = requeued; priority = 0 }) db)))

unfoldable pub release_found : Env → EmployeeStatus → ℕ → ℕ → Option Assignment → Db → Result Db
unfolding close
release_found env next employee_id subject none db = ok db
release_found env next employee_id subject (some a) db = do
  ticket ← require (row a.ticket db.tickets) not_found
  guard (not (blocks_break ticket.status)) conflict
  db' ←
      (if can_release_on_break ticket.status
        then release_assignment_for_break env a subject paused db
        else ok (save_assignment (close env a) db))
  ok (set_employee_status_of employee_id next db')

-- The two methods differ in the status that the employee is left with.
unfoldable pub release_employee_for_country_change : Env → ℕ → ℕ → Db → Result Db
unfolding release_found
release_employee_for_country_change env employee_id subject db =
    release_found env offline employee_id subject (find (is_active_of employee_id) db.assignments)
      db

unfoldable pub release_employee_assignments_for_desk_change : Env → ℕ → ℕ → Db → Result Db
unfolding release_found
release_employee_assignments_for_desk_change env employee_id subject db =
    release_found env paused employee_id subject (find (is_active_of employee_id) db.assignments) db

abbrev pub leave_desk : Option Employee → Db → Db
leave_desk none db = db
leave_desk (some e) db = save_employee (record e { desk = none }) db

unfoldable pub detach_employee_desk : Env → ℕ → ℕ → Db → Result Db
detach_employee_desk env employee_id subject db = do
  db' ← release_employee_assignments_for_desk_change env employee_id subject db
  ok (leave_desk (row employee_id db'.employees) db')

-- The loop over the employees who sit at the desk.
unfoldable pub detach_others : Env → ℕ → ℕ → List Employee → Db → Result Db
detach_others env employee_id subject [] db = ok db
detach_others env employee_id subject (e ∷ es) db =
    let rest = detach_others env employee_id subject es in
    if e.id == employee_id then rest db else (detach_employee_desk env e.id subject db >>= rest)

-- The employee was loaded without its desk, so that `employee.desk?.id !== deskId` always holds.
unfoldable pub take_desk : Env → ℕ → Employee → ℕ → Db → Result Db
unfolding detach_others
take_desk env subject employee desk_id db = do
  desk ← require (find (λ d. d.id == desk_id && d.active) db.desks) not_found
  guard (not (is_some employee.country) || is_country employee.country desk.country) bad_request
  alone ← detach_others env employee.id subject (filter (λ e. is_id e.desk desk_id) db.employees) db
  freed ← release_employee_assignments_for_desk_change env employee.id subject alone
  assignee ← require (row employee.id freed.employees) not_found
  ok (
      save_employee
        (record assignee {
          desk = some desk.id;
          country = some desk.country;
          site = or_else assignee.site (some desk.site);
        })
        freed)

unfoldable pub change_desk : Env → ℕ → Employee → Option ℕ → Db → Result Db
unfolding take_desk
change_desk env subject employee none db = detach_employee_desk env employee.id subject db
change_desk env subject employee (some desk) db = take_desk env subject employee desk db

-- The body of the transaction of `assignEmployeeDesk`.
unfoldable pub seat_employee : Env → ℕ → ℕ → Option ℕ → Db → Result (Employee × Db)
unfolding change_desk
seat_employee env subject employee_id desk db = do
  employee ← require (row employee_id db.employees) not_found
  db' ← change_desk env subject employee desk db
  updated ← require (row employee_id db'.employees) not_found
  ok (updated, audit (some subject) (AuditAction.employee_desk_assigned desk) updated.id db')

unfoldable pub assign_employee_desk : Env → ℕ → ℕ → Option ℕ → Db → Db × Result Employee
assign_employee_desk env subject employee_id desk =
    transaction (seat_employee env subject employee_id desk)

unfoldable pub assign_self_desk : Env → SessionUser → Option ℕ → Db → Db × Result Employee
unfolding with_employee
assign_self_desk env user desk db =
    with_employee user (λ e db'. seat_employee env user.subject e.id desk db') db

-- A pause gives the client back; another status but `available` waits for the end of the work.
unfoldable pub leave_work : Env → ℕ → EmployeeStatus → Option Assignment → Db → Result Db
leave_work env subject status none db = ok db
leave_work env subject status (some a) db =
    if is_away status
    then release_assignment_for_break env a subject status db
    else (guard (is_available status) conflict >> ok db)

-- The new status, the first ticket of an employee who becomes available, and the audit.
unfoldable pub enter_status :
    Env → Employee → ℕ → EmployeeStatus → Db → Result ((Employee × Option Assignment) × Db)
enter_status env employee subject status db = do
  let e : Employee = record employee { status = status }
  (assignment, db') ←
      (if is_available status
        then assign_next env (load db e) (save_employee e db)
        else ok (none, save_employee e db))
  ok (
    (e, assignment),
    audit (some subject) (AuditAction.employee_status_changed status) employee.id db',
  )

unfoldable pub change_employee_status :
    Env → Employee → ℕ → EmployeeStatus → Db → Result ((Employee × Option Assignment) × Db)
change_employee_status env current subject status db = do
  employee ← require (row current.id db.employees) not_found
  guard (not (is_available status && not (is_some (load db employee).desk))) bad_request
  left ← leave_work env subject status (find (is_active_of employee.id) db.assignments) db
  enter_status env employee subject status left

unfoldable pub set_employee_status :
    Env → SessionUser → EmployeeStatus → Db → Db × Result (Employee × Option Assignment)
unfolding with_employee
set_employee_status env user status db =
    with_employee user (λ e db'. change_employee_status env e user.subject status db') db
