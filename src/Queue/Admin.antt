-- ===== src/Queue/Admin.antt =====
-- What an administrator changes: `updateEmployeeCountry` and `deleteDesk` of queue.service.ts.
use ticket_system.Base.{
  ◌==◌, map, filter, any, ◌&&◌, not, row, is_id, put, Option, Bool, if◌then◌else◌, List, ℕ, none,
  some, true, false,
}
use ticket_system.Domain.{
  is_country, country_eq, Assignment, ClientCountry, desk_keyed, employee_keyed, Employee, Desk,
}
use ticket_system.Queue.Store.{
  Db, Env, AuditAction, Result, ok, err, ◌>>=◌, ◌>>◌, guard, require, bad_request, conflict,
  not_found, save_employee, audit, is_active_of, transaction, foreign_key,
}
use ticket_system.Queue.Desks.{
  is_admin, is_serving, leave_desk, release_employee_for_country_change,
}

-- A desk of the other direction is given up, and with it the client who was called to it.
unfoldable pub leave_country : Env → ℕ → Employee → Option Desk → ClientCountry → Db → Result Db
leave_country env subject employee none country db = ok db
leave_country env subject employee (some desk) country db =
    if country_eq desk.country country then ok db else do
      db' ← release_employee_for_country_change env employee.id subject db
      ok (leave_desk (row employee.id db'.employees) db')

abbrev pub move_country : Option Employee → ClientCountry → Db → Db
move_country none country db = db
move_country (some e) country db = save_employee (record e { country = some country }) db

-- The update of the column, the audit, and the row that is read back.
unfoldable pub enter_country : ℕ → ℕ → ClientCountry → Db → Result (Employee × Db)
enter_country subject employee_id country left = do
  let moved : Db = move_country (row employee_id left.employees) country left
  let db' : Db =
      audit (some subject) (AuditAction.employee_country_updated country) employee_id moved
  updated ← require (row employee_id db'.employees) not_found
  ok (updated, db')

abbrev pub desk_row : Db → Option ℕ → Option Desk
desk_row db none = none
desk_row db (some d) = row d db.desks

unfoldable pub set_country : Env → ℕ → Employee → ClientCountry → Db → Result (Employee × Db)
set_country env subject employee country db =
    if is_country employee.country country
    then ok (employee, db)
    else (leave_country env subject employee (desk_row db employee.desk) country db
        >>= enter_country subject employee.id country)

-- The body of the transaction of `updateEmployeeCountry`.
unfoldable pub change_country : Env → ℕ → ℕ → ClientCountry → Db → Result (Employee × Db)
change_country env subject employee_id country db = do
  employee ← require (row employee_id db.employees) not_found
  guard (not (is_admin employee.role)) bad_request
  set_country env subject employee country db

unfoldable pub update_employee_country : Env → ℕ → ℕ → ClientCountry → Db → Db × Result Employee
update_employee_country env subject employee_id country =
    transaction (change_country env subject employee_id country)

-- An employee at the desk who serves a client.
unfoldable pub serves_at : ℕ → List Assignment → Employee → Bool
serves_at desk assignments e =
    is_id e.desk desk && any (is_active_of e.id) assignments && is_serving e.status

unfoldable pub clear_desk : ℕ → Employee → Employee
clear_desk desk e = if is_id e.desk desk then record e { desk = none } else e

-- A desk that some assignment names is only marked; the row of another is deleted, which the
-- database refuses while a ticket is reserved for it.
unfoldable pub remove_desk : Desk → Bool → Db → Result Db
remove_desk desk true db = ok (record db { desks = put (record desk { active = false }) db.desks })
remove_desk desk false db =
    if any (λ t. is_id t.reserved_desk desk.id) db.tickets
    then err foreign_key
    else ok (record db { desks = filter (λ d. not (d.id == desk.id)) db.desks })

-- The result says whether the desk was only marked.
unfoldable pub drop_desk : ℕ → ℕ → Db → Result (Bool × Db)
unfolding serves_at clear_desk remove_desk
drop_desk subject desk_id db = do
  desk ← require (row desk_id db.desks) not_found
  guard (not (any (serves_at desk_id db.assignments) db.employees)) conflict
  let soft = any (λ a. is_id a.desk desk_id) db.assignments
  db' ← remove_desk desk soft (record db { employees = map (clear_desk desk_id) db.employees })
  ok (soft, audit (some subject) (AuditAction.desk_deleted soft) desk_id db')

unfoldable pub delete_desk : ℕ → ℕ → Db → Db × Result Bool
delete_desk subject desk_id = transaction (drop_desk subject desk_id)
