-- ===== src/Queue/Linked/Desks.antt =====
-- Changes of desk, status and direction of an employee keep the tables linked.
use ticket_system.Base.{
  map, any, find-passes, arith, is_id, filter, refl, ◌||◌, is_some, not, inr, inl, ◌&&◌, ◌≡◌, ◌==◌,
  find, Bool-cases, if◌then◌else◌, row, List, Option, Bool, ℕ, none, some, [], ◌∷◌, true, false,
}
use ticket_system.Domain.{
  country_eq, Desk, ClientCountry, is_country, Assignment, EmployeeStatus, Employee, offline,
  paused, ticket_keyed, assignment_keyed, employee_keyed, desk_keyed,
}
use ticket_system.Queue.Linked.{is_active_of, Db, IsLinked, assignment_row}
use ticket_system.Queue.Holds.{Holds, require-Holds, guard-Holds, bind-Holds}
use ticket_system.Queue.Desks.{
  is_admin, enter_status, release_found, detach_employee_desk, is_away, detach_others, take_desk,
  change_desk, seat_employee, leave_work, change_employee_status,
  release_employee_assignments_for_desk_change, release_employee_for_country_change,
}
use ticket_system.Queue.Admin.{
  clear_desk, serves_at, desk_row, set_country, enter_country, move_country, leave_country,
  change_country, remove_desk, drop_desk,
}
use ticket_system.Queue.Store.{
  AuditAction, save_employee, bad_request, conflict, ok, not_found, Env, audit,
}
use ticket_system.Queue.Assign.{load, is_available, assign_next, Loaded}
use ticket_system.Queue.Linked.Release.{
  leave_desk-IsLinked, release_of-IsLinked, release_assignment_for_break-IsLinked,
  detach_employee_desk-IsLinked,
}
use ticket_system.Queue.Linked.Hand.{assign_next-IsLinked}

detach_others-IsLinked :
    (env : Env) (id subject : ℕ) (es : List Employee) (db : Db)
    → IsLinked db
    → Holds IsLinked (detach_others env id subject es db)
unfolding detach_others
detach_others-IsLinked env id subject [] db v = v
detach_others-IsLinked env id subject (e ∷ es) db v = elim (Bool-cases (e.id == id)) [
  | inl self ↦ rw self (detach_others-IsLinked env id subject es db v)
  | inr other ↦ rw other (
      bind-Holds IsLinked IsLinked (detach_employee_desk env e.id subject db)
        (detach_others env id subject es) (detach_employee_desk-IsLinked env e.id subject db v)
        λ db' w. detach_others-IsLinked env id subject es db' w)
]

take_desk-IsLinked :
    (env : Env) (subject : ℕ) (e : Employee) (d : ℕ) (db : Db)
    → IsLinked db
    → Holds IsLinked (take_desk env subject e d db)
unfolding take_desk release_employee_assignments_for_desk_change
take_desk-IsLinked env subject e d db v =
    require-Holds IsLinked (find (λ x. x.id == d && x.active) db.desks) not_found _ λ desk _.
      guard-Holds IsLinked (not (is_some e.country) || is_country e.country desk.country)
        bad_request _
        λ _.
          bind-Holds IsLinked IsLinked
            (detach_others env e.id subject (filter (λ x. is_id x.desk d) db.employees) db) _
            (detach_others-IsLinked env e.id subject (filter (λ x. is_id x.desk d) db.employees) db
              v)
            λ db1 v1.
              bind-Holds IsLinked IsLinked
                (release_found env paused e.id subject (find (is_active_of e.id) db1.assignments)
                  db1)
                _ (release_of-IsLinked env paused e.id subject db1 v1)
                λ db2 v2. require-Holds IsLinked (row e.id db2.employees) not_found _ λ _ _. v2

change_desk-IsLinked :
    (env : Env) (subject : ℕ) (e : Employee) (d : Option ℕ) (db : Db)
    → IsLinked db
    → Holds IsLinked (change_desk env subject e d db)
unfolding change_desk
change_desk-IsLinked env subject e none db v = detach_employee_desk-IsLinked env e.id subject db v
change_desk-IsLinked env subject e (some d) db v = take_desk-IsLinked env subject e d db v

pub seat_employee-IsLinked :
    (env : Env) (subject id : ℕ) (d : Option ℕ) (db : Db)
    → IsLinked db
    → Holds (λ r. IsLinked r.1) (seat_employee env subject id d db)
unfolding seat_employee audit
seat_employee-IsLinked env subject id d db v =
    require-Holds {B = Employee × Db} (λ r. IsLinked r.1) (row id db.employees) not_found _
      λ e _.
        bind-Holds {B = Employee × Db} (λ r. IsLinked r.1) IsLinked (change_desk env subject e d db)
          _ (change_desk-IsLinked env subject e d db v)
          λ db' w.
            require-Holds {B = Employee × Db} (λ r. IsLinked r.1) (row id db'.employees) not_found _
              λ _ _. w

leave_work-IsLinked :
    (env : Env) (subject : ℕ) (s : EmployeeStatus) (o : Option Assignment) (db : Db)
    → IsLinked db
    → ((a : Assignment) → o ≡ some a → (row a.id db.assignments ≡ some a) × (a.active ≡ true))
    → Holds IsLinked (leave_work env subject s o db)
unfolding leave_work
leave_work-IsLinked env subject s none db v own = v
leave_work-IsLinked env subject s (some a) db v own = elim (Bool-cases (is_away s)) [
  | inl away ↦
      rw away
        (release_assignment_for_break-IsLinked env a db v (own a refl).0 (own a refl).1 subject s)
  | inr here ↦ rw here (guard-Holds IsLinked (is_available s) conflict (ok db) λ _. v)
]

assign_if-IsLinked :
    (env : Env) (e : Loaded) (b : Bool) (db : Db)
    → IsLinked db
    → Holds (λ r. IsLinked r.1) (if b then assign_next env e db else ok (none, db))
assign_if-IsLinked env e true db v = assign_next-IsLinked env e db v
assign_if-IsLinked env e false db v = v

enter_status-IsLinked :
    (env : Env) (e : Employee) (subject : ℕ) (s : EmployeeStatus) (db : Db)
    → IsLinked db
    → Holds (λ r. IsLinked r.1) (enter_status env e subject s db)
unfolding enter_status audit
enter_status-IsLinked env e subject s db v =
    let e' : Employee = record e { status = s } in
    bind-Holds {B = (Employee × Option Assignment) × Db} (λ r. IsLinked r.1) (λ r. IsLinked r.1)
      (if is_available s
        then assign_next env (load db e') (save_employee e' db)
        else ok (none, save_employee e' db))
      _ (assign_if-IsLinked env (load db e') (is_available s) (save_employee e' db) v) λ r w. w

pub change_employee_status-IsLinked :
    (env : Env) (current : Employee) (subject : ℕ) (s : EmployeeStatus) (db : Db)
    → IsLinked db
    → Holds (λ r. IsLinked r.1) (change_employee_status env current subject s db)
unfolding change_employee_status
change_employee_status-IsLinked env current subject s db v =
    require-Holds {B = (Employee × Option Assignment) × Db} (λ r. IsLinked r.1)
      (row current.id db.employees) not_found _
      λ e _.
        guard-Holds {B = (Employee × Option Assignment) × Db} (λ r. IsLinked r.1)
          (not (is_available s && not (is_some (load db e).desk))) bad_request _
          λ _.
            bind-Holds {B = (Employee × Option Assignment) × Db} (λ r. IsLinked r.1) IsLinked
              (leave_work env subject s (find (is_active_of e.id) db.assignments) db)
              (enter_status env e subject s)
              (leave_work-IsLinked env subject s (find (is_active_of e.id) db.assignments) db v
                λ a has. (
                  assignment_row v _ a has,
                  ground (arith, find-passes (is_active_of e.id) db.assignments a has),
                ))
              λ left w. enter_status-IsLinked env e subject s left w

leave_country-IsLinked :
    (env : Env) (subject : ℕ) (e : Employee) (d : Option Desk) (c : ClientCountry) (db : Db)
    → IsLinked db
    → Holds IsLinked (leave_country env subject e d c db)
unfolding leave_country release_employee_for_country_change
leave_country-IsLinked env subject e none c db v = v
leave_country-IsLinked env subject e (some d) c db v = elim (Bool-cases (country_eq d.country c)) [
  | inl same ↦ rw same v
  | inr other ↦ rw other (
      bind-Holds IsLinked IsLinked
        (release_found env offline e.id subject (find (is_active_of e.id) db.assignments) db) _
        (release_of-IsLinked env offline e.id subject db v)
        λ db' w. leave_desk-IsLinked (row e.id db'.employees) db' w)
]

move_country-IsLinked :
    (o : Option Employee) (c : ClientCountry) (db : Db)
    → IsLinked db
    → IsLinked (move_country o c db)
move_country-IsLinked none c db v = v
move_country-IsLinked (some e) c db v = v

enter_country-IsLinked :
    (subject id : ℕ) (c : ClientCountry) (db : Db)
    → IsLinked db
    → Holds (λ r. IsLinked r.1) (enter_country subject id c db)
unfolding enter_country audit
enter_country-IsLinked subject id c db v =
    require-Holds {B = Employee × Db} (λ r. IsLinked r.1)
      (row id
        (audit (some subject) (AuditAction.employee_country_updated c) id
          (move_country (row id db.employees) c db)).employees)
      not_found _ λ _ _. move_country-IsLinked (row id db.employees) c db v

set_country-IsLinked :
    (env : Env) (subject : ℕ) (e : Employee) (c : ClientCountry) (db : Db)
    → IsLinked db
    → Holds (λ r. IsLinked r.1) (set_country env subject e c db)
unfolding set_country
set_country-IsLinked env subject e c db v = elim (Bool-cases (is_country e.country c)) [
  | inl same ↦ rw same v
  | inr other ↦ rw other (
      bind-Holds {B = Employee × Db} (λ r. IsLinked r.1) IsLinked
        (leave_country env subject e (desk_row db e.desk) c db) (enter_country subject e.id c)
        (leave_country-IsLinked env subject e (desk_row db e.desk) c db v)
        λ left w. enter_country-IsLinked subject e.id c left w)
]

pub change_country-IsLinked :
    (env : Env) (subject id : ℕ) (c : ClientCountry) (db : Db)
    → IsLinked db
    → Holds (λ r. IsLinked r.1) (change_country env subject id c db)
unfolding change_country
change_country-IsLinked env subject id c db v =
    require-Holds {B = Employee × Db} (λ r. IsLinked r.1) (row id db.employees) not_found _
      λ e _.
        guard-Holds {B = Employee × Db} (λ r. IsLinked r.1) (not (is_admin e.role)) bad_request _
          λ _. set_country-IsLinked env subject e c db v

remove_desk-IsLinked :
    (d : Desk) (soft : Bool) (db : Db) → IsLinked db → Holds IsLinked (remove_desk d soft db)
unfolding remove_desk
remove_desk-IsLinked d true db v = v
remove_desk-IsLinked d false db v =
    elim (Bool-cases (any (λ t. is_id t.reserved_desk d.id) db.tickets)) [
      | inl used ↦ rw used tt
      | inr free ↦ rw free v
    ]

pub drop_desk-IsLinked :
    (subject id : ℕ) (db : Db) → IsLinked db → Holds (λ r. IsLinked r.1) (drop_desk subject id db)
unfolding drop_desk audit
drop_desk-IsLinked subject id db v =
    require-Holds {B = Bool × Db} (λ r. IsLinked r.1) (row id db.desks) not_found _
      λ d _.
        guard-Holds {B = Bool × Db} (λ r. IsLinked r.1)
          (not (any (serves_at id db.assignments) db.employees)) conflict _
          λ _.
            bind-Holds {B = Bool × Db} (λ r. IsLinked r.1) IsLinked
              (remove_desk d (any (λ a. is_id a.desk id) db.assignments)
                (record db { employees = map (clear_desk id) db.employees }))
              _
              (remove_desk-IsLinked d _ (record db { employees = map (clear_desk id) db.employees })
                v)
              λ left w. w
