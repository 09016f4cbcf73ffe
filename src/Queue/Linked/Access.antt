-- ===== src/Queue/Linked/Access.antt =====
-- Transactions, and the calls that look their employee up first, keep the tables linked.
use ticket_system.Base.{
  row, refl, ◌++◌, ◌∷◌, [], List, List, is_some, find, ℕ, ◌+◌, ◌≡◌, ◌==◌, Option, none, some,
  if◌then◌else◌, Bool, true, false,
}
use ticket_system.Domain.{Employee, Site, TicketStatus, EmployeeStatus, ticket_keyed, Ticket}
use ticket_system.Rules.{AssignmentAction}
use ticket_system.Queue.Store.{Db, Env, Result, ok, err, transaction, entity_not_found, not_found}
use ticket_system.Queue.Assign.{load}
use ticket_system.Queue.Staff.{
  SessionUser, give_site, new_employee, ensure_employee, found_or_new, active_site, with_employee,
  set_ticket_status, change_status, assignment_action, act_on,
}
use ticket_system.Queue.Desks.{
  seat_employee, assign_self_desk, change_employee_status, set_employee_status,
}
use ticket_system.Queue.Holds.{Holds, require-Holds}
use ticket_system.Queue.Linked.{grow, IsLinked, ticket_row}
use ticket_system.Queue.Linked.Staff.{change_status-IsLinked}
use ticket_system.Queue.Linked.Action.{act_on-IsLinked}
use ticket_system.Queue.Linked.Desks.{seat_employee-IsLinked, change_employee_status-IsLinked}

-- Another row draws an id.
grow-IsLinked :
    (db : Db) (es : List Employee)
    → IsLinked db
    → IsLinked (record db { employees = es; next_id = db.next_id + 1 })
grow-IsLinked db es v = grow v

pub transaction-IsLinked :
    {A : Type 0}
    → (body : Db → Result (A × Db)) (db : Db) → IsLinked db
    → Holds (λ r. IsLinked r.1) (body db)
    → IsLinked (transaction body db).0
transaction-IsLinked {A} body db v h = ended (body db) h
  where
    ended :
        (m : Result (A × Db))
        → Holds (λ r. IsLinked r.1) m
        → IsLinked
            (elim m as (λ _. Db × Result A) [ ok (a, db') ↦ (db', ok a) | err e ↦ (db, err e) ]).0
    ended (ok (a, db')) k = k
    ended (err e) k = v

-- The same tickets, and the tables linked.
abbrev pub IsSame : List Ticket → Db → Type 0
IsSame ts db = IsLinked db × (db.tickets ≡ ts)

give_site-IsLinked :
    (e : Employee) (o : Option Site) (db : Db)
    → IsLinked db
    → IsSame db.tickets (give_site e o db).1
unfolding give_site
give_site-IsLinked e none db v = (v, refl)
give_site-IsLinked e (some s) db v = (v, refl)

sited-IsLinked :
    (b : Bool) (e : Employee) (o : Option Site) (db : Db)
    → IsLinked db
    → IsSame db.tickets (if b then (e, db) else give_site e o db).1
sited-IsLinked true e o db v = (v, refl)
sited-IsLinked false e o db v = give_site-IsLinked e o db v

found_or_new-IsLinked :
    (user : SessionUser) (o : Option Employee) (db : Db)
    → IsLinked db
    → Holds (λ r. IsSame db.tickets r.1) (found_or_new user o db)
unfolding found_or_new
found_or_new-IsLinked user (some e) db v = sited-IsLinked (is_some e.site) e (active_site db) db v
found_or_new-IsLinked user none db v =
    require-Holds {B = Employee × Db} (λ r. IsSame db.tickets r.1) (active_site db) entity_not_found
      _ λ s _. (grow-IsLinked db (db.employees ++ new_employee user s db.next_id ∷ []) v, refl)

with_employee-IsLinked :
    {A : Type 0}
    → (user : SessionUser) (body : Employee → Db → Result (A × Db)) (db : Db) → IsLinked db
    → ((e : Employee) (db' : Db) → IsSame db.tickets db' → Holds (λ r. IsLinked r.1) (body e db'))
    → IsLinked (with_employee user body db).0
unfolding with_employee ensure_employee
with_employee-IsLinked {A} user body db v h =
    known (ensure_employee user db)
      (found_or_new-IsLinked user (find (λ e. e.oidc_subject == user.subject) db.employees) db v)
  where
    known :
        (m : Result (Employee × Db))
        → Holds (λ r. IsSame db.tickets r.1) m
        → IsLinked
            (elim m as (λ _. Db × Result A) [
              | err e ↦ (db, err e)
              | ok (e, db') ↦ transaction (body e) db'
            ]).0
    known (ok (e, db')) k = transaction-IsLinked (body e) db' k.0 (h e db' k)
    known (err e) k = v

pub assignment_action-IsLinked :
    (env : Env) (user : SessionUser) (id : ℕ) (action : AssignmentAction) (db : Db)
    → IsLinked db
    → IsLinked (assignment_action env user id action db).0
unfolding assignment_action
assignment_action-IsLinked env user id action db v =
    with_employee-IsLinked user (λ e db'. act_on env e user.subject id action db') db v
      λ e db' w. act_on-IsLinked env e user.subject id action db' w.0

pub assign_self_desk-IsLinked :
    (env : Env) (user : SessionUser) (desk : Option ℕ) (db : Db)
    → IsLinked db
    → IsLinked (assign_self_desk env user desk db).0
unfolding assign_self_desk
assign_self_desk-IsLinked env user desk db v =
    with_employee-IsLinked user (λ e db'. seat_employee env user.subject e.id desk db') db v
      λ e db' w. seat_employee-IsLinked env user.subject e.id desk db' w.0

pub set_employee_status-IsLinked :
    (env : Env) (user : SessionUser) (s : EmployeeStatus) (db : Db)
    → IsLinked db
    → IsLinked (set_employee_status env user s db).0
unfolding set_employee_status
set_employee_status-IsLinked env user s db v =
    with_employee-IsLinked user (λ e db'. change_employee_status env e user.subject s db') db v
      λ e db' w. change_employee_status-IsLinked env e user.subject s db' w.0

set_found_status-IsLinked :
    (env : Env) (user : SessionUser) (t : Ticket) (s : TicketStatus) (db : Db)
    → IsLinked db
    → row t.id db.tickets ≡ some t
    → IsLinked
        (with_employee user (λ e db'. change_status env (load db' e) user.subject t s db') db).0
set_found_status-IsLinked env user t s db v there =
    with_employee-IsLinked user (λ e db'. change_status env (load db' e) user.subject t s db') db v
      λ e db' w. change_status-IsLinked env (load db' e) user.subject t s db' w.0 (rw w.1 there)

pub set_ticket_status-IsLinked :
    (env : Env) (user : SessionUser) (id : ℕ) (s : TicketStatus) (db : Db)
    → IsLinked db
    → IsLinked (set_ticket_status env user id s db).0
unfolding set_ticket_status
set_ticket_status-IsLinked env user id s db v =
    found (row id db.tickets) (λ t e. ticket_row v _ t e)
  where
    found :
        (o : Option Ticket)
        → ((t : Ticket) → o ≡ some t → row t.id db.tickets ≡ some t)
        → IsLinked
            (elim o as (λ _. Db × Result Ticket) [
              | none ↦ (db, err not_found)
              | some t ↦
                  with_employee user
                    (λ e db'. change_status env (load db' e) user.subject t s db')
                    db
            ]).0
    found none h = v
    found (some t) h = set_found_status-IsLinked env user t s db v (h t refl)
