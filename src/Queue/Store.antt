-- ===== src/Queue/Store.antt =====
-- The tables behind queue.service.ts, its exceptions, its log of events, and transactions.
-- A query is read as the filter that its `where` spells out; `save` writes the row back by its key.
use ticket_system.Base.{
  ◌||◌, any, if◌then◌else◌, ℕ, ◌+◌, Bool, true, false, ◌&&◌, List, [], ◌∷◌, ◌++◌, Option, none,
  some, ◌==◌, put, row,
}
use ticket_system.Domain.{
  Text, TicketStatus, EmployeeStatus, ClientCountry, Ticket, Employee, Assignment, Desk, Site,
  ServiceType, BlockedSlot, ticket_keyed, assignment_keyed, employee_keyed,
}
use ticket_system.Rules.{AssignmentAction}

-- The HTTP exceptions of the service, the data source's refusal to miss a row (`findOneByOrFail`),
-- and the refusals of the database: a second row under a unique
-- index, and the deletion of a row that another one refers to.
pub data Error : Type 0 where
  bad_request conflict not_found forbidden entity_not_found duplicate_key foreign_key : Error

pub data Result {ℓ} (A : Type ℓ) : Type ℓ where
  ok : A → Result A
  err : Error → Result A

abbrev pub is_ok {ℓ} : {A : Type ℓ} → Result A → Bool
is_ok (ok a) = true
is_ok (err e) = false

-- `if (!found) throw e`.
abbrev pub require {ℓ} : {A : Type ℓ} → Option A → Error → Result A
require none exception = err exception
require (some found) exception = ok found

-- `if (!test) throw e`.
abbrev pub guard : (test : Bool) (exception : Error) → Result (Unit {0})
guard false exception = err exception
guard true exception = ok tt

-- An exception of the first step ends the whole.
infixl 5 ◌>>=◌
abbrev pub ◌>>=◌ {κ ℓ} : {B : Type κ} {C : Type ℓ} → Result B → (B → Result C) → Result C
err exception >>= next = err exception
ok value >>= next = next value

infixl 5 ◌>>◌
abbrev pub ◌>>◌ {ℓ} : {C : Type ℓ} → Result (Unit {0}) → Result C → Result C
first >> next = first >>= λ done. next

-- The `type` and the `data` of a `TicketEvent`.
pub data EventKind : Type 0 where
  created : EventKind
  checked_in : EventKind
  cancelled : EventKind
  rescheduled : ℕ → ℕ → EventKind
  no_show : EventKind
  missed : TicketStatus → EventKind
  status_set : TicketStatus → TicketStatus → EventKind
  acted : AssignmentAction → EventKind
  assigned : ℕ → ℕ → EventKind
  released : EmployeeStatus → EventKind
  call_timeout : TicketStatus → EventKind

pub record TicketEvent : Type 0 where
  pub ticket_id : ℕ
  pub kind : EventKind
  pub actor_subject : Option ℕ

-- The `action` and the `details` of an `AuditEvent`.
pub data AuditAction : Type 0 where
  ticket_no_show : Option TicketStatus → AuditAction
  ticket_rescheduled : ℕ → ℕ → AuditAction
  ticket_status_set : TicketStatus → TicketStatus → AuditAction
  assignment_acted : AssignmentAction → ℕ → AuditAction
  employee_status_changed : EmployeeStatus → AuditAction
  employee_country_updated : ClientCountry → AuditAction
  employee_desk_assigned : Option ℕ → AuditAction
  desk_deleted : Bool → AuditAction
  desk_created : Text → ℕ → ClientCountry → Option ℕ → AuditAction
  desk_updated : AuditAction
  manager_created : Text → AuditAction
  blocked_slot_created : ℕ → ℕ → ℕ → ℕ → ℕ → AuditAction
  blocked_slot_deleted : AuditAction

pub record AuditEvent : Type 0 where
  pub action : AuditAction
  pub actor_subject : Option ℕ
  pub target_id : ℕ

-- `next_id` stands for the generator of uuids: no row has a number from there on.
-- The sites stand in the order of their names and the desks in the order of their labels, in which
-- queries return them.
-- `notified` holds the payloads sent by `pg_notify` on the channel `ticket_updates`.
pub record Db : Type 0 where
  pub sites : List Site
  pub services : List ServiceType
  pub desks : List Desk
  pub employees : List Employee
  pub tickets : List Ticket
  pub assignments : List Assignment
  pub blocked_slots : List BlockedSlot
  pub events : List TicketEvent
  pub audits : List AuditEvent
  pub notified : List ℕ
  pub next_id : ℕ

-- What a transaction meets from outside: the clock, the ticket rows that other transactions have
-- locked (`SKIP LOCKED` passes over them), and the value of an employee's column `updatedAt`.
pub record Env : Type 0 where
  pub now : ℕ
  pub locked : ℕ → Bool
  pub updated_at : ℕ → ℕ

abbrev pub save_ticket : Ticket → Db → Db
save_ticket t db = record db { tickets = put t db.tickets }

abbrev pub save_assignment : Assignment → Db → Db
save_assignment a db = record db { assignments = put a db.assignments }

abbrev pub save_employee : Employee → Db → Db
save_employee e db = record db { employees = put e db.employees }

-- Private method `event`: the log and the notification.
unfoldable pub event : ℕ → EventKind → Option ℕ → Db → Db
event ticket_id kind actor db = record db {
  events = db.events ++ record { ticket_id = ticket_id; kind = kind; actor_subject = actor } ∷ [];
  notified = db.notified ++ ticket_id ∷ [];
}

-- Private method `audit`. The actor `system` has no subject.
unfoldable pub audit : Option ℕ → AuditAction → ℕ → Db → Db
audit actor action target db = record db {
  audits = db.audits ++ record { action = action; actor_subject = actor; target_id = target } ∷ [];
}

-- `where: { ticket: { id }, active: true }`.
abbrev pub is_active_on : ℕ → Assignment → Bool
is_active_on i a = a.active && a.ticket == i

-- `where: { employee: { id }, active: true }`.
abbrev pub is_active_of : ℕ → Assignment → Bool
is_active_of e a = a.active && a.employee == e

-- The first `save` of an assignment draws its id. Two unique indexes of the entity refuse a second
-- active assignment of a ticket or of an employee.
unfoldable pub insert_assignment : Assignment → Db → Result Db
insert_assignment a db =
    if any (λ b. is_active_on a.ticket b || is_active_of a.employee b) db.assignments
    then err duplicate_key
    else ok (record db { assignments = db.assignments ++ a ∷ []; next_id = db.next_id + 1 })

-- The row of an assignment's employee with its new status, as `save` writes it.
abbrev pub set_employee_status_of : ℕ → EmployeeStatus → Db → Db
set_employee_status_of e status db = elim (row e db.employees) [
  | none ↦ db
  | some employee ↦ save_employee (record employee { status = status }) db
]

-- `dataSource.transaction`: an exception undoes what the body wrote.
abbrev pub transaction {ℓ} : {A : Type ℓ} → (Db → Result (A × Db)) → Db → Db × Result A
transaction body db = elim (body db) [ ok (a, db') ↦ (db', ok a) | err e ↦ (db, err e) ]
