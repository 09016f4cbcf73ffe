-- ===== src/Queue/Own.antt =====
-- What an employee reads: `listEmployeeDesks`, `getQueueSummary`, and in `getCurrent` the reason why
-- nobody waits; `getCatalog` and `getServices`. Desks stand in the order of their labels.
use ticket_system.Base.{
  inl, inr, Bool-cases, ◌<◌, ℕ, Bool, true, false, not, ◌&&◌, List, [], ◌∷◌, Option, none, some,
  ◌==◌, filter, count, map, row, is_id, is_some, or_else, if◌then◌else◌, ◌≡◌, arith,
}
use ticket_system.Domain.{
  Text, ClientCountry, is_country, live_queue_statuses, includes, Ticket, Employee, Desk, Site,
  ServiceType, desk_keyed,
}
use ticket_system.Dispatch.{employee_work_country}
use ticket_system.Queue.Assign.{is_available}
use ticket_system.Queue.Store.{Db, Result, ok, ◌>>=◌, require, not_found}
use ticket_system.Queue.Staff.{SessionUser, ensure_employee}

abbrev pub desk_of_employee : Db → Employee → Option Desk
desk_of_employee db e = elim e.desk [ none ↦ none | some d ↦ row d db.desks ]

abbrev pub work_country : Db → Employee → Option ClientCountry
work_country db e = employee_work_country e.country (desk_of_employee db e)

-- Where a direction is given, rows of another one are left out.
abbrev pub fits_country : Option ClientCountry → Option ClientCountry → Bool
fits_country none c = true
fits_country (some wanted) c = is_country c wanted

abbrev pub is_own_desk : ℕ → Option ClientCountry → Desk → Bool
is_own_desk site wanted d = d.site == site && d.active && fits_country wanted (some d.country)

-- The map keeps the last of the employees at a desk.
abbrev pub occupant : ℕ → List Employee → Option Employee
occupant desk [] = none
occupant desk (e ∷ es) = or_else (occupant desk es) (if is_id e.desk desk then some e else none)

pub record DeskView : Type 0 where
  pub id : ℕ
  pub label : Text
  pub country : ClientCountry
  pub occupied_by : Option Text
  pub is_mine : Bool

abbrev pub other_name : ℕ → Option Employee → Option Text
other_name me none = none
other_name me (some e) = if e.id == me then none else some e.display_name

abbrev pub is_me : ℕ → Option Employee → Bool
is_me me none = false
is_me me (some e) = e.id == me

abbrev pub desk_view : ℕ → Db → Desk → DeskView
desk_view me db d =
    let sits = occupant d.id db.employees in
    record {
      id = d.id;
      label = d.label;
      country = d.country;
      occupied_by = other_name me sits;
      is_mine = is_me me sits;
    }

unfoldable pub list_employee_desks : SessionUser → Db → Result (List DeskView × Db)
list_employee_desks user db = do
  (e, known) ← ensure_employee user db
  site ← require e.site not_found
  ok (
    map (desk_view e.id known) (filter (is_own_desk site (work_country known e)) known.desks),
    known,
  )

pub record QueueSummary : Type 0 where
  pub waiting_count : ℕ
  pub available_agents : ℕ

abbrev pub waits_at : ℕ → Option ClientCountry → Ticket → Bool
waits_at site wanted t =
    t.site == site && includes live_queue_statuses t.status && fits_country wanted t.country

abbrev pub is_agent : ℕ → Option ClientCountry → Employee → Bool
is_agent site wanted e = is_id e.site site && is_available e.status && fits_country wanted e.country

unfoldable pub get_queue_summary : Option ℕ → Option ClientCountry → Db → QueueSummary
get_queue_summary none wanted db = record { waiting_count = 0; available_agents = 0 }
get_queue_summary (some site) wanted db = record {
  waiting_count = count (waits_at site wanted) db.tickets;
  available_agents = count (is_agent site wanted) db.employees;
}

-- `queueTickets`, of which `getCurrent` asks here whether there are any.
abbrev pub queue_tickets : Option ℕ → Option ClientCountry → Db → List Ticket
queue_tickets none wanted db = []
queue_tickets (some site) wanted db = filter (waits_at site wanted) db.tickets

pub data EmptyReason : Type 0 where
  no_desk no_country no_checked_in : EmptyReason

abbrev pub none_waits : List Ticket → Option EmptyReason
none_waits [] = some no_checked_in
none_waits (t ∷ ts) = none

unfoldable pub queue_empty_reason : Db → Employee → Option EmptyReason
queue_empty_reason db e =
    let wanted = work_country db e in
    if not (is_some (desk_of_employee db e))
    then some no_desk
    else if not (is_some wanted)
    then some no_country
    else none_waits (queue_tickets e.site wanted db)

unfoldable pub get_catalog : Db → List Site
get_catalog db = filter (λ s. s.active) db.sites

unfoldable pub get_services : ℕ → Db → List ServiceType
get_services site db = filter (λ s. s.site == site && s.active) db.services

none_waits-count :
    (p : Ticket → Bool) (ts : List Ticket) → none_waits (filter p ts) ≡ none → 0 < count p ts
none_waits-count p [] h = cc
none_waits-count p (t ∷ ts) h = ground (arith, none_waits-count p ts)

waiting-some :
    (site : Option ℕ) (wanted : Option ClientCountry) (db : Db)
    → none_waits (queue_tickets site wanted db) ≡ none
    → 0 < (get_queue_summary site wanted db).waiting_count
unfolding get_queue_summary
waiting-some none wanted db h = cc
waiting-some (some site) wanted db h = none_waits-count (waits_at site wanted) db.tickets h

-- Where no reason is given, the summary counts a client who waits.
pub queue_empty_reason-waiting_count :
    (db : Db) (e : Employee)
    → queue_empty_reason db e ≡ none
    → 0 < (get_queue_summary e.site (work_country db e) db).waiting_count
unfolding queue_empty_reason
queue_empty_reason-waiting_count db e h = elim (Bool-cases (is_some (desk_of_employee db e))) [
  | inr gone ↦ cc (rw gone at h)
  | inl sits ↦ elim (Bool-cases (is_some (work_country db e))) [
    | inr gone ↦ cc (rw (sits, gone) at h)
    | inl known ↦ waiting-some e.site (work_country db e) db (rw (sits, known) at h)
  ]
]
