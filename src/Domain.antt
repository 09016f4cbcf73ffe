-- ===== src/Domain.antt =====
-- The entities of apps/api/src/domain/entities.ts: a row of each table is a record, an enumeration
-- of strings a data type. A uuid is a number, a date the milliseconds of its `getTime()`.
use ticket_system.Base.{ℕ, Keyed, Bool, true, false, List, [], ◌∷◌, Option, none, some, ◌==◌, ◌||◌}

pub data TicketStatus : Type 0 where
  booked waiting checked_in assigned called in_service completed requeued no_show cancelled :
      TicketStatus

pub data EmployeeStatus : Type 0 where
  offline available reserved busy paused : EmployeeStatus

pub data Role : Type 0 where
  employee admin auditor : Role

pub data ClientCountry : Type 0 where
  rf cn : ClientCountry

abbrev pub status_code : TicketStatus → ℕ
status_code booked = 0
status_code waiting = 1
status_code checked_in = 2
status_code assigned = 3
status_code called = 4
status_code in_service = 5
status_code completed = 6
status_code requeued = 7
status_code no_show = 8
status_code cancelled = 9

abbrev pub status_eq : TicketStatus → TicketStatus → Bool
status_eq s t = status_code s == status_code t

-- `list.includes(status)`.
abbrev pub includes : List TicketStatus → TicketStatus → Bool
includes [] s = false
includes (t ∷ ts) s = status_eq t s || includes ts s

abbrev pub country_eq : ClientCountry → ClientCountry → Bool
country_eq rf rf = true
country_eq cn cn = true
country_eq _ _ = false

abbrev pub is_country : Option ClientCountry → ClientCountry → Bool
is_country none c = false
is_country (some d) c = country_eq d c

abbrev pub ticket_statuses : List TicketStatus
ticket_statuses =
    booked ∷ waiting ∷ checked_in ∷ assigned ∷ called ∷ in_service ∷ completed ∷ requeued ∷ no_show
    ∷ cancelled ∷ []

abbrev pub slot_holding_statuses : List TicketStatus
slot_holding_statuses =
    booked ∷ waiting ∷ checked_in ∷ assigned ∷ called ∷ in_service ∷ requeued ∷ []

abbrev pub live_queue_statuses : List TicketStatus
live_queue_statuses = checked_in ∷ requeued ∷ []

-- A text is the list of its UTF-16 code units.
abbrev pub Text : Type 0
Text = List ℕ

pub record Site : Type 0 where
  pub id : ℕ
  pub code : Text
  pub name : Text
  pub timezone : Text
  pub active : Bool

pub record ServiceType : Type 0 where
  pub id : ℕ
  pub name : Text
  pub sla_seconds : ℕ
  pub active : Bool
  pub site : ℕ

pub record Desk : Type 0 where
  pub id : ℕ
  pub label : Text
  pub display_number : Option ℕ
  pub country : ClientCountry
  pub active : Bool
  pub created_at : ℕ
  pub site : ℕ

-- `updatedAt` is kept by the database and is no field: an order by it is an argument of the query.
pub record Employee : Type 0 where
  pub id : ℕ
  pub oidc_subject : ℕ
  pub display_name : Text
  pub role : Role
  pub status : EmployeeStatus
  pub site : Option ℕ
  pub desk : Option ℕ
  pub country : Option ClientCountry
  pub service_type_ids : List ℕ

pub record Ticket : Type 0 where
  pub id : ℕ
  pub number : Text
  pub access_token_hash : ℕ
  pub lookup_code_hash : Option ℕ
  pub status : TicketStatus
  pub call_attempts : ℕ
  pub priority : ℕ
  pub site : ℕ
  pub service_type : ℕ
  pub country : Option ClientCountry
  pub full_name : Option Text
  pub phone : Option Text
  pub departure_date : Option Text
  pub arrival_date : Option Text
  pub personal_data_consent_at : Option ℕ
  pub scheduled_at : Option ℕ
  pub checked_in_at : Option ℕ
  pub duration_minutes : ℕ
  pub reserved_desk : Option ℕ
  pub client_notice : Option Text
  pub created_at : ℕ

pub record Assignment : Type 0 where
  pub id : ℕ
  pub ticket : ℕ
  pub employee : ℕ
  pub desk : Option ℕ
  pub active : Bool
  pub assigned_at : ℕ
  pub called_at : Option ℕ
  pub started_at : Option ℕ
  pub completed_at : Option ℕ

pub record BlockedSlot : Type 0 where
  pub id : ℕ
  pub site : ℕ
  pub employee : ℕ
  pub date : ℕ
  pub start_time : ℕ
  pub end_time : ℕ

instance abbrev pub desk_keyed : Keyed Desk
desk_keyed = record { key = λ d. d.id }

instance abbrev pub employee_keyed : Keyed Employee
employee_keyed = record { key = λ e. e.id }

instance abbrev pub ticket_keyed : Keyed Ticket
ticket_keyed = record { key = λ t. t.id }

instance abbrev pub assignment_keyed : Keyed Assignment
assignment_keyed = record { key = λ a. a.id }
