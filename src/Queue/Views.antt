-- ===== src/Queue/Views.antt =====
-- What a client reads of a ticket: `getQueueMeta`, `toPublic`, `publicTicketView`, `lookupTicket`
-- and `clientStats` of queue.service.ts. How the runtime writes a time, the hash of a
-- code and the column `updatedAt` of a ticket are arguments.
pub mod History
pub mod Position
mod Tests
use Prim.Native.String.{String}
use ticket_system.Base.{
  ℕ, ◌+◌, ◌*◌, max, Bool, true, false, not, ◌&&◌, ◌||◌, List, [], ◌∷◌, ◌++◌, Option, none, some,
  leb, ltb, ◌==◌, filter, find, map, any, count, row, is_some, is_id, length, if◌then◌else◌,
}
use ticket_system.Domain.{
  Text, TicketStatus, ClientCountry, country_eq, completed, cancelled, no_show, live_queue_statuses,
  includes, status_eq, Employee, Desk, ServiceType, Ticket, Assignment, desk_keyed, employee_keyed,
}
use ticket_system.Texts.{same_text}
use ticket_system.Person.{trim, is_digit, is_empty}
use ticket_system.Rules.{can_check_in}
use ticket_system.Presentation.{
  TicketKind, ticket_kind, client_status_label, client_progress_step, client_progress_labels,
  client_shows_desk,
}
use ticket_system.Dispatch.{effective_time}
use ticket_system.Queue.Store.{
  Db, Env, Result, ok, err, ◌>>=◌, ◌>>◌, guard, require, not_found, is_active_on,
}
use ticket_system.Queue.Retention.{terminal}
use ticket_system.Queue.WalkIn.{pad_three}

pub record QueueMeta : Type 0 where
  pub queue_position : ℕ
  pub estimated_wait_minutes : ℕ

-- `peer.country = :country`: a row without a direction is equal to none.
abbrev pub equal_country : Option ClientCountry → Option ClientCountry → Bool
equal_country (some a) (some b) = country_eq a b
equal_country _ _ = false

abbrev pub is_peer : Ticket → Ticket → Bool
is_peer t p =
    p.site == t.site && equal_country p.country t.country && includes live_queue_statuses p.status

-- `COALESCE(scheduledAt, createdAt)`.
abbrev pub turn_time : Ticket → ℕ
turn_time t = effective_time t.scheduled_at t.created_at

unfoldable pub is_ahead : Ticket → Ticket → Bool
is_ahead t p =
    is_peer t p
    && (ltb t.priority p.priority || (p.priority == t.priority && ltb (turn_time p) (turn_time t)))

unfoldable pub get_queue_meta : Ticket → List Ticket → QueueMeta
unfolding is_ahead
get_queue_meta t ts =
    if not (includes live_queue_statuses t.status)
    then record { queue_position = 0; estimated_wait_minutes = 0 }
    else let position = count (is_ahead t) ts + 1 in
      record { queue_position = position; estimated_wait_minutes = max 1 (position * 4) }

-- The runtime's part: `formatScheduledLabel`, and when a ticket was last changed.
pub record ViewEnv : Type 0 where
  pub scheduled_label : ℕ → Text
  pub updated_at : ℕ → ℕ

pub record PublicTicket : Type 0 where
  pub id : ℕ
  pub number : Text
  pub status : TicketStatus
  pub kind : TicketKind
  pub status_label : String
  pub progress_step : ℕ
  pub progress_labels : List String
  pub show_desk : Bool
  pub service_name : Text
  pub desk_label : Option Text
  pub created_at : ℕ
  pub queue_position : ℕ
  pub estimated_wait_minutes : ℕ
  pub country : Option ClientCountry
  pub full_name : Option Text
  pub departure_date : Option Text
  pub arrival_date : Option Text
  pub scheduled_at : Option ℕ
  pub scheduled_label : Option Text
  pub duration_minutes : ℕ
  pub client_notice : Option Text
  pub served_by : Option Text
  pub lookup_code : Option Text
  pub can_check_in : Bool
  pub checked_in_at : Option ℕ
  pub phone : Option Text
  pub closed_at : Option ℕ

abbrev pub present_text : Option Text → Bool
present_text none = false
present_text (some t) = not (is_empty t)

abbrev pub mapped {ℓ κ} : {A : Type ℓ} {B : Type κ} → (A → B) → Option A → Option B
mapped f none = none
mapped f (some a) = some (f a)

unfoldable pub to_public :
    ViewEnv
    → Env
    → Ticket
    → Text
    → Option Text
    → QueueMeta
    → Option Text
    → Option Text
    → PublicTicket
to_public view env t service_name desk_label meta served_by lookup_code =
    let kind = ticket_kind t.scheduled_at in
    let shows = present_text desk_label && client_shows_desk t.status kind in
    record {
      id = t.id;
      number = t.number;
      status = t.status;
      kind = kind;
      status_label = client_status_label t.status kind;
      progress_step = client_progress_step t.status kind;
      progress_labels = client_progress_labels kind;
      show_desk = shows;
      service_name = service_name;
      desk_label = if shows then desk_label else none;
      created_at = t.created_at;
      queue_position = meta.queue_position;
      estimated_wait_minutes = meta.estimated_wait_minutes;
      country = t.country;
      full_name = t.full_name;
      departure_date = t.departure_date;
      arrival_date = t.arrival_date;
      scheduled_at = t.scheduled_at;
      scheduled_label = mapped view.scheduled_label t.scheduled_at;
      duration_minutes = t.duration_minutes;
      client_notice = t.client_notice;
      served_by = served_by;
      lookup_code = lookup_code;
      can_check_in = can_check_in t.status t.scheduled_at t.duration_minutes env.now;
      checked_in_at = t.checked_in_at;
      phone = t.phone;
      closed_at = if terminal t.status then some (view.updated_at t.id) else none;
    }

abbrev pub done_at : Assignment → ℕ
done_at a = elim a.completed_at [ none ↦ 0 | some at ↦ at ]

-- The first of the latest, after a stable sort.
abbrev pub latest : List Assignment → Option Assignment
latest [] = none
latest (a ∷ rows) = elim (latest rows) [
  | none ↦ some a
  | some b ↦ if ltb (done_at a) (done_at b) then some b else some a
]

unfoldable pub last_served : Db → Ticket → Option Assignment
last_served db t = latest (filter (λ a. a.ticket == t.id && is_some a.completed_at) db.assignments)

abbrev pub name_of : Db → Option Assignment → Option Text
name_of db none = none
name_of db (some a) = mapped (λ e. e.display_name) (row a.employee db.employees)

abbrev pub label_of : Db → Option ℕ → Option Text
label_of db none = none
label_of db (some d) = mapped (λ k. k.label) (row d db.desks)

abbrev pub active_label : Db → Option Assignment → Option Text
active_label db none = none
active_label db (some a) = label_of db a.desk

abbrev pub label_or_reserved : Option Text → Option Text → Option Text
label_or_reserved none other = other
label_or_reserved (some label) other = some label

abbrev pub service_name_of : Db → Ticket → Text
service_name_of db t = elim (find (λ s. s.id == t.service_type) db.services) [
  | none ↦ []
  | some s ↦ s.name
]

unfoldable pub public_ticket_view : ViewEnv → Env → Db → Ticket → PublicTicket
unfolding get_queue_meta to_public last_served
public_ticket_view view env db t =
    to_public view env t (service_name_of db t)
      (label_or_reserved (active_label db (find (is_active_on t.id) db.assignments))
        (label_of db t.reserved_desk))
      (get_queue_meta t db.tickets) (name_of db (last_served db t)) none

unfoldable pub get_public_ticket_by_hash : ViewEnv → Env → ℕ → Db → Result PublicTicket
unfolding public_ticket_view
get_public_ticket_by_hash view env hash db = do
  t ← require (find (λ t. t.access_token_hash == hash) db.tickets) not_found
  ok (public_ticket_view view env db t)

-- `toUpperCase` and the hash of the code are the runtime's.
pub record CodeReader : Type 0 where
  pub upper : Text → Text
  pub hash : Text → ℕ

abbrev pub is_looked_up : ℕ → Text → Ticket → Bool
is_looked_up hash digits t =
    is_id t.lookup_code_hash hash
    && (same_text (filter is_digit t.number) digits
        || same_text (filter is_digit t.number) (pad_three digits))

unfoldable pub lookup_ticket :
    ViewEnv → CodeReader → Env → Text → Text → Db → Result (PublicTicket × ℕ)
unfolding get_queue_meta to_public
lookup_ticket view reader env number code db = do
  let digits = filter is_digit number
  guard (not (is_empty digits)) not_found
  let typed = reader.upper (trim code)
  t ← require (find (is_looked_up (reader.hash typed) digits) db.tickets) not_found
  ok (
    to_public view env t (service_name_of db t) (label_of db t.reserved_desk)
        (get_queue_meta t db.tickets) none (some typed),
    t.access_token_hash,
  )

pub record ClientStats : Type 0 where
  pub total : ℕ
  pub completed_tickets : ℕ
  pub no_shows : ℕ

unfoldable pub client_stats : Db → ClientStats
client_stats db = record {
  total = length db.tickets;
  completed_tickets = count (λ t. status_eq t.status completed) db.tickets;
  no_shows = count (λ t. status_eq t.status no_show) db.tickets;
}
