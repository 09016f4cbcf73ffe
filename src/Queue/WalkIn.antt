-- ===== src/Queue/WalkIn.antt =====
-- `createWalkInTicket` of queue.service.ts: a manager books a slot of today for a client who is there.
pub mod Created
pub mod Numbers
pub mod Tests
use ticket_system.Base.{
  ℕ, zero, suc, ◌+◌, ◌*◌, ◌/◌, ◌%◌, Bool, true, false, not, ◌&&◌, ◌||◌, List, [], ◌∷◌, ◌++◌, Option,
  none, some, ◌==◌, any, row, is_id, find, filter, count, ltb, leb, length, if◌then◌else◌, is_some,
}
use ticket_system.Texts.{same_text}
use ticket_system.Domain.{
  Text, ClientCountry, cn, country_eq, booked, completed, cancelled, no_show, includes, Desk, Site,
  ServiceType, Ticket, ticket_keyed,
}
use ticket_system.Booking.{
  Calendar, Hold, SlotQuery, duration_for, assert_slot_available, reserve_desk,
}
use ticket_system.Person.{
  Person, PersonInput, assert_person_input, text_before, trim, is_digit, is_space, is_empty,
  or_empty,
}
use ticket_system.Queue.Reschedule.{same_slot}
use ticket_system.Queue.Store.{
  Db, Env, EventKind, Result, ok, err, ◌>>=◌, ◌>>◌, guard, require, not_found, bad_request,
  conflict, duplicate_key, event,
}

-- The hashes stand for the two random secrets of the ticket.
pub record WalkIn : Type 0 where
  pub site_id : ℕ
  pub service_type_id : ℕ
  pub country : ClientCountry
  pub full_name : Text
  pub last_name : Option Text
  pub first_name : Option Text
  pub patronymic : Option Text
  pub scheduled_at : ℕ
  pub phone : Text
  pub departure_date : Option Text
  pub arrival_date : Option Text
  pub token_hash : ℕ
  pub lookup_code_hash : ℕ

-- What the code asks the runtime's and the database's calendar about a site's time zone: the date of
-- a time, and the start of the day of a time.
pub record SiteClock : Type 0 where
  pub date_in : Text → ℕ → ℕ
  pub day_start : Text → ℕ → ℕ

-- `split(/\s+/)`.
abbrev pub push_unit : ℕ → List Text → List Text
push_unit c [] = (c ∷ []) ∷ []
push_unit c (w ∷ ws) = (c ∷ w) ∷ ws

unfoldable pub split_spaces : Bool → Text → List Text
split_spaces in_space [] = [] ∷ []
split_spaces in_space (c ∷ cs) =
    let after_space = split_spaces true cs in
    let after_unit = split_spaces false cs in
    if is_space c
    then (if in_space then after_space else [] ∷ after_space)
    else push_unit c after_unit

abbrev pub given : Option Text → Bool
given none = false
given (some t) = not (is_empty t)

abbrev pub person_input : WalkIn → Text → Text → Text → Bool → PersonInput
person_input i last first middle dates = record {
  last_name = last;
  first_name = first;
  patronymic = middle;
  phone = i.phone;
  country = some i.country;
  departure_date = i.departure_date;
  arrival_date = i.arrival_date;
  require_travel_dates = dates;
}

unfoldable pub person_of_parts : WalkIn → Bool → List Text → Result Person
person_of_parts i dates (l ∷ f ∷ m ∷ []) = assert_person_input (person_input i l f m dates)
person_of_parts i dates _ = err bad_request

unfoldable pub resolve_person : WalkIn → Bool → Result Person
unfolding split_spaces person_of_parts
resolve_person i dates =
    if given i.last_name || given i.first_name || given i.patronymic
    then assert_person_input (
        person_input i (or_empty i.last_name) (or_empty i.first_name) (or_empty i.patronymic) dates)
    else person_of_parts i dates (split_spaces false (trim i.full_name))

-- The dates are compared where both are given.
unfoldable pub dates_fit : ClientCountry → Text → Text → Bool
dates_fit country departure arrival =
    if is_empty departure || is_empty arrival
    then true
    else if country_eq country cn
    then text_before departure arrival
    else not (text_before arrival departure)

-- The open ticket of the same telephone number at the same time.
abbrev pub is_phone_taken : Text → ℕ → Ticket → Bool
is_phone_taken phone at t =
    same_text (filter is_digit (or_empty t.phone)) phone
    && is_id t.scheduled_at at
    && not (includes (completed ∷ cancelled ∷ no_show ∷ []) t.status)

-- The decimal digits of a number; it has fewer than itself and one.
unfoldable pub decimal : ℕ → ℕ → Text → Text
decimal zero n digits = digits
decimal (suc fuel) n digits =
    let rest = decimal fuel (n / 10) ((48 + n % 10) ∷ digits) in
    if ltb n 10 then (48 + n % 10) ∷ digits else rest

-- `padStart(3, '0')`.
abbrev pub pad_three : Text → Text
pad_three [] = 48 ∷ 48 ∷ 48 ∷ []
pad_three (a ∷ []) = 48 ∷ 48 ∷ a ∷ []
pad_three (a ∷ b ∷ []) = 48 ∷ a ∷ b ∷ []
pad_three (a ∷ b ∷ c ∷ cs) = a ∷ b ∷ c ∷ cs

unfoldable pub ticket_number : Text → ℕ → Text
unfolding decimal
ticket_number code n = code ++ 45 ∷ pad_three (decimal (n + 1) n [])

-- The `save` of a new ticket draws its id; the unique indexes of the entity may refuse it.
unfoldable pub insert_ticket : Ticket → Db → Result Db
insert_ticket t db = do
  guard
      (not (
        any
          (λ u.
            u.access_token_hash == t.access_token_hash
            || elim t.lookup_code_hash [ none ↦ false | some h ↦ is_id u.lookup_code_hash h ]
            || same_slot t u)
          db.tickets))
      duplicate_key
  ok (record db { tickets = db.tickets ++ t ∷ []; next_id = db.next_id + 1 })

abbrev pub non_empty : Text → Option Text
non_empty [] = none
non_empty (c ∷ cs) = some (c ∷ cs)

abbrev pub new_ticket : Env → WalkIn → Person → Site → ServiceType → Desk → ℕ → ℕ → Ticket
new_ticket env i person site service desk n id = record {
  id = id;
  number = ticket_number site.code n;
  access_token_hash = i.token_hash;
  lookup_code_hash = some i.lookup_code_hash;
  status = booked;
  call_attempts = 0;
  priority = 0;
  site = site.id;
  service_type = service.id;
  country = some i.country;
  full_name = some person.full_name;
  phone = some person.phone;
  departure_date = non_empty (trim (or_empty i.departure_date));
  arrival_date = non_empty (trim (or_empty i.arrival_date));
  personal_data_consent_at = some env.now;
  scheduled_at = some i.scheduled_at;
  checked_in_at = none;
  duration_minutes = duration_for i.country;
  reserved_desk = some desk.id;
  client_notice = none;
  created_at = env.now;
}

abbrev pub walk_in_query : WalkIn → SlotQuery
walk_in_query i = record {
  site_id = i.site_id;
  country = i.country;
  start_ms = i.scheduled_at;
  duration_minutes = duration_for i.country;
  exclude_ticket_id = none;
}

-- The tickets of the site since the start of the day.
abbrev pub count_today : SiteClock → Site → ℕ → ℕ → List Ticket → ℕ
count_today clock site site_id now ts =
    count (λ t. t.site == site_id && leb (clock.day_start site.timezone now) t.created_at) ts

-- The body of the transaction, for a person whose data were accepted.
unfoldable pub book_walk_in :
    Calendar → SiteClock → List Hold → Env → WalkIn → Person → Db → Result (Ticket × Db)
unfolding insert_ticket ticket_number
book_walk_in cal clock holds env i person db = do
  site ← require (find (λ s. s.id == i.site_id && s.active) db.sites) not_found
  service ←
      require (find (λ s. s.id == i.service_type_id && s.active && s.site == i.site_id) db.services)
        not_found
  guard (clock.date_in site.timezone i.scheduled_at == clock.date_in site.timezone env.now)
      bad_request
  guard (ltb env.now i.scheduled_at) bad_request
  assert_slot_available cal holds env.now (walk_in_query i) db
  guard (not (any (is_phone_taken person.phone i.scheduled_at) db.tickets)) conflict
  desk ← reserve_desk cal holds (walk_in_query i) none db
  let t : Ticket =
      new_ticket env i person site service desk
        (count_today clock site i.site_id env.now db.tickets + 1) db.next_id
  saved ← insert_ticket t db
  ok (t, event t.id EventKind.created none saved)

unfoldable pub create_walk_in_ticket :
    Calendar → SiteClock → List Hold → Env → WalkIn → Db → Result (Ticket × Db)
unfolding resolve_person dates_fit book_walk_in
create_walk_in_ticket cal clock holds env i db = do
  person ← resolve_person i false
  guard (dates_fit i.country (trim (or_empty i.departure_date)) (trim (or_empty i.arrival_date)))
      bad_request
  book_walk_in cal clock holds env i person db
