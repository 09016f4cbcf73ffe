-- ===== src/Queue/WalkIn/Tests.antt =====
-- Runs of the creation of a ticket for a client at the desk.
use ticket_system.Base.{◌*◌, ◌-◌, ◌≡◌, refl, true, false, [], ◌∷◌, none, some}
use ticket_system.Domain.{rf}
use ticket_system.Queue.Store.{Db, Env, is_ok}
use ticket_system.Queue.Tests.{office}
use ticket_system.Booking.Tests.{moscow, monday_ten}
use ticket_system.Person.Tests.{family, given, father, dialled}
use ticket_system.Person.{
  assert_person_input, person_error, required_dates_error, name_field_error, name_pattern,
  matches_from, is_letter, trim, is_space, phone_field_error, is_mobile, normalize_phone_digits,
}
use ticket_system.Booking.{
  duration_for, assert_slot_available, is_slot_free, reserve_desk, is_free_desk, is_site_desk,
  choose_desk, busy_desk_ids, blocked_desk_ids, reserved_desk_ids, held_desk_ids, block_desk_ids,
}
use ticket_system.Queue.WalkIn.{
  resolve_person, dates_fit, book_walk_in, insert_ticket, WalkIn, SiteClock, create_walk_in_ticket,
  ticket_number, decimal,
}

abbrev pub opened : Db
opened = record (office [] []) {
  sites = record { id = 1; code = 65 ∷ []; name = []; timezone = []; active = true } ∷ [];
  services = record { id = 2; name = []; sla_seconds = 1200; active = true; site = 1 } ∷ [];
}

abbrev pub morning : Env
morning = record { now = monday_ten - 3600000; locked = λ _. false; updated_at = λ i. i }

abbrev pub days : SiteClock
days = record {
  date_in = λ _ ms. moscow.date_of ms;
  day_start = λ _ ms. moscow.date_of ms * 86400000 - 10800000;
}

abbrev pub request : WalkIn
request = record {
  site_id = 1;
  service_type_id = 2;
  country = rf;
  full_name = [];
  last_name = some family;
  first_name = some given;
  patronymic = some father;
  scheduled_at = monday_ten;
  phone = dialled;
  departure_date = none;
  arrival_date = none;
  token_hash = 77;
  lookup_code_hash = 78;
}

-- `A-001`.
numbers_padded : ticket_number (65 ∷ []) 1 ≡ 65 ∷ 45 ∷ 48 ∷ 48 ∷ 49 ∷ []
unfolding ticket_number decimal
numbers_padded = refl

creates : is_ok (create_walk_in_ticket moscow days [] morning request opened) ≡ true
unfolding create_walk_in_ticket resolve_person dates_fit book_walk_in insert_ticket
    assert_person_input person_error required_dates_error name_field_error name_pattern matches_from
    is_letter trim is_space phone_field_error is_mobile normalize_phone_digits assert_slot_available
    is_slot_free reserve_desk is_free_desk is_site_desk choose_desk busy_desk_ids blocked_desk_ids
    reserved_desk_ids held_desk_ids block_desk_ids duration_for
creates = refl
