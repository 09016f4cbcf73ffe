-- ===== src/Queue/Book/Tests.antt =====
-- Runs of holds and bookings, on a server in memory.
use ticket_system.Base.{ℕ, ◌+◌, ◌-◌, ◌≡◌, refl, true, false, [], ◌∷◌, Option, none, some, arith}
use ticket_system.Domain.{Text, rf}
use ticket_system.Booking.{
  assert_slot_available, duration_for, reserve_desk, is_free_desk, is_site_desk, choose_desk,
  is_slot_free, busy_desk_ids, blocked_desk_ids, reserved_desk_ids, held_desk_ids, block_desk_ids,
}
use ticket_system.Person.{
  assert_person_input, is_space, matches_from, is_letter, normalize_phone_digits,
}
use ticket_system.RateLimit.{
  Spelling, get_session_hold, hold_slot, consume_hold, peek_hold, holds_of, list_holds,
}
use ticket_system.RateLimit.Laws.{SpellingLaws}
use ticket_system.RateLimit.Memory.{Memory, empty, memory, memory-TextLaws}
use ticket_system.Queue.Store.{ok, is_ok}
use ticket_system.Queue.Tests.{one_desk}
use ticket_system.Queue.WalkIn.{WalkIn}
use ticket_system.Queue.WalkIn.Tests.{opened, morning, days, request}
use ticket_system.Booking.Tests.{moscow, monday_ten}
use ticket_system.Queue.Book.{
  slot_query, free_desk, hold_slot_for, take_hold, create_ticket, current_holds,
}
use ticket_system.Queue.Book.Held.{desk_slot, hold_slot_for-take_hold}
use ticket_system.Queue.Book.Once.{create_ticket-once}

-- A uuid is spelled in two units, a time in one.
abbrev units_time : Text → Option ℕ
units_time (a ∷ []) = some a
units_time _ = none

abbrev units_uuid : Text → Option ℕ
units_uuid (a ∷ b ∷ []) = some (b - 59)
units_uuid _ = none

abbrev pub units : Spelling
units = record {
  iso = λ at. at ∷ [];
  time_of = units_time;
  uuid = λ id. 100 ∷ (id + 59) ∷ [];
  uuid_of = units_uuid;
}

units-SpellingLaws : SpellingLaws units
units-SpellingLaws = record {
  time_of_iso = λ at. refl;
  uuid_of_uuid = λ id. ground arith;
  uuid_full = λ id. refl;
  uuid_plain = λ id. ground arith;
}

abbrev pub client : Text
client = 97 ∷ []

abbrev pub hold_one : Text
hold_one = 49 ∷ []

abbrev pub travel : WalkIn
travel = record request { departure_date = some (49 ∷ []); arrival_date = some (50 ∷ []) }

finds :
    free_desk moscow
      (current_holds memory units morning.now empty)
      morning
      (slot_query 1 rf monday_ten)
      none
      opened
    ≡ ok one_desk
unfolding free_desk assert_slot_available is_slot_free reserve_desk is_free_desk is_site_desk
    choose_desk busy_desk_ids blocked_desk_ids reserved_desk_ids held_desk_ids block_desk_ids
    duration_for holds_of list_holds
finds = refl

unheld : get_session_hold memory morning.now client empty ≡ none
unfolding get_session_hold
unheld = refl

hold_slot_for-take_hold_example :
    let (answer, after) =
      hold_slot_for memory units moscow morning client 1 rf monday_ten hold_one opened empty in
    (is_ok answer ≡ true)
    × ((take_hold memory units morning client hold_one monday_ten after).0
        ≡ ok (desk_slot memory memory-TextLaws units units-SpellingLaws one_desk monday_ten))
hold_slot_for-take_hold_example =
    hold_slot_for-take_hold memory memory-TextLaws units units-SpellingLaws moscow morning client 1
      rf monday_ten hold_one opened one_desk empty unheld finds refl

abbrev pub with_hold : Memory
with_hold =
    (hold_slot_for memory units moscow morning client 1 rf monday_ten hold_one opened empty).1

books :
    is_ok (create_ticket memory units moscow days morning travel client hold_one opened with_hold).0
    ≡ true
unfolding create_ticket hold_slot_for assert_person_input is_space matches_from is_letter
    normalize_phone_digits peek_hold get_session_hold assert_slot_available duration_for holds_of
    list_holds reserve_desk hold_slot consume_hold
books = refl

create_ticket-once_example :
    is_ok
      (create_ticket memory units moscow days morning travel client hold_one opened
        (create_ticket memory units moscow days morning travel client hold_one opened
          with_hold).1).0
    ≡ false
create_ticket-once_example =
    create_ticket-once memory units memory-TextLaws moscow days morning morning travel travel client
      hold_one hold_one opened opened with_hold books
