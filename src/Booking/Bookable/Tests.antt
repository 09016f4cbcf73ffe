-- ===== src/Booking/Bookable/Tests.antt =====
-- A day of slots.
use ticket_system.Base.{◌≡◌, refl, true, [], none, In, inl, inr, arith}
use ticket_system.Domain.{rf}
use ticket_system.Booking.{
  assert_slot_available, generate_slot_times, slot_loop, duration_for, is_site_desk, held_desk_ids,
}
use ticket_system.Booking.Tests.{moscow}
use ticket_system.Booking.Available.{
  ZoneClock, AvailableSlot, moscow_zone, day_query, list_available_slots, offers, offer,
  is_available, slot_desks,
}
use ticket_system.Booking.Bookable.{DayLaws, list_available_slots-assert_slot_available}
use ticket_system.Queue.Store.{Db, ok}
use ticket_system.Queue.Tests.{office}

abbrev clock : ZoneClock
clock = λ zone date time. moscow.slot_to_date date time

moscow-DayLaws : DayLaws moscow clock moscow_zone 4
moscow-DayLaws = record {
  same_zone = λ time. refl;
  date_back = λ time h. omega arith;
  minutes_back = λ time h. omega arith;
}

abbrev empty_room : Db
empty_room = office [] []

-- The third slot of the day.
abbrev third : AvailableSlot
third = record { time = 520; scheduled_at = moscow.slot_to_date 4 520; available = true }

listed : In third (list_available_slots moscow clock [] 5 1 4 rf none empty_room)
unfolding list_available_slots offers offer is_available slot_desks generate_slot_times slot_loop
    duration_for is_site_desk held_desk_ids
listed = inr (inr (inl refl))

list_available_slots-assert_slot_available_example :
    assert_slot_available moscow [] 5 (day_query clock moscow_zone 1 4 rf none 520) empty_room
    ≡ ok tt
list_available_slots-assert_slot_available_example =
    list_available_slots-assert_slot_available moscow clock [] 5 1 4 rf none empty_room third
      moscow-DayLaws (λ t i h. elim i [ ]) listed refl
