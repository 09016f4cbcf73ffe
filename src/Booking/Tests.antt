-- ===== src/Booking/Tests.antt =====
-- Runs of the booking on a Monday of January 1970 in Moscow.
use ticket_system.Base.{
  true, ℕ, ◌+◌, ◌-◌, ◌*◌, ◌/◌, ◌%◌, ◌≡◌, ◌||◌, refl, false, [], ◌∷◌, none, some, arith, All, In,
  inl, ◌==◌,
}
use ticket_system.Domain.{BlockedSlot, rf, cn, booked, ticket_keyed}
use ticket_system.Queue.Store.{Db, ok, is_ok}
use ticket_system.Queue.Tests.{ticket_of, one_desk, office, calm}
use ticket_system.Booking.{
  workday_end_minutes, slot_loop, assert_slot_available, Calendar, SlotQuery, generate_slot_times,
  slot_duration, reserve_desk, is_slot_free, holds_slot, blocks_slot, is_free_desk, is_site_desk,
  choose_desk, busy_desk_ids, blocked_desk_ids, reserved_desk_ids, held_desk_ids, block_desk_ids,
}
use ticket_system.Booking.Slots.{
  slot_loop_enough, FitsDay, generate_slot_times-FitsDay, generate_slot_times-In,
}
use ticket_system.Booking.Reserve.{
  reserve_desk-is_slot_free, reserve_desk-holds_slot, reserve_desk-blocks_slot,
}
use ticket_system.Queue.Reschedule.{save_slot, reschedule_ticket}

abbrev pub moscow : Calendar
moscow = record {
  date_of = λ ms. (ms + 10800000) / 86400000;
  minutes_of = λ ms. ((ms + 10800000) / 60000) % 1440;
  is_weekend = λ day. (day + 4) % 7 == 0 || (day + 4) % 7 == 6;
  slot_to_date = λ day minutes. day * 86400000 + minutes * 60000 - 10800000;
}

-- The fifth of January, at ten.
abbrev pub monday_ten : ℕ
monday_ten = 4 * 86400000 + 600 * 60000 - 10800000

abbrev ten : SlotQuery
ten = record {
  site_id = 1;
  country = rf;
  start_ms = monday_ten;
  duration_minutes = 20;
  exclude_ticket_id = some 8;
}

abbrev lunch : BlockedSlot
lunch = record { id = 9; site = 1; employee = 4; date = 4; start_time = 720; end_time = 780 }

abbrev desk_room : Db
desk_room = record (office (ticket_of 5 booked ∷ ticket_of 8 booked ∷ []) []) {
  blocked_slots = lunch ∷ [];
}

chosen : reserve_desk moscow [] ten none desk_room ≡ ok one_desk
unfolding reserve_desk is_free_desk is_site_desk choose_desk busy_desk_ids blocked_desk_ids
    reserved_desk_ids held_desk_ids block_desk_ids holds_slot blocks_slot
chosen = refl

reserve_desk-is_slot_free_example :
    is_ok (reserve_desk moscow [] ten none desk_room) ≡ is_slot_free moscow [] ten desk_room
reserve_desk-is_slot_free_example = reserve_desk-is_slot_free moscow [] ten none desk_room

reserve_desk-holds_slot_example : holds_slot ten (ticket_of 5 booked) ≡ false
reserve_desk-holds_slot_example =
    reserve_desk-holds_slot moscow [] ten none desk_room one_desk (ticket_of 5 booked) chosen
      (inl refl) refl

reserve_desk-blocks_slot_example : blocks_slot moscow ten lunch ≡ false
reserve_desk-blocks_slot_example =
    reserve_desk-blocks_slot moscow [] ten none desk_room one_desk lunch chosen (inl refl) refl

generate_slot_times-FitsDay_example : All (FitsDay (slot_duration cn)) (generate_slot_times cn)
generate_slot_times-FitsDay_example = generate_slot_times-FitsDay cn

generate_slot_times-In_example : In (480 + 17 * 30) (generate_slot_times cn)
generate_slot_times-In_example = generate_slot_times-In cn 17 (omega arith)

abbrev apart_room : Db
apart_room = office (ticket_of 5 booked ∷ []) []

moves : is_ok (reschedule_ticket moscow (λ _. []) [] calm 7 5 monday_ten apart_room) ≡ true
unfolding reschedule_ticket assert_slot_available save_slot reserve_desk is_free_desk is_site_desk
    choose_desk busy_desk_ids blocked_desk_ids reserved_desk_ids held_desk_ids block_desk_ids
    holds_slot blocks_slot is_slot_free
moves = refl

slot_loop_enough_example :
    slot_loop (workday_end_minutes + 7) 20 480 ≡ slot_loop workday_end_minutes 20 480
slot_loop_enough_example = slot_loop_enough 7 20 480 (omega arith)
