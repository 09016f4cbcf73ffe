-- ===== src/Rules/Windows.antt =====
-- The windows in time of an appointment.
use ticket_system.Base.{ℕ, ◌+◌, ◌*◌, ◌<◌, ◌≡◌, true, false, not, ◌&&◌, some, leb, arith}
use ticket_system.Domain.{TicketStatus, booked}
use ticket_system.Rules.{minute_ms, can_check_in, check_in_window_expired, appointment_missed}

-- A booked client can check in exactly from a quarter of an hour before the slot until the window
-- counts as expired.
pub can_check_in-check_in_window_expired :
    (at duration now : ℕ)
    → can_check_in booked (some at) duration now
      ≡ (leb at (now + 15 * minute_ms) && not (check_in_window_expired (some at) duration now))
unfolding can_check_in check_in_window_expired
can_check_in-check_in_window_expired at duration now = ground arith

-- When an appointment shorter than an hour counts as missed, its check-in window is over.
pub appointment_missed-can_check_in :
    (s : TicketStatus) (at duration now : ℕ)
    → duration < 60
    → appointment_missed (some at) now ≡ true
    → (check_in_window_expired (some at) duration now ≡ true)
      × (can_check_in s (some at) duration now ≡ false)
unfolding can_check_in check_in_window_expired appointment_missed
appointment_missed-can_check_in s at duration now d h = ground arith
