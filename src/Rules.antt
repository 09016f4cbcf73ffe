-- ===== src/Rules.antt =====
-- apps/api/src/queue/queue.rules.ts: which action moves a ticket where, and the windows in time
-- for a check-in and for a missed appointment. Times are milliseconds since the epoch.
pub mod Lifecycle
pub mod Windows
mod Tests
use ticket_system.Base.{
  ℕ, ◌+◌, ◌-◌, ◌*◌, Bool, true, false, not, ◌&&◌, ◌||◌, List, [], ◌∷◌, Option, none, some, leb, ltb,
  if◌then◌else◌,
}
use ticket_system.Domain.{
  TicketStatus, booked, waiting, checked_in, assigned, called, in_service, completed, requeued,
  no_show, cancelled, status_eq, includes,
}

pub data AssignmentAction : Type 0 where
  call start complete requeue mark_no_show : AssignmentAction

pub record Transition : Type 0 where
  pub from : List TicketStatus
  pub to : TicketStatus

abbrev pub transitions : AssignmentAction → Transition
transitions call = record { from = assigned ∷ []; to = called }
transitions start = record { from = called ∷ []; to = in_service }
transitions complete = record { from = in_service ∷ []; to = completed }
transitions requeue = record { from = assigned ∷ called ∷ []; to = requeued }
transitions mark_no_show = record { from = called ∷ booked ∷ []; to = no_show }

abbrev pub is_start : AssignmentAction → Bool
is_start start = true
is_start _ = false

-- `has_slot` is `options?.hasScheduledSlot`.
unfoldable pub next_ticket_status : TicketStatus → AssignmentAction → Bool → Option TicketStatus
next_ticket_status current action has_slot =
    if is_start action && status_eq current assigned && has_slot
    then some in_service
    else if includes (transitions action).from current
    then some (transitions action).to
    else none

unfoldable pub can_cancel : TicketStatus → Bool
can_cancel status =
    includes (booked ∷ waiting ∷ checked_in ∷ assigned ∷ called ∷ requeued ∷ []) status

unfoldable pub can_release_on_break : TicketStatus → Bool
can_release_on_break status = includes (assigned ∷ called ∷ []) status

unfoldable pub blocks_break : TicketStatus → Bool
blocks_break status = status_eq status in_service

abbrev pub minute_ms : ℕ
minute_ms = 60000

pub record Window : Type 0 where
  pub opens : ℕ
  pub closes : ℕ

-- In the source the start may lie before the epoch; here it stops at 0, which no time precedes.
unfoldable pub check_in_window : ℕ → ℕ → Window
check_in_window scheduled_at duration_minutes = record {
  opens = scheduled_at - 15 * minute_ms;
  closes = scheduled_at + duration_minutes * minute_ms;
}

unfoldable pub can_check_in : TicketStatus → Option ℕ → ℕ → ℕ → Bool
unfolding check_in_window
can_check_in status none duration_minutes now = false
can_check_in status (some scheduled_at) duration_minutes now =
    if not (status_eq status booked)
    then false
    else leb (check_in_window scheduled_at duration_minutes).opens now
      && leb now (check_in_window scheduled_at duration_minutes).closes

unfoldable pub check_in_window_expired : Option ℕ → ℕ → ℕ → Bool
check_in_window_expired none duration_minutes now = false
check_in_window_expired (some scheduled_at) duration_minutes now =
    ltb (scheduled_at + duration_minutes * minute_ms) now

abbrev pub no_show_grace_ms : ℕ
no_show_grace_ms = 60 * minute_ms

abbrev pub auto_no_show_statuses : List TicketStatus
auto_no_show_statuses = booked ∷ waiting ∷ checked_in ∷ requeued ∷ assigned ∷ []

unfoldable pub appointment_missed : Option ℕ → ℕ → Bool
appointment_missed none now = false
appointment_missed (some scheduled_at) now = leb (scheduled_at + no_show_grace_ms) now
