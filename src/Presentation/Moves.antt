-- ===== src/Presentation/Moves.antt =====
-- The statuses that a manager may set by hand.
use ticket_system.Base.{any, none, ◌≡◌, refl, ◌↔◌, true, arith}
use ticket_system.Domain.{
  TicketStatus, booked, waiting, checked_in, assigned, called, in_service, completed, requeued,
  status_eq,
}
use ticket_system.Presentation.{TicketKind}
use ticket_system.Presentation.Manager.{
  validate_manager_status_change, manager_status_picker_options,
}

-- A waiting client is called, a client with a manager is completed; any status may be kept.
pub data ManagerMove : TicketStatus → TicketStatus → Type 0 where
  stays : {s : TicketStatus} → ManagerMove s s
  calls_booked : ManagerMove booked called
  calls_waiting : ManagerMove waiting called
  calls_checked_in : ManagerMove checked_in called
  calls_requeued : ManagerMove requeued called
  completes_assigned : ManagerMove assigned completed
  completes_called : ManagerMove called completed
  completes_served : ManagerMove in_service completed

ruleset moves = (
  stays, calls_booked, calls_waiting, calls_checked_in, calls_requeued, completes_assigned,
  completes_called, completes_served,
)

ManagerMove-sound :
    (kind : TicketKind) (from to : TicketStatus)
    → validate_manager_status_change kind from to ≡ none
    → ManagerMove from to
unfolding validate_manager_status_change
ManagerMove-sound kind from to h = grind (arith, moves)

status_eq_refl : (s : TicketStatus) → status_eq s s ≡ true
status_eq_refl s = ground arith

ManagerMove-complete :
    (kind : TicketKind) {from to : TicketStatus}
    → ManagerMove from to
    → validate_manager_status_change kind from to ≡ none
unfolding validate_manager_status_change
ManagerMove-complete kind (stays {s}) = rw (status_eq_refl s)
ManagerMove-complete kind calls_booked = refl
ManagerMove-complete kind calls_waiting = refl
ManagerMove-complete kind calls_checked_in = refl
ManagerMove-complete kind calls_requeued = refl
ManagerMove-complete kind completes_assigned = refl
ManagerMove-complete kind completes_called = refl
ManagerMove-complete kind completes_served = refl

-- A change of status is allowed exactly along these moves, whatever the kind of the ticket.
pub validate_manager_status_change-ManagerMove :
    (kind : TicketKind) (from to : TicketStatus)
    → (validate_manager_status_change kind from to ≡ none) ↔ ManagerMove from to
validate_manager_status_change-ManagerMove kind from to =
    (ManagerMove-sound kind from to, ManagerMove-complete kind)

-- The options of the picker are exactly the statuses that the check allows.
pub picker-validate_manager_status_change :
    (kind : TicketKind) (from to : TicketStatus)
    → (any (λ o. status_eq o.value to) (manager_status_picker_options kind from) ≡ true)
      ↔ (validate_manager_status_change kind from to ≡ none)
unfolding manager_status_picker_options validate_manager_status_change
picker-validate_manager_status_change kind from to = grind arith
