-- ===== src/Rules/Tests.antt =====
-- Runs of the rules.
use ticket_system.Base.{◌≡◌, refl, ◌↔◌, true, false, none, some}
use ticket_system.Domain.{booked, assigned, in_service}
use ticket_system.Rules.{start, next_ticket_status, can_check_in}
use ticket_system.Rules.Lifecycle.{Moves, next_ticket_status-Moves}

next_ticket_status-Moves_example :
    (next_ticket_status assigned start true ≡ some in_service)
    ↔ Moves assigned start true in_service
next_ticket_status-Moves_example = next_ticket_status-Moves assigned in_service start true

start_needs_call : next_ticket_status assigned start false ≡ none
unfolding next_ticket_status
start_needs_call = refl

check_in_early : can_check_in booked (some 3600000) 20 3000000 ≡ true
unfolding can_check_in
check_in_early = refl
