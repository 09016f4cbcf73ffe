-- ===== src/Dispatch/Tests.antt =====
-- Runs of the orders.
use ticket_system.Base.{◌↔◌, refl, ◌≡◌, ◌<◌, true, some, arith, ℕ}
use ticket_system.Base.Int.{is_negative}
use ticket_system.Domain.{TicketStatus, called, checked_in, completed}
use ticket_system.Dispatch.{
  then_compare, manager_list_sort_tier, ListEntry, compare_manager_tickets,
}
use ticket_system.Dispatch.Order.{ListedBefore, compare_manager_tickets-ListedBefore}

abbrev entry : TicketStatus → ℕ → ListEntry
entry s t = record { scheduled_at = some t; created_at = 1; status = some s }

early_first :
    is_negative (compare_manager_tickets (entry checked_in 10) (entry checked_in 20)) ≡ true
unfolding compare_manager_tickets then_compare manager_list_sort_tier
early_first = refl

late_last : is_negative (compare_manager_tickets (entry checked_in 20) (entry completed 5)) ≡ true
unfolding compare_manager_tickets then_compare manager_list_sort_tier
late_last = refl

compare_manager_tickets-ListedBefore_example :
    (is_negative (compare_manager_tickets (entry called 90) (entry checked_in 20)) ≡ true)
    ↔ ListedBefore (entry called 90) (entry checked_in 20)
compare_manager_tickets-ListedBefore_example =
    compare_manager_tickets-ListedBefore (entry called 90) (entry checked_in 20)

called_above : manager_list_sort_tier (some called) < manager_list_sort_tier (some completed)
unfolding manager_list_sort_tier
called_above = omega arith
