-- ===== src/Dispatch.antt =====
-- apps/api/src/queue/queue-dispatch.ts: the direction that an employee works in, the manager's list
-- of the day, and the order in which waiting tickets go to a desk.
pub mod Order
mod Tests
use ticket_system.Base.{
  ℕ, ◌+◌, ◌≡◌, Bool, true, false, not, ◌&&◌, ◌||◌, List, [], ◌∷◌, Option, none, some, ltb, ◌==◌,
  if◌then◌else◌, is_some, or_else, find,
}
use ticket_system.Base.Int.{ℤ, sub_ℕ}
use ticket_system.Domain.{
  TicketStatus, ClientCountry, assigned, called, in_service, completed, no_show, cancelled,
  includes, Desk, Ticket, Assignment,
}

-- The arguments are the employee's own country and the desk that was loaded with the employee.
unfoldable pub employee_work_country : Option ClientCountry → Option Desk → Option ClientCountry
employee_work_country (some c) desk = some c
employee_work_country none (some desk) = some desk.country
employee_work_country none none = none

abbrev pub manager_list_bottom_statuses : List TicketStatus
manager_list_bottom_statuses = no_show ∷ completed ∷ cancelled ∷ []

abbrev pub manager_in_progress_statuses : List TicketStatus
manager_in_progress_statuses = called ∷ assigned ∷ in_service ∷ []

unfoldable pub manager_list_sort_tier : Option TicketStatus → ℕ
manager_list_sort_tier none = 1
manager_list_sort_tier (some status) =
    if includes manager_list_bottom_statuses status
    then 2
    else if includes manager_in_progress_statuses status
    then 0
    else 1

abbrev owner_of : Option Assignment → Option ℕ
owner_of none = none
owner_of (some a) = some a.employee

unfoldable pub active_assignment_employee_id : List Assignment → Option ℕ
active_assignment_employee_id assignments = owner_of (find (λ a. a.active) assignments)

abbrev is_owner : Option ℕ → ℕ → Bool
is_owner none viewer = true
is_owner (some owner) viewer = owner == viewer

-- `assignments` are the rows of the ticket.
unfoldable pub manager_ticket_visible_in_list : TicketStatus → List Assignment → ℕ → Bool
manager_ticket_visible_in_list status assignments viewer =
    if not (includes manager_in_progress_statuses status)
    then true
    else is_owner (active_assignment_employee_id assignments) viewer

abbrev no_slot : Option ℕ → ℕ
no_slot none = 1
no_slot (some t) = 0

-- `scheduledAt ?? createdAt`.
abbrev pub effective_time : Option ℕ → ℕ → ℕ
effective_time none created_at = created_at
effective_time (some t) created_at = t

-- What the comparison reads of a ticket.
pub record ListEntry : Type 0 where
  pub scheduled_at : Option ℕ
  pub created_at : ℕ
  pub status : Option TicketStatus

-- `if (a !== b) return a - b;` and what follows.
unfoldable pub then_compare : ℕ → ℕ → ℤ → ℤ
then_compare a b rest = if not (a == b) then sub_ℕ a b else rest

unfoldable pub compare_manager_tickets : ListEntry → ListEntry → ℤ
compare_manager_tickets left right =
    then_compare (manager_list_sort_tier left.status) (manager_list_sort_tier right.status) (
      then_compare (no_slot left.scheduled_at) (no_slot right.scheduled_at) (
        then_compare (effective_time left.scheduled_at left.created_at)
          (effective_time right.scheduled_at right.created_at)
          (sub_ℕ left.created_at right.created_at)))

-- `ASC NULLS LAST`.
abbrev time_before : Option ℕ → Option ℕ → Bool
time_before none r = false
time_before (some l) none = true
time_before (some l) (some r) = ltb l r

-- The order of `applyQueueDispatchOrder`: which of two rows comes strictly first.
unfoldable pub dispatched_before : Ticket → Ticket → Bool
dispatched_before l r =
    if not (no_slot l.scheduled_at == no_slot r.scheduled_at)
    then ltb (no_slot l.scheduled_at) (no_slot r.scheduled_at)
    else if not (l.priority == r.priority)
    then ltb r.priority l.priority
    else if time_before l.scheduled_at r.scheduled_at
    then true
    else if time_before r.scheduled_at l.scheduled_at
    then false
    else ltb l.created_at r.created_at

-- `limit(1).getOne()` of an ordered query; rows that tie stay in their order.
unfoldable pub limit_one {ℓ} : {A : Type ℓ} → (A → A → Bool) → List A → Option A
limit_one before [] = none
limit_one before (x ∷ xs) = elim (limit_one before xs) [
  | none ↦ some x
  | some y ↦ if before y x then some y else some x
]
