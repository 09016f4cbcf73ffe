-- ===== src/Presentation/Manager.antt =====
-- apps/api/src/queue/ticket-presentation.ts: the labels that a manager sees, and the statuses that a
-- manager may choose next.
use Prim.Native.String.{String, ◌++◌}
use ticket_system.Base.{
  Bool, true, false, not, ◌&&◌, List, [], ◌∷◌, map, Option, none, some, if◌then◌else◌,
}
use ticket_system.Domain.{
  TicketStatus, booked, waiting, checked_in, assigned, called, in_service, completed, requeued,
  no_show, cancelled, status_eq, includes,
}
use ticket_system.Presentation.{TicketKind, is_walk_in, fallback_status_label, label_or}

abbrev pub manager_terminal : List TicketStatus
manager_terminal = completed ∷ cancelled ∷ no_show ∷ []

abbrev walk_in_simple_label : TicketStatus → Option String
walk_in_simple_label checked_in = some "В очереди"
walk_in_simple_label requeued = some "В очереди"
walk_in_simple_label assigned = some "В очереди"
walk_in_simple_label called = some "Вызов"
walk_in_simple_label in_service = some "Обработка"
walk_in_simple_label completed = some "Готово"
walk_in_simple_label cancelled = some "Отменено"
walk_in_simple_label no_show = some "Не явился"
walk_in_simple_label _ = none

abbrev booking_simple_label : TicketStatus → Option String
booking_simple_label booked = some "Ожидает"
booking_simple_label waiting = some "Ожидает"
booking_simple_label checked_in = some "В очереди"
booking_simple_label requeued = some "В очереди"
booking_simple_label assigned = some "Вызов"
booking_simple_label called = some "Вызов"
booking_simple_label in_service = some "Обработка"
booking_simple_label completed = some "Готово"
booking_simple_label cancelled = some "Отменено"
booking_simple_label no_show = some "Не явился"

unfoldable pub manager_simple_label : TicketStatus → TicketKind → String
unfolding fallback_status_label
manager_simple_label status kind =
    if is_walk_in kind
    then label_or (walk_in_simple_label status) (fallback_status_label status)
    else label_or (booking_simple_label status) (fallback_status_label status)

unfoldable pub manager_action_label : TicketStatus → TicketKind → TicketStatus → String
unfolding manager_simple_label
manager_action_label to kind from =
    if status_eq to in_service
    then "Обработка"
    else if status_eq to no_show
    then "Не явился"
    else if status_eq to completed
    then "Завершить"
    else if status_eq to requeued
    then "Вернуть в очередь"
    else if status_eq to called
    then "Вызов клиента"
    else if status_eq to assigned && not (is_walk_in kind)
    then "Вызов"
    else if status_eq to checked_in && includes (booked ∷ waiting ∷ []) from
    then "Клиент пришёл"
    else if status_eq to checked_in && includes (called ∷ assigned ∷ []) from
    then "Вернуть в очередь"
    else manager_simple_label to kind

unfoldable pub manager_next_statuses : TicketKind → TicketStatus → List TicketStatus
manager_next_statuses kind from =
    if includes manager_terminal from
    then []
    else if includes (called ∷ assigned ∷ in_service ∷ []) from
    then completed ∷ []
    else called ∷ []

-- `hints.join(', ')`.
join : String → List String → String
join sep [] = ""
join sep (s ∷ []) = s
join sep (s ∷ t ∷ ts) = s ++ sep ++ join sep (t ∷ ts)

-- The message of a refusal, from the labels of what is allowed.
refusal : TicketKind → TicketStatus → List String → String
unfolding join
refusal kind from [] = "Сейчас «" ++ manager_simple_label from kind ++ "» — дальше менять нельзя."
refusal kind from (h ∷ hs) =
    "Из «" ++ manager_simple_label from kind ++ "» можно только: " ++ join ", " (h ∷ hs) ++ "."

-- The refusal of a status, in words; `none` allows it.
unfoldable pub validate_manager_status_change :
    TicketKind → TicketStatus → TicketStatus → Option String
unfolding manager_next_statuses refusal
validate_manager_status_change kind from to =
    if status_eq from to
    then none
    else if includes manager_terminal from
    then some "Талон уже закрыт — менять статус нельзя."
    else if not (includes (manager_next_statuses kind from) to)
    then some (
        refusal kind from
          (map (λ s. manager_action_label s kind from) (manager_next_statuses kind from)))
    else none

pub record PickerOption : Type 0 where
  pub value : TicketStatus
  pub label : String
  pub current : Bool

unfoldable pub manager_status_picker_options : TicketKind → TicketStatus → List PickerOption
unfolding manager_next_statuses
manager_status_picker_options kind current =
    record { value = current; label = manager_simple_label current kind; current = true }
    ∷ map (λ s. record { value = s; label = manager_action_label s kind current; current = false })
        (manager_next_statuses kind current)
