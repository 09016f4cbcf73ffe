-- ===== src/Presentation.antt =====
-- apps/api/src/queue/ticket-presentation.ts: what a client sees of a ticket, and the columns of the
-- public board. What a manager sees is in the child `Manager`.
pub mod Manager
pub mod Progress
pub mod Moves
mod Tests
use Prim.Native.String.{String}
use ticket_system.Base.{
  ℕ, Bool, true, false, not, ◌&&◌, ◌||◌, List, [], ◌∷◌, Option, none, some, leb, ltb, is_some,
  if◌then◌else◌, or_else,
}
use ticket_system.Domain.{
  TicketStatus, booked, waiting, checked_in, assigned, called, in_service, completed, requeued,
  no_show, cancelled, status_eq, includes,
}
use ticket_system.Rules.{auto_no_show_statuses, appointment_missed}

pub data TicketKind : Type 0 where
  booking walk_in : TicketKind

-- `BoardColumnId` of queue.display.ts.
pub data BoardColumnId : Type 0 where
  booked_column approach_column : BoardColumnId

unfoldable pub ticket_kind : Option ℕ → TicketKind
ticket_kind (some t) = booking
ticket_kind none = walk_in

abbrev pub is_walk_in : TicketKind → Bool
is_walk_in walk_in = true
is_walk_in booking = false

unfoldable pub fallback_status_label : TicketStatus → String
fallback_status_label booked = "Запись"
fallback_status_label waiting = "Ожидает"
fallback_status_label checked_in = "В очереди"
fallback_status_label requeued = "Повторно в очереди"
fallback_status_label assigned = "Назначен"
fallback_status_label called = "Вызов"
fallback_status_label in_service = "Обслуживается"
fallback_status_label completed = "Завершён"
fallback_status_label cancelled = "Отменён"
fallback_status_label no_show = "Не явился"

abbrev pub label_or : Option String → String → String
label_or none d = d
label_or (some s) d = s

abbrev walk_in_label : TicketStatus → Option String
walk_in_label checked_in = some "В очереди"
walk_in_label requeued = some "Снова в очереди"
walk_in_label assigned = some "Скоро вызовут"
walk_in_label called = some "Вас вызывают"
walk_in_label in_service = some "Обслуживается"
walk_in_label completed = some "Завершён"
walk_in_label cancelled = some "Отменён"
walk_in_label no_show = some "Не явились"
walk_in_label _ = none

abbrev booking_label : TicketStatus → Option String
booking_label booked = some "Запись подтверждена"
booking_label waiting = some "Ожидает явки"
booking_label checked_in = some "Ожидаете свободный стол"
booking_label requeued = some "Снова ждёте стол"
booking_label assigned = some "Подойдите к столу"
booking_label called = some "Подойдите к столу"
booking_label in_service = some "Обслуживается"
booking_label completed = some "Завершён"
booking_label cancelled = some "Запись отменена"
booking_label no_show = some "Не явились"

unfoldable pub client_status_label : TicketStatus → TicketKind → String
unfolding fallback_status_label
client_status_label status kind =
    if is_walk_in kind
    then label_or (walk_in_label status) (fallback_status_label status)
    else label_or (booking_label status) (fallback_status_label status)

unfoldable pub client_shows_desk : TicketStatus → TicketKind → Bool
client_shows_desk status kind =
    if includes (in_service ∷ completed ∷ []) status
    then true
    else if is_walk_in kind
    then status_eq status called
    else includes (assigned ∷ called ∷ in_service ∷ []) status

unfoldable pub client_progress_step : TicketStatus → TicketKind → ℕ
client_progress_step status kind =
    if includes (completed ∷ cancelled ∷ no_show ∷ []) status
    then 3
    else if status_eq status in_service
    then 2
    else if is_walk_in kind
    then (if status_eq status called then 1 else 0)
    else if includes (assigned ∷ called ∷ []) status
    then 1
    else 0

unfoldable pub client_progress_labels : TicketKind → List String
client_progress_labels walk_in = "Очередь" ∷ "Вызов" ∷ "Приём" ∷ "Итог" ∷ []
client_progress_labels booking = "Ожидание" ∷ "К столу" ∷ "Приём" ∷ "Итог" ∷ []

pub record Day : Type 0 where
  pub start : ℕ
  pub end : ℕ

unfoldable pub ticket_on_board_day : Option ℕ → Option Day → Bool
ticket_on_board_day (some time) (some day) = leb day.start time && ltb time day.end
ticket_on_board_day _ _ = true

unfoldable pub kanban_column_for :
    TicketStatus → TicketKind → Option ℕ → Option Day → ℕ → Option BoardColumnId
unfolding ticket_on_board_day
kanban_column_for status kind scheduled_at day now =
    if is_some scheduled_at && is_some day && not (ticket_on_board_day scheduled_at day)
    then none
    else if includes auto_no_show_statuses status && appointment_missed scheduled_at now
    then none
    else if status_eq status booked
    then (if is_walk_in kind || not (is_some scheduled_at) || not (is_some day)
        then none
        else some booked_column)
    else if status_eq status in_service || status_eq status called
    then some approach_column
    else if status_eq status assigned
    then (if is_walk_in kind then none else some approach_column)
    else none
