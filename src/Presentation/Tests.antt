-- ===== src/Presentation/Tests.antt =====
-- Runs of the presentation.
use ticket_system.Base.{◌≡◌, refl, ◌↔◌, true, some, none, any}
use ticket_system.Domain.{booked, called, completed, status_eq}
use ticket_system.Presentation.{booking, walk_in, kanban_column_for, approach_column}
use ticket_system.Presentation.Manager.{
  validate_manager_status_change, manager_status_picker_options, manager_action_label,
}
use ticket_system.Presentation.Moves.{
  ManagerMove, validate_manager_status_change-ManagerMove, picker-validate_manager_status_change,
}

refused_message :
    validate_manager_status_change booking called booked
    ≡ some "Из «Вызов» можно только: Завершить."
unfolding validate_manager_status_change manager_action_label
refused_message = refl

shown_on_board : kanban_column_for called walk_in none none 0 ≡ some approach_column
unfolding kanban_column_for
shown_on_board = refl

validate_manager_status_change-ManagerMove_example :
    (validate_manager_status_change booking booked called ≡ none) ↔ ManagerMove booked called
validate_manager_status_change-ManagerMove_example =
    validate_manager_status_change-ManagerMove booking booked called

picker-validate_manager_status_change_example :
    (any (λ o. status_eq o.value completed) (manager_status_picker_options booking called) ≡ true)
    ↔ (validate_manager_status_change booking called completed ≡ none)
picker-validate_manager_status_change_example =
    picker-validate_manager_status_change booking called completed
