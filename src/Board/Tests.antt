-- ===== src/Board/Tests.antt =====
-- A board with a client who is called and one who comes later.
use ticket_system.Base.{ℕ, ◌≡◌, refl, List, [], ◌∷◌, Option, none, some, map}
use ticket_system.Domain.{TicketStatus, booked, called, rf}
use ticket_system.Presentation.{
  Day, booking, approach_column, kanban_column_for, ticket_on_board_day,
}
use ticket_system.Rules.{appointment_missed}
use ticket_system.Board.{
  TimeFormat, BoardTicketSource, board_columns, board_column_for, build_public_board_columns,
  label_number,
}
use ticket_system.Board.Columns.{
  shown_column, build_public_board_columns-filter, kanban_column_for-board_column_for,
}
use ticket_system.Person.{is_space}
use ticket_system.Queue.Tests.{one_desk}

abbrev entry : TicketStatus → ℕ → BoardTicketSource
entry s at = record {
  number = 65 ∷ [];
  status = s;
  full_name = none;
  country = some rf;
  scheduled_at = some at;
  desk = some one_desk;
  site_time_zone = [];
}

abbrev morning : Option Day
morning = some (record { start = 0; end = 100000000 })

abbrev format : TimeFormat
format zone at = []

abbrev entries : List BoardTicketSource
entries = entry booked 9000000 ∷ entry called 8000000 ∷ []

build_public_board_columns-filter_example :
    build_public_board_columns format entries morning 8000000
    ≡ map (shown_column format morning 8000000 entries) board_columns
build_public_board_columns-filter_example =
    build_public_board_columns-filter format morning 8000000 entries

calls : kanban_column_for called booking (some 8000000) morning 8000000 ≡ some approach_column
unfolding kanban_column_for ticket_on_board_day appointment_missed
calls = refl

kanban_column_for-board_column_for_example : board_column_for called ≡ some approach_column
kanban_column_for-board_column_for_example =
    kanban_column_for-board_column_for called booking (some 8000000) morning 8000000 approach_column
      calls

-- `A 12 ` ends with 12.
reads_number : label_number (65 ∷ 32 ∷ 49 ∷ 50 ∷ 32 ∷ []) ≡ some 12
unfolding label_number is_space
reads_number = refl
