-- ===== src/Board.antt =====
-- apps/api/src/queue/queue.display.ts, and `getPublicBoard` of queue.service.ts: the public board.
-- How the runtime writes a time of day is an argument. A number in a label is read without a bound.
pub mod Columns
pub mod Public
mod Tests
use Prim.Native.String.{String}
use ticket_system.Base.{
  ℕ, zero, suc, ◌+◌, ◌-◌, ◌*◌, Bool, true, false, not, ◌&&◌, ◌||◌, List, [], ◌∷◌, ◌++◌, Option,
  none, some, leb, ltb, ◌==◌, if◌then◌else◌, is_some, filter, find, map, any, row, or_else,
  order_rows,
}
use ticket_system.Domain.{
  Text, TicketStatus, ClientCountry, rf, cn, booked, called, assigned, in_service, includes, Desk,
  Site, Ticket, Assignment, desk_keyed, is_country,
}
use ticket_system.Texts.{same_text}
use ticket_system.Person.{trim, is_digit, is_space, is_empty, or_empty}
use ticket_system.Presentation.{
  TicketKind, BoardColumnId, booked_column, approach_column, ticket_kind, kanban_column_for, Day,
}
use ticket_system.Dispatch.{effective_time}
use ticket_system.Queue.Store.{Db, Env, Result, ok, err, ◌>>=◌, require, not_found}

pub record BoardColumn : Type 0 where
  pub id : BoardColumnId
  pub title : String
  pub statuses : List TicketStatus

abbrev pub board_columns : List BoardColumn
board_columns =
    record { id = booked_column; title = "Запись"; statuses = booked ∷ [] }
    ∷ record {
      id = approach_column;
      title = "Подойти";
      statuses = called ∷ assigned ∷ in_service ∷ [];
    }
    ∷ []

-- `—`.
abbrev pub dash : Text
dash = 8212 ∷ []

abbrev pub or_dash : Text → Text
or_dash [] = dash
or_dash (c ∷ cs) = c ∷ cs

abbrev pub first_word : Text → Text
first_word [] = []
first_word (c ∷ cs) = let rest = first_word cs in if is_space c then [] else c ∷ rest

unfoldable pub last_name_from_full_name : Option Text → Text
last_name_from_full_name full_name = or_dash (first_word (trim (or_empty full_name)))

unfoldable pub board_full_name : Option Text → Text
board_full_name full_name = or_dash (trim (or_empty full_name))

unfoldable pub board_country_label : Option ClientCountry → String
board_country_label (some cn) = "Заграничная"
board_country_label (some rf) = "РФ"
board_country_label none = "—"

-- `toLocaleString` in a time zone.
abbrev pub TimeFormat : Type 0
TimeFormat = Text → ℕ → Text

unfoldable pub format_board_slot_time : TimeFormat → Text → Option ℕ → Option Text
format_board_slot_time format zone none = none
format_board_slot_time format zone (some at) = some (format zone at)

abbrev pub drop_spaces : Text → Text
drop_spaces [] = []
drop_spaces (c ∷ cs) = let rest = drop_spaces cs in if is_space c then rest else c ∷ cs

abbrev pub take_digits : Text → Text
take_digits [] = []
take_digits (c ∷ cs) = let rest = take_digits cs in if is_digit c then c ∷ rest else []

-- The value of digits, the last of which comes first.
abbrev pub digits_value : Text → ℕ
digits_value [] = 0
digits_value (c ∷ cs) = (c - 48) + 10 * digits_value cs

abbrev pub reversed_onto : Text → Text → Text
reversed_onto [] back = back
reversed_onto (c ∷ cs) back = reversed_onto cs (c ∷ back)

abbrev pub positive : ℕ → Option ℕ
positive zero = none
positive (suc n) = some (suc n)

-- `/(\d+)\s*$/`: the digits before the spaces at the end.
unfoldable pub label_number : Text → Option ℕ
label_number label = positive (digits_value (take_digits (drop_spaces (reversed_onto label []))))

-- A number that is set and positive, or else the one at the end of the label.
unfoldable pub desk_number_from : Option Desk → Option ℕ
unfolding label_number
desk_number_from none = none
desk_number_from (some desk) = elim desk.display_number [
  | some (suc n) ↦ some (suc n)
  | some zero ↦ label_number desk.label
  | none ↦ label_number desk.label
]

abbrev pub column_of : TicketStatus → List BoardColumn → Option BoardColumnId
column_of status [] = none
column_of status (column ∷ columns) =
    let rest = column_of status columns in
    if includes column.statuses status then some column.id else rest

unfoldable pub board_column_for : TicketStatus → Option BoardColumnId
board_column_for status = column_of status board_columns

pub record PublicBoardTicket : Type 0 where
  pub number : Text
  pub full_name : Text
  pub country_label : String
  pub scheduled_time : Option Text
  pub desk_number : Option ℕ
  pub kind : TicketKind

pub record PublicBoardColumn : Type 0 where
  pub id : BoardColumnId
  pub title : String
  pub show_desk : Bool
  pub tickets : List PublicBoardTicket

pub record BoardTicketSource : Type 0 where
  pub number : Text
  pub status : TicketStatus
  pub full_name : Option Text
  pub country : Option ClientCountry
  pub scheduled_at : Option ℕ
  pub desk : Option Desk
  pub site_time_zone : Text

-- The rows of the map `grouped`.
pub record Grouped : Type 0 where
  pub booked_rows : List BoardTicketSource
  pub approach_rows : List BoardTicketSource

-- `grouped.get(columnId)?.push(ticket)`.
abbrev pub push_row : Option BoardColumnId → BoardTicketSource → Grouped → Grouped
push_row none t g = g
push_row (some booked_column) t g = record g { booked_rows = g.booked_rows ++ t ∷ [] }
push_row (some approach_column) t g = record g { approach_rows = g.approach_rows ++ t ∷ [] }

unfoldable pub source_column : Option Day → ℕ → BoardTicketSource → Option BoardColumnId
source_column day now t =
    kanban_column_for t.status (ticket_kind t.scheduled_at) t.scheduled_at day now

-- The loop over the tickets.
unfoldable pub group_rows : Option Day → ℕ → List BoardTicketSource → Grouped → Grouped
unfolding source_column
group_rows day now [] g = g
group_rows day now (t ∷ ts) g = group_rows day now ts (push_row (source_column day now t) t g)

abbrev pub rows_of : BoardColumnId → Grouped → List BoardTicketSource
rows_of booked_column g = g.booked_rows
rows_of approach_column g = g.approach_rows

abbrev pub is_approach : BoardColumnId → Bool
is_approach approach_column = true
is_approach booked_column = false

unfoldable pub board_ticket : TimeFormat → Bool → BoardTicketSource → PublicBoardTicket
unfolding format_board_slot_time desk_number_from board_full_name board_country_label
board_ticket format show_desk t = record {
  number = t.number;
  full_name = board_full_name t.full_name;
  country_label = board_country_label t.country;
  scheduled_time = format_board_slot_time format t.site_time_zone t.scheduled_at;
  desk_number = if show_desk then desk_number_from t.desk else none;
  kind = ticket_kind t.scheduled_at;
}

abbrev pub public_column : TimeFormat → Grouped → BoardColumn → PublicBoardColumn
public_column format g column = record {
  id = column.id;
  title = column.title;
  show_desk = is_approach column.id;
  tickets = map (board_ticket format (is_approach column.id)) (rows_of column.id g);
}

unfoldable pub build_public_board_columns :
    TimeFormat → List BoardTicketSource → Option Day → ℕ → List PublicBoardColumn
unfolding group_rows board_ticket
build_public_board_columns format ts day now =
    map
      (public_column format
        (group_rows day now ts (record { booked_rows = []; approach_rows = [] })))
      board_columns
