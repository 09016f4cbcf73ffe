-- ===== src/Board/Columns.antt =====
-- The columns of the board hold the tickets that belong there.
use ticket_system.Presentation.{TicketKind, kanban_column_for, ticket_on_board_day, is_walk_in}
use ticket_system.Rules.{auto_no_show_statuses, appointment_missed}
use ticket_system.Domain.{TicketStatus, booked, called, assigned, in_service, status_eq, includes}
use ticket_system.Board.{board_column_for}
use ticket_system.Base.{
  arith, Bool-cases, inl, inr, is_some, not, ◌&&◌, ◌||◌, sym, if◌then◌else◌, ℕ, ◌≡◌, refl, ap, ◌∙◌,
  Bool, true, false, List, [], ◌∷◌, ◌++◌, Option, none, some, filter, map,
}
use ticket_system.Presentation.{Day, BoardColumnId, booked_column, approach_column}
use ticket_system.Board.{
  TimeFormat, BoardTicketSource, BoardColumn, PublicBoardColumn, Grouped, push_row, source_column,
  group_rows, rows_of, is_approach, board_ticket, board_columns, build_public_board_columns,
}

abbrev pub is_column : BoardColumnId → Option BoardColumnId → Bool
is_column c none = false
is_column booked_column (some booked_column) = true
is_column approach_column (some approach_column) = true
is_column _ (some _) = false

append_nil : {A : Type 0} → (xs : List A) → xs ++ [] ≡ xs
append_nil [] = refl
append_nil (x ∷ xs) = ap (λ ys. x ∷ ys) (append_nil xs)

append_assoc : {A : Type 0} → (xs ys zs : List A) → (xs ++ ys) ++ zs ≡ xs ++ (ys ++ zs)
append_assoc [] ys zs = refl
append_assoc (x ∷ xs) ys zs = ap (λ us. x ∷ us) (append_assoc xs ys zs)

-- The tickets of a column, in their order.
abbrev pub column_tickets :
    Option Day → ℕ → BoardColumnId → List BoardTicketSource → List BoardTicketSource
column_tickets day now c ts = filter (λ t. is_column c (source_column day now t)) ts

rows_of-push_row :
    (c : BoardColumnId) (o : Option BoardColumnId) (t : BoardTicketSource) (g : Grouped)
    → rows_of c (push_row o t g) ≡ rows_of c g ++ filter (λ u. is_column c o) (t ∷ [])
rows_of-push_row booked_column none t g = sym (append_nil g.booked_rows)
rows_of-push_row approach_column none t g = sym (append_nil g.approach_rows)
rows_of-push_row booked_column (some booked_column) t g = refl
rows_of-push_row booked_column (some approach_column) t g = sym (append_nil g.booked_rows)
rows_of-push_row approach_column (some booked_column) t g = sym (append_nil g.approach_rows)
rows_of-push_row approach_column (some approach_column) t g = refl

filter_first :
    {A : Type 0}
    → (b : Bool) (t : A) (xs rest : List A)
    → (xs ++ (if b then t ∷ [] else [])) ++ rest ≡ xs ++ (if b then t ∷ rest else rest)
filter_first true t xs rest = append_assoc xs (t ∷ []) rest
filter_first false t xs rest = append_assoc xs [] rest

-- The loop appends to each column the tickets that belong there.
group_rows-filter :
    (c : BoardColumnId) (day : Option Day) (now : ℕ) (ts : List BoardTicketSource) (g : Grouped)
    → rows_of c (group_rows day now ts g) ≡ rows_of c g ++ column_tickets day now c ts
unfolding group_rows
group_rows-filter c day now [] g = sym (append_nil (rows_of c g))
group_rows-filter c day now (t ∷ ts) g =
    let o = source_column day now t in
    group_rows-filter c day now ts (push_row o t g)
    ∙ ap (λ xs. xs ++ column_tickets day now c ts) (rows_of-push_row c o t g)
    ∙ filter_first (is_column c o) t (rows_of c g) (column_tickets day now c ts)

-- What a column of the board shows: the tickets that belong there, in their order, with a desk only where they are asked to come.
abbrev pub shown_column :
    TimeFormat → Option Day → ℕ → List BoardTicketSource → BoardColumn → PublicBoardColumn
shown_column format day now ts column = record {
  id = column.id;
  title = column.title;
  show_desk = is_approach column.id;
  tickets = map (board_ticket format (is_approach column.id)) (column_tickets day now column.id ts);
}

-- The board has its two columns, and each shows exactly the tickets that belong there, in their order.
pub build_public_board_columns-filter :
    (format : TimeFormat) (day : Option Day) (now : ℕ) (ts : List BoardTicketSource)
    → build_public_board_columns format ts day now
      ≡ map (shown_column format day now ts) board_columns
unfolding build_public_board_columns
build_public_board_columns-filter format day now ts =
    rw
      (
        group_rows-filter booked_column day now ts
            (record { booked_rows = []; approach_rows = [] }),
        group_rows-filter approach_column day now ts
            (record { booked_rows = []; approach_rows = [] }),
      )
      refl

by_status :
    (s : TicketStatus) (k : TicketKind) (at : Option ℕ) (day : Option Day) (c : BoardColumnId)
    → (if status_eq s booked
        then (if is_walk_in k || not (is_some at) || not (is_some day)
            then none
            else some booked_column)
        else if status_eq s in_service || status_eq s called
        then some approach_column
        else if status_eq s assigned
        then (if is_walk_in k then none else some approach_column)
        else none)
      ≡ some c
    → board_column_for s ≡ some c
unfolding board_column_for
by_status s k at day c h = ground arith

-- The query of the board asks for the status of every ticket that a column shows.
pub kanban_column_for-board_column_for :
    (s : TicketStatus) (k : TicketKind) (at : Option ℕ) (day : Option Day) (now : ℕ)
    (c : BoardColumnId)
    → kanban_column_for s k at day now ≡ some c
    → board_column_for s ≡ some c
unfolding kanban_column_for board_column_for
kanban_column_for-board_column_for s k at day now c h =
    elim (Bool-cases (is_some at && is_some day && not (ticket_on_board_day at day))) [
      | inl other_day ↦ cc (rw other_day at h)
      | inr today ↦
          elim (Bool-cases (includes auto_no_show_statuses s && appointment_missed at now)) [
            | inl missed ↦ cc (rw (today, missed) at h)
            | inr comes ↦ by_status s k at day c (rw (today, comes) at h)
          ]
    ]
