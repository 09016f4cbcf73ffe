-- ===== src/Board/Public.antt =====
-- `getPublicBoard` of queue.service.ts: the tickets of a site's day, on the board. What the calendar
-- says of a site's time zone, and the order of codes, are arguments.
use ticket_system.Base.{
  ℕ, ◌+◌, Bool, true, not, ◌&&◌, List, [], ◌∷◌, ◌++◌, Option, none, some, leb, ltb, ◌==◌, map,
  filter, find, row, is_some, or_else, order_rows, if◌then◌else◌,
}
use ticket_system.Domain.{
  Text, TicketStatus, ClientCountry, is_country, includes, Site, Desk, Ticket, Assignment,
  desk_keyed,
}
use ticket_system.Texts.{same_text}
use ticket_system.Presentation.{Day}
use ticket_system.Dispatch.{effective_time}
use ticket_system.Queue.Store.{Db, Env, Result, ok, ◌>>=◌, require, not_found, is_active_on}
use ticket_system.Queue.Sweep.{mark_missed_appointments}
use ticket_system.Queue.WalkIn.{SiteClock}
use ticket_system.Booking.Available.{ZoneClock}
use ticket_system.Board.{
  TimeFormat, BoardColumn, board_columns, BoardTicketSource, PublicBoardColumn,
  build_public_board_columns,
}

-- The site with the first code.
abbrev pub first_code : (Text → Text → Bool) → List Site → Option Site
first_code before [] = none
first_code before (s ∷ ss) = elim (first_code before ss) [
  | none ↦ some s
  | some r ↦ if before r.code s.code then some r else some s
]

unfoldable pub board_site : (Text → Text → Bool) → Option Text → List Site → Option Site
board_site before (some code) sites = find (λ s. same_text s.code code && s.active) sites
board_site before none sites = first_code before (filter (λ s. s.active) sites)

-- `BOARD_COLUMNS.flatMap`.
abbrev pub statuses_of : List BoardColumn → List TicketStatus
statuses_of [] = []
statuses_of (c ∷ cs) = c.statuses ++ statuses_of cs

abbrev pub is_lane : Option ClientCountry → Ticket → Bool
is_lane none t = true
is_lane (some c) t = is_country t.country c

abbrev pub slot_rank : Ticket → ℕ
slot_rank t = effective_time t.scheduled_at 0

-- `scheduledAt ASC, createdAt ASC`; the database puts rows without a time last.
abbrev pub in_board_order : List Ticket → List Ticket
in_board_order ts =
    let by_creation = order_rows (λ t. t.created_at) ts in
    order_rows slot_rank (filter (λ t. is_some t.scheduled_at) by_creation)
    ++ filter (λ t. not (is_some t.scheduled_at)) by_creation

unfoldable pub is_today : Day → Ticket → Bool
is_today day t =
    leb day.start (effective_time t.scheduled_at t.created_at)
    && ltb (effective_time t.scheduled_at t.created_at) day.end

abbrev pub desk_row : Db → Option ℕ → Option Desk
desk_row db none = none
desk_row db (some d) = row d db.desks

abbrev pub active_desk : Db → Option Assignment → Option Desk
active_desk db none = none
active_desk db (some a) = desk_row db a.desk

unfoldable pub source_of : Db → Site → Ticket → BoardTicketSource
source_of db site t = record {
  number = t.number;
  status = t.status;
  full_name = t.full_name;
  country = t.country;
  scheduled_at = t.scheduled_at;
  desk =
      or_else (active_desk db (find (is_active_on t.id) db.assignments))
        (desk_row db t.reserved_desk);
  site_time_zone = site.timezone;
}

-- `dayBounds` of the site's date.
abbrev pub site_day : SiteClock → ZoneClock → Env → Site → Day
site_day dates clock env site =
    let today = dates.date_in site.timezone env.now in
    record { start = clock site.timezone today 0; end = clock site.timezone (today + 1) 0 }

unfoldable pub board_sources : Db → Site → Option ClientCountry → Day → List BoardTicketSource
unfolding is_today source_of
board_sources db site country day = map (source_of db site) (
    filter (is_today day) (
      in_board_order (
        filter
          (λ t.
            t.site == site.id && includes (statuses_of board_columns) t.status && is_lane country t)
          db.tickets)))

pub record PublicBoard : Type 0 where
  pub site : Site
  pub country : Option ClientCountry
  pub columns : List PublicBoardColumn
  pub updated_at : ℕ

-- The sweep of missed appointments comes first.
unfoldable pub get_public_board :
    TimeFormat
    → SiteClock
    → ZoneClock
    → (Text → Text → Bool)
    → Env
    → Option Text
    → Option ClientCountry
    → Db
    → Result PublicBoard × Db
unfolding board_site board_sources
get_public_board format dates clock before env code country db0 =
    let db = mark_missed_appointments env db0 in
    (
      do
        site ← require (board_site before code db.sites) not_found
        let day : Day = site_day dates clock env site
        ok (record {
          site = site;
          country = country;
          columns =
              build_public_board_columns format (board_sources db site country day) (some day)
                env.now;
          updated_at = env.now;
        }),
      db,
    )
