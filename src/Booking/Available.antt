-- ===== src/Booking/Available.antt =====
-- `listAvailableSlots` and `getDaySchedule` of booking.service.ts: what a client sees of a day.
use ticket_system.Base.{
  ℕ, ◌+◌, Bool, false, not, ◌&&◌, List, [], ◌∷◌, ◌++◌, Option, none, some, ltb, leb, ◌==◌,
  if◌then◌else◌, is_id, is_some, find, filter, any,
}
use ticket_system.Domain.{
  Text, ClientCountry, is_country, includes, slot_holding_statuses, Ticket, BlockedSlot, Site,
}
use ticket_system.Booking.{
  Calendar, Hold, SlotQuery, overlaps, query_end, meets, add_if, held_desk_ids, desk_of, has, first,
  is_site_desk, duration_for, generate_slot_times,
}
use ticket_system.Queue.Store.{Db}

-- `slotToDate` in a time zone.
abbrev pub ZoneClock : Type 0
ZoneClock = Text → ℕ → ℕ → ℕ

-- `Europe/Moscow`.
abbrev pub moscow_zone : Text
moscow_zone = 69 ∷ 117 ∷ 114 ∷ 111 ∷ 112 ∷ 101 ∷ 47 ∷ 77 ∷ 111 ∷ 115 ∷ 99 ∷ 111 ∷ 119 ∷ []

pub record AvailableSlot : Type 0 where
  pub time : ℕ
  pub scheduled_at : ℕ
  pub available : Bool

-- `dayBounds`: a time from midnight of a date to the next one.
abbrev pub is_in_day : ZoneClock → Text → ℕ → Option ℕ → Bool
is_in_day clock zone date none = false
is_in_day clock zone date (some at) = leb (clock zone date 0) at && ltb at (clock zone (date + 1) 0)

-- The `where` of the query for tickets.
abbrev pub is_day_ticket : ZoneClock → Text → ℕ → SlotQuery → Ticket → Bool
is_day_ticket clock zone date q t =
    t.site == q.site_id
    && is_country t.country q.country
    && includes slot_holding_statuses t.status
    && is_in_day clock zone date t.scheduled_at
    && not (is_id q.exclude_ticket_id t.id)

-- The loop over the tickets.
abbrev pub ticket_desks : SlotQuery → List Ticket → List ℕ
ticket_desks q [] = []
ticket_desks q (t ∷ ts) = add_if t.reserved_desk (meets q t) (ticket_desks q ts)

-- `where: { site: { id: siteId }, date }`.
abbrev pub is_day_block : ℕ → ℕ → BlockedSlot → Bool
is_day_block site_id date b = b.site == site_id && b.date == date

-- The loop over the blocks.
abbrev pub blocked_desks : ZoneClock → Text → ℕ → SlotQuery → Db → List BlockedSlot → List ℕ
blocked_desks clock zone date q db [] = []
blocked_desks clock zone date q db (b ∷ bs) =
    add_if (desk_of db b.employee)
      (overlaps q.start_ms (query_end q) (clock zone date b.start_time)
        (clock zone date b.end_time))
      (blocked_desks clock zone date q db bs)

-- The set `busy` of a slot.
unfoldable pub slot_desks : ZoneClock → Text → ℕ → List Hold → SlotQuery → Db → List ℕ
slot_desks clock zone date holds q db =
    ticket_desks q (filter (is_day_ticket clock zone date q) db.tickets)
    ++ held_desk_ids q.start_ms (query_end q) q.duration_minutes holds
    ++ blocked_desks clock zone date q db (filter (is_day_block q.site_id date) db.blocked_slots)

unfoldable pub is_available : ZoneClock → Text → ℕ → List Hold → SlotQuery → Db → Bool
unfolding slot_desks
is_available clock zone date holds q db =
    any (λ d. not (has (slot_desks clock zone date holds q db) d.id))
      (filter (is_site_desk q) db.desks)

abbrev pub day_query : ZoneClock → Text → ℕ → ℕ → ClientCountry → Option ℕ → ℕ → SlotQuery
day_query clock zone site_id date country exclude time = record {
  site_id = site_id;
  country = country;
  start_ms = clock zone date time;
  duration_minutes = duration_for country;
  exclude_ticket_id = exclude;
}

-- A slot in the past, or without a desk for the direction, is left out.
unfoldable pub offer :
    ZoneClock → Text → ℕ → List Hold → ℕ → SlotQuery → ℕ → Db → List AvailableSlot
unfolding is_available
offer clock zone date holds now q time db =
    if leb q.start_ms now
    then []
    else if not (is_some (first (filter (is_site_desk q) db.desks)))
    then []
    else record {
      time = time;
      scheduled_at = q.start_ms;
      available = is_available clock zone date holds q db;
    }
      ∷ []

-- `flatMap` over the times of the day.
unfoldable pub offers :
    ZoneClock → Text → ℕ → List Hold → ℕ → (ℕ → SlotQuery) → Db → List ℕ → List AvailableSlot
unfolding offer
offers clock zone date holds now query db [] = []
offers clock zone date holds now query db (time ∷ times) =
    offer clock zone date holds now (query time) time db
    ++ offers clock zone date holds now query db times

abbrev pub zone_of : Option Site → Text
zone_of none = moscow_zone
zone_of (some s) = s.timezone

unfoldable pub list_available_slots :
    Calendar
    → ZoneClock
    → List Hold
    → ℕ
    → ℕ
    → ℕ
    → ClientCountry
    → Option ℕ
    → Db
    → List AvailableSlot
unfolding offers
list_available_slots cal clock holds now site_id date country exclude db =
    let zone = zone_of (find (λ s. s.id == site_id && s.active) db.sites) in
    if cal.is_weekend date
    then []
    else offers clock zone date holds now (day_query clock zone site_id date country exclude) db
        (generate_slot_times country)
