-- ===== src/Booking.antt =====
-- apps/api/src/queue/booking.service.ts: the times of slots, which desks are taken in one, and which
-- desk a booking reserves. A time of day is the minutes since midnight, a date the number of its day.
pub mod Slots
pub mod Overlap
pub mod Available
pub mod Offered
pub mod Bookable
pub mod Reserve
pub mod Tests
use ticket_system.Base.{
  ℕ, zero, suc, ◌+◌, ◌*◌, ◌/◌, ◌-◌, max, Bool, true, false, not, ◌&&◌, List, [], ◌∷◌, ◌++◌, Option,
  none, some, ltb, leb, ◌==◌, if◌then◌else◌, is_id, is_some, or_else, find, filter, any, row,
}
use ticket_system.Domain.{
  ClientCountry, rf, cn, country_eq, is_country, includes, slot_holding_statuses, Desk, Ticket,
  BlockedSlot, employee_keyed,
}
use ticket_system.Queue.Store.{
  Db, Result, ok, err, ◌>>=◌, ◌>>◌, guard, require, bad_request, conflict,
}

abbrev pub workday_start_minutes : ℕ
workday_start_minutes = 8 * 60

abbrev pub workday_end_minutes : ℕ
workday_end_minutes = 17 * 60

abbrev pub slot_duration : ClientCountry → ℕ
slot_duration rf = 20
slot_duration cn = 30

unfoldable pub duration_for : ClientCountry → ℕ
duration_for c = slot_duration c

-- The loop over `minutes`. A step is positive, so the length of the day is fuel enough.
unfoldable pub slot_loop : ℕ → ℕ → ℕ → List ℕ
slot_loop zero step minutes = []
slot_loop (suc fuel) step minutes =
    let rest = slot_loop fuel step (minutes + step) in
    if leb (minutes + step) workday_end_minutes then minutes ∷ rest else []

unfoldable pub generate_slot_times : ClientCountry → List ℕ
unfolding slot_loop
generate_slot_times c = slot_loop workday_end_minutes (slot_duration c) workday_start_minutes

-- What the code asks the runtime's calendar, in the time zone Europe/Moscow: `formatDate`,
-- `formatTime` as minutes, the weekday of a date, and `slotToDate`.
pub record Calendar : Type 0 where
  pub date_of : ℕ → ℕ
  pub minutes_of : ℕ → ℕ
  pub is_weekend : ℕ → Bool
  pub slot_to_date : ℕ → ℕ → ℕ

-- An entry of `listHolds`.
pub record Hold : Type 0 where
  pub desk_id : ℕ
  pub scheduled_at : ℕ

-- `startMs < tEnd && endMs > tStart`.
abbrev pub overlaps : ℕ → ℕ → ℕ → ℕ → Bool
overlaps start end t_start t_end = ltb start t_end && ltb t_start end

abbrev pub slot_end : ℕ → ℕ → ℕ
slot_end start duration = start + duration * 60000

-- A question about a slot: where, for which direction, from when to when, and which ticket not to count.
pub record SlotQuery : Type 0 where
  pub site_id : ℕ
  pub country : ClientCountry
  pub start_ms : ℕ
  pub duration_minutes : ℕ
  pub exclude_ticket_id : Option ℕ

abbrev pub query_end : SlotQuery → ℕ
query_end q = slot_end q.start_ms q.duration_minutes

-- The interval of a ticket meets the one of the query. A ticket without a time has none.
abbrev pub meets : SlotQuery → Ticket → Bool
meets q t = elim t.scheduled_at [
  | none ↦ false
  | some at ↦ overlaps q.start_ms (query_end q) at (slot_end at t.duration_minutes)
]

-- The `WHERE` of the query in `busyDeskIds`, without the desk.
unfoldable pub holds_slot : SlotQuery → Ticket → Bool
holds_slot q t =
    t.site == q.site_id
    && is_country t.country q.country
    && includes slot_holding_statuses t.status
    && not (is_id q.exclude_ticket_id t.id)
    && meets q t

unfoldable pub held_desk_ids : ℕ → ℕ → ℕ → List Hold → List ℕ
held_desk_ids start end duration [] = []
held_desk_ids start end duration (h ∷ hs) =
    let rest = held_desk_ids start end duration hs in
    if overlaps start end h.scheduled_at (slot_end h.scheduled_at duration)
    then h.desk_id ∷ rest
    else rest

-- `Set.add`, where there is a desk and the test passes.
abbrev pub add_if : Option ℕ → Bool → List ℕ → List ℕ
add_if none test ids = ids
add_if (some d) test ids = if test then d ∷ ids else ids

unfoldable pub reserved_desk_ids : SlotQuery → List Ticket → List ℕ
unfolding holds_slot
reserved_desk_ids q [] = []
reserved_desk_ids q (t ∷ ts) = add_if t.reserved_desk (holds_slot q t) (reserved_desk_ids q ts)

-- `Math.max(1, Math.round((endMs - startMs) / 60_000))`.
abbrev pub rounded_minutes : ℕ → ℕ
rounded_minutes ms = max 1 ((ms + 30000) / 60000)

unfoldable pub busy_desk_ids : List Hold → SlotQuery → Db → List ℕ
unfolding reserved_desk_ids held_desk_ids
busy_desk_ids holds q db =
    reserved_desk_ids q db.tickets
    ++ held_desk_ids q.start_ms (query_end q) (rounded_minutes (query_end q - q.start_ms)) holds

abbrev pub desk_of : Db → ℕ → Option ℕ
desk_of db e = elim (row e db.employees) [ none ↦ none | some employee ↦ employee.desk ]

unfoldable pub blocks_slot : Calendar → SlotQuery → BlockedSlot → Bool
blocks_slot cal q b =
    let date = cal.date_of q.start_ms in
    b.site == q.site_id
    && b.date == date
    && overlaps q.start_ms (query_end q) (cal.slot_to_date date b.start_time)
        (cal.slot_to_date date b.end_time)

-- `deskId` of each block that meets the slot; an employee without a desk blocks none.
unfoldable pub block_desk_ids : Calendar → SlotQuery → Db → List BlockedSlot → List ℕ
unfolding blocks_slot
block_desk_ids cal q db [] = []
block_desk_ids cal q db (b ∷ bs) =
    add_if (desk_of db b.employee) (blocks_slot cal q b) (block_desk_ids cal q db bs)

unfoldable pub blocked_desk_ids : Calendar → SlotQuery → Db → List ℕ
unfolding block_desk_ids
blocked_desk_ids cal q db = block_desk_ids cal q db db.blocked_slots

abbrev pub has : List ℕ → ℕ → Bool
has ids n = any (λ x. x == n) ids

unfoldable pub is_free_desk : Calendar → List Hold → SlotQuery → Db → Desk → Bool
unfolding busy_desk_ids blocked_desk_ids
is_free_desk cal holds q db d =
    not (has (busy_desk_ids holds q db) d.id) && not (has (blocked_desk_ids cal q db) d.id)

-- `where: { site: { id: siteId }, active: true, country }`.
unfoldable pub is_site_desk : SlotQuery → Desk → Bool
is_site_desk q d = d.site == q.site_id && d.active && country_eq d.country q.country

abbrev pub is_preferred : Option ℕ → Desk → Bool
is_preferred preferred d = is_id preferred d.id

abbrev pub first {ℓ} : {A : Type ℓ} → List A → Option A
first [] = none
first (x ∷ xs) = some x

-- `freeDesks.find(preferred) ?? freeDesks[0]`.
unfoldable pub choose_desk : Option ℕ → List Desk → Option Desk
choose_desk preferred free = or_else (find (is_preferred preferred) free) (first free)

unfoldable pub reserve_desk : Calendar → List Hold → SlotQuery → Option ℕ → Db → Result Desk
unfolding is_free_desk is_site_desk choose_desk
reserve_desk cal holds q preferred db = do
  let desks = filter (is_site_desk q) db.desks
  guard (is_some (first desks)) conflict
  require (choose_desk preferred (filter (is_free_desk cal holds q db) desks)) conflict

unfoldable pub is_slot_free : Calendar → List Hold → SlotQuery → Db → Bool
unfolding is_free_desk is_site_desk
is_slot_free cal holds q db = any (is_free_desk cal holds q db) (filter (is_site_desk q) db.desks)

-- The checks in their order; `now` is the clock.
unfoldable pub assert_slot_available : Calendar → List Hold → ℕ → SlotQuery → Db → Result (Unit {0})
unfolding is_slot_free
assert_slot_available cal holds now q db = do
  guard (not (cal.is_weekend (cal.date_of q.start_ms))) bad_request
  guard (leb workday_start_minutes (cal.minutes_of q.start_ms)) bad_request
  guard (leb (cal.minutes_of q.start_ms + q.duration_minutes) workday_end_minutes) bad_request
  guard (ltb now q.start_ms) bad_request
  guard (is_slot_free cal holds q db) conflict
