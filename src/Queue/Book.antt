-- ===== src/Queue/Book.antt =====
-- `holdSlot`, `refreshHold` and `createTicket` of queue.service.ts: a client holds a slot, and books it.
-- The transaction of `createTicket` undoes what it wrote to the tables, and not what it did to Redis.
-- That `listHolds` throws away what has run out is seen by no other method, and is left out here.
pub mod Created
pub mod Once
pub mod Held
pub mod Tests
use ticket_system.Base.{
  ℕ, ◌+◌, ◌*◌, max, Bool, true, false, not, ◌&&◌, List, Option, none, some, ◌==◌, any, find, is_id,
  if◌then◌else◌,
}
use ticket_system.Domain.{Text, ClientCountry, Desk, Site, ServiceType, Ticket}
use ticket_system.Booking.{
  Calendar, Hold, SlotQuery, duration_for, assert_slot_available, reserve_desk,
}
use ticket_system.Person.{Person, trim, or_empty}
use ticket_system.RateLimit.{
  Redis, Spelling, HeldSlot, SessionHold, holds_of, list_holds, hold_slot, has_refreshed_hold,
  refresh_hold, consume_hold, peek_hold, get_session_hold, hold_ttl,
}
use ticket_system.Queue.Store.{
  Db, Env, EventKind, Result, ok, err, ◌>>=◌, ◌>>◌, guard, require, not_found, conflict,
  duplicate_key, event,
}
use ticket_system.Queue.WalkIn.{
  SiteClock, WalkIn, resolve_person, is_phone_taken, insert_ticket, new_ticket, walk_in_query,
  count_today,
}

-- What the client is told about its hold. A desk's label is told where the desk has just been chosen.
pub record HoldView : Type 0 where
  pub hold_id : Text
  pub desk_id : Text
  pub desk_label : Option Text
  pub scheduled_at : Text
  pub expires_at : ℕ
  pub expires_in_seconds : ℕ
  pub can_refresh : Bool

abbrev pub slot_query : ℕ → ClientCountry → ℕ → SlotQuery
slot_query site_id country at = record {
  site_id = site_id;
  country = country;
  start_ms = at;
  duration_minutes = duration_for country;
  exclude_ticket_id = none;
}

-- A slot that is free for the query, and its desk.
unfoldable pub free_desk : Calendar → List Hold → Env → SlotQuery → Option ℕ → Db → Result Desk
free_desk cal holds env q preferred db = do
  assert_slot_available cal holds env.now q db
  reserve_desk cal holds q preferred db

-- The error of the database for a second row under a unique index is told as a conflict.
abbrev pub as_conflict {ℓ} : {A : Type ℓ} → Result A → Result A
as_conflict (ok a) = ok a
as_conflict (err duplicate_key) = err conflict
as_conflict (err e) = err e

abbrev pub booked_ticket : Env → WalkIn → Person → Site → ServiceType → Desk → ℕ → ℕ → Ticket
booked_ticket env i person site service desk n id =
    record (new_ticket env i person site service desk n id) {
      departure_date = some (trim (or_empty i.departure_date));
      arrival_date = some (trim (or_empty i.arrival_date));
    }

-- The rest of the transaction, after the hold has been consumed.
unfoldable pub book_held :
    Calendar
    → SiteClock
    → List Hold
    → Env
    → WalkIn
    → Option ℕ
    → Person
    → Site
    → ServiceType
    → Db
    → Result (Ticket × Db)
unfolding insert_ticket
book_held cal clock holds env i preferred person site service db = do
  assert_slot_available cal holds env.now (walk_in_query i) db
  guard (not (any (is_phone_taken person.phone i.scheduled_at) db.tickets)) conflict
  desk ← reserve_desk cal holds (walk_in_query i) preferred db
  let t : Ticket =
      booked_ticket env i person site service desk
        (count_today clock site i.site_id env.now db.tickets + 1) db.next_id
  saved ← as_conflict (insert_ticket t db)
  ok (t, event t.id EventKind.created none saved)

-- What is checked before the hold is looked at.
pub record Checked : Type 0 where
  pub person : Person
  pub site : Site
  pub service : ServiceType

unfoldable pub check_ticket_input : WalkIn → Db → Result Checked
unfolding resolve_person
check_ticket_input i db = do
  person ← resolve_person i true
  site ← require (find (λ s. s.id == i.site_id && s.active) db.sites) not_found
  service ←
      require (find (λ s. s.id == i.service_type_id && s.active && s.site == i.site_id) db.services)
        not_found
  ok (record { person = person; site = site; service = service })

-- The tables after a ticket has been created on a hold.
unfoldable pub create_held :
    Calendar → SiteClock → List Hold → Env → WalkIn → Option ℕ → Db → Result (Ticket × Db)
unfolding check_ticket_input book_held
create_held cal clock holds env i preferred db = do
  c ← check_ticket_input i db
  book_held cal clock holds env i preferred c.person c.site c.service db

module _ {S : Type 0} (redis : Redis S) (spell : Spelling) where
  abbrev pub current_holds : ℕ → S → List Hold
  current_holds now st = holds_of spell (list_holds redis now st).0

  abbrev pub view_of : Env → SessionHold → Option Text → Bool → S → HoldView
  view_of env hold label can_refresh st =
      let seconds = max (hold_ttl redis env.now hold.slot st) 1 in
      record {
        hold_id = hold.hold_id;
        desk_id = hold.slot.desk_id;
        desk_label = label;
        scheduled_at = hold.slot.scheduled_at;
        expires_at = env.now + seconds * 1000;
        expires_in_seconds = seconds;
        can_refresh = can_refresh;
      }

  -- A desk that was found free is held.
  unfoldable pub hold_desk : Env → Text → Text → ℕ → Result Desk → S → Result HoldView × S
  hold_desk env session hold_id at (err e) st = (err e, st)
  hold_desk env session hold_id at (ok desk) st =
      let slot : HeldSlot = record { desk_id = spell.uuid desk.id; scheduled_at = spell.iso at } in
      let (held, after) =
        hold_slot redis env.now session (spell.uuid desk.id) (spell.iso at) hold_id st in
      if held
      then (
        ok (view_of env (record { slot = slot; hold_id = hold_id }) (some desk.label) true after),
        after,
      )
      else (err conflict, after)

  abbrev pub is_held_at : ℕ → SessionHold → Bool
  is_held_at at hold = is_id (spell.time_of hold.slot.scheduled_at) at

  abbrev pub kept_hold : ℕ → Option SessionHold → Option SessionHold
  kept_hold at none = none
  kept_hold at (some hold) = if is_held_at at hold then some hold else none

  -- `hold_id` are the random bytes of a new hold.
  unfoldable pub hold_slot_for :
      Calendar → Env → Text → ℕ → ClientCountry → ℕ → Text → Db → S → Result HoldView × S
  unfolding free_desk hold_desk
  hold_slot_for cal env session site_id country at hold_id db st =
      elim (kept_hold at (get_session_hold redis env.now session st)) [
        | some hold ↦
            (ok (view_of env hold none (not (has_refreshed_hold redis env.now session st)) st), st)
        | none ↦
            hold_desk env session hold_id at
              (free_desk cal (current_holds env.now st) env (slot_query site_id country at) none db)
              st
      ]

  unfoldable pub refresh_hold_for : Env → Text → Text → S → Result HoldView × S
  refresh_hold_for env session hold_id st =
      let (refreshed, after) = refresh_hold redis env.now session hold_id st in
      if refreshed
      then elim (peek_hold redis env.now session hold_id after) [
        | none ↦ (err conflict, after)
        | some slot ↦
            (ok (view_of env (record { slot = slot; hold_id = hold_id }) none false after), after)
      ]
      else (err conflict, after)

  abbrev pub hold_at : ℕ → Option HeldSlot → Option HeldSlot
  hold_at at none = none
  hold_at at (some slot) = if is_id (spell.time_of slot.scheduled_at) at then some slot else none

  -- The hold of a session is looked at, and consumed where it is for the time.
  unfoldable pub take_hold : Env → Text → Text → ℕ → S → Result HeldSlot × S
  take_hold env session hold_id at st =
      elim (hold_at at (peek_hold redis env.now session hold_id st)) [
        | none ↦ (err conflict, st)
        | some slot ↦
            let (consumed, after) = consume_hold redis env.now session hold_id slot st in
            (if consumed then ok slot else err conflict, after)
      ]

  unfoldable pub create_with :
      Calendar
      → SiteClock
      → Env
      → WalkIn
      → Checked
      → Db
      → Result HeldSlot × S
      → Result (Ticket × Db) × S
  unfolding book_held
  create_with cal clock env i c db (err e, st) = (err e, st)
  create_with cal clock env i c db (ok slot, st) = (
    book_held cal clock (current_holds env.now st) env i (spell.uuid_of slot.desk_id) c.person
        c.site c.service db,
    st,
  )

  unfoldable pub create_ticket :
      Calendar → SiteClock → Env → WalkIn → Text → Text → Db → S → Result (Ticket × Db) × S
  unfolding check_ticket_input take_hold create_with
  create_ticket cal clock env i session hold_id db st = elim (check_ticket_input i db) [
    | err e ↦ (err e, st)
    | ok c ↦ create_with cal clock env i c db (take_hold env session hold_id i.scheduled_at st)
  ]
