-- ===== src/Booking/Bookable.antt =====
-- What `listAvailableSlots` shows as available, `assertSlotAvailable` lets through.
mod Tests
use ticket_system.Base.{
  ℕ, ◌+◌, ◌≤◌, ◌<◌, ◌≡◌, refl, ap, ◌∙◌, sym, true, false, not, List, [], ◌∷◌, ◌++◌, Option, arith,
  ltb, leb, is_some, find, filter, In, All, Bool-cases, inl, inr, ◌⊎◌, subst, ◌==◌, ◌&&◌,
}
use ticket_system.Domain.{Text, ClientCountry}
use ticket_system.Booking.{
  workday_start_minutes, Calendar, Hold, SlotQuery, slot_duration, duration_for,
  generate_slot_times, is_site_desk, first, assert_slot_available, is_slot_free,
  workday_end_minutes,
}
use ticket_system.Booking.Slots.{FitsDay, generate_slot_times-FitsDay}
use ticket_system.Booking.Available.{
  ZoneClock, AvailableSlot, day_query, is_available, offer, offers, zone_of, list_available_slots,
}
use ticket_system.Booking.Offered.{IsOfDay, is_available-is_slot_free}
use ticket_system.Queue.Store.{Db, ok}

In-append : {A : Type 0} → (x : A) (xs ys : List A) → In x (xs ++ ys) → In x xs ⊎ In x ys
In-append x [] ys i = inr i
In-append x (y ∷ xs) ys (inl e) = inl (inl e)
In-append x (y ∷ xs) ys (inr i) = elim (In-append x xs ys i) [ inl j ↦ inl (inr j) | inr j ↦ inr j ]

All-In : {A : Type 0} → (P : A → Type 0) (xs : List A) (x : A) → All P xs → In x xs → P x
All-In P [] x a i = elim i [ ]
All-In P (y ∷ xs) x (p, a) (inl e) = subst P e p
All-In P (y ∷ xs) x (p, a) (inr i) = All-In P xs x a i

-- A slot that is offered lies ahead.
offer-ahead :
    (clock : ZoneClock) (zone : Text) (date : ℕ) (holds : List Hold) (now : ℕ) (q : SlotQuery)
    (time : ℕ) (db : Db) (s : AvailableSlot)
    → In s (offer clock zone date holds now q time db)
    → (s.time ≡ time)
      × (s.available ≡ is_available clock zone date holds q db)
      × (leb q.start_ms now ≡ false)
unfolding offer
offer-ahead clock zone date holds now q time db s i = elim (Bool-cases (leb q.start_ms now)) [
  | inl past ↦ elim (rw past at i) [ ]
  | inr ahead ↦ elim (Bool-cases (not (is_some (first (filter (is_site_desk q) db.desks))))) [
    | inl empty ↦ elim (rw (ahead, empty) at i) [ ]
    | inr there ↦ only (rw (ahead, there) at i) ahead
  ]
]
  where
    made : AvailableSlot
    made = record {
      time = time;
      scheduled_at = q.start_ms;
      available = is_available clock zone date holds q db;
    }

    only :
        In s (made ∷ [])
        → leb q.start_ms now ≡ false
        → (s.time ≡ time)
          × (s.available ≡ is_available clock zone date holds q db)
          × (leb q.start_ms now ≡ false)
    only (inl e) ahead = (sym (ap (λ r. r.time) e), sym (ap (λ r. r.available) e), ahead)
    only (inr j) ahead = elim j [ ]

offers-time :
    (clock : ZoneClock) (zone : Text) (date : ℕ) (holds : List Hold) (now : ℕ)
    (query : ℕ → SlotQuery) (db : Db) (times : List ℕ) (s : AvailableSlot)
    → In s (offers clock zone date holds now query db times)
    → In s.time times
      × (s.available ≡ is_available clock zone date holds (query s.time) db)
      × (leb (query s.time).start_ms now ≡ false)
unfolding offers
offers-time clock zone date holds now query db [] s i = elim i [ ]
offers-time clock zone date holds now query db (t ∷ ts) s i =
    elim (In-append s (offer clock zone date holds now (query t) t db) _ i) [
      | inl j ↦
          let (at, shown, ahead) = offer-ahead clock zone date holds now (query t) t db s j in
          (
            inl (sym at),
            shown ∙ ap (λ u. is_available clock zone date holds (query u) db) (sym at),
            ap (λ u. leb (query u).start_ms now) at ∙ ahead,
          )
      | inr j ↦
          let (k, shown, ahead) = offers-time clock zone date holds now query db ts s j in
          (inr k, shown, ahead)
    ]

-- What the calendar does within a day: a time of the day is read back.
pub record DayLaws (cal : Calendar) (clock : ZoneClock) (zone : Text) (date : ℕ) : Type 0 where
  pub same_zone : (time : ℕ) → clock zone date time ≡ cal.slot_to_date date time
  pub date_back : (time : ℕ) → time < 1440 → cal.date_of (cal.slot_to_date date time) ≡ date
  pub minutes_back : (time : ℕ) → time < 1440 → cal.minutes_of (cal.slot_to_date date time) ≡ time

some_duration : (c : ClientCountry) → 1 ≤ duration_for c
unfolding duration_for
some_duration ClientCountry.rf = omega arith
some_duration ClientCountry.cn = omega arith

-- The checks of `assertSlotAvailable`, one after the other.
assert_slot_available-passes :
    (cal : Calendar) (holds : List Hold) (now : ℕ) (q : SlotQuery) (db : Db)
    → cal.is_weekend (cal.date_of q.start_ms) ≡ false
    → workday_start_minutes ≤ cal.minutes_of q.start_ms
    → cal.minutes_of q.start_ms + q.duration_minutes ≤ workday_end_minutes
    → leb q.start_ms now ≡ false
    → is_slot_free cal holds q db ≡ true
    → assert_slot_available cal holds now q db ≡ ok tt
unfolding assert_slot_available
assert_slot_available-passes cal holds now q db weekday early late ahead free =
    let a : leb workday_start_minutes (cal.minutes_of q.start_ms) ≡ true = ground arith in
    let b : leb (cal.minutes_of q.start_ms + q.duration_minutes) workday_end_minutes ≡ true =
      ground arith in
    let c : ltb now q.start_ms ≡ true = ground arith in rw (weekday, a, b, c, free) refl

bookable :
    (cal : Calendar) (clock : ZoneClock) (zone : Text) (holds : List Hold) (now site date : ℕ)
    (c : ClientCountry) (exclude : Option ℕ) (db : Db) (time : ℕ)
    → DayLaws cal clock zone date
    → IsOfDay clock zone date (day_query clock zone site date c exclude time) db.tickets
    → cal.is_weekend date ≡ false
    → FitsDay (slot_duration c) time
    → leb (clock zone date time) now ≡ false
    → is_available clock zone date holds (day_query clock zone site date c exclude time) db ≡ true
    → assert_slot_available cal holds now (day_query clock zone site date c exclude time) db ≡ ok tt
unfolding duration_for
bookable cal clock zone holds now site date c exclude db time laws day weekday (early, late) ahead
      shown =
    let q = day_query clock zone site date c exclude time in
    let within : time < 1440 = omega arith in
    let on : cal.date_of q.start_ms ≡ date =
      ap cal.date_of (laws.same_zone time) ∙ laws.date_back time within in
    let at : cal.minutes_of q.start_ms ≡ time =
      ap cal.minutes_of (laws.same_zone time) ∙ laws.minutes_back time within in
    assert_slot_available-passes cal holds now q db (rw on weekday) (rw at early) (rw at late) ahead
      (sym (
          is_available-is_slot_free cal clock zone date holds q db laws.same_zone on
            (some_duration c) day)
        ∙ shown)

-- A slot that a client is shown as available passes every check of a booking at that moment, where the site keeps the time of Moscow, the calendar reads a time of the day back, and no booking that meets the slot started on another day.
pub list_available_slots-assert_slot_available :
    (cal : Calendar) (clock : ZoneClock) (holds : List Hold) (now site date : ℕ) (c : ClientCountry)
    (exclude : Option ℕ) (db : Db) (s : AvailableSlot)
    → let zone = zone_of (find (λ x. x.id == site && x.active) db.sites) in
      let q = day_query clock zone site date c exclude s.time in
      DayLaws cal clock zone date
      → IsOfDay clock zone date q db.tickets
      → In s (list_available_slots cal clock holds now site date c exclude db)
      → s.available ≡ true
      → assert_slot_available cal holds now q db ≡ ok tt
unfolding list_available_slots
list_available_slots-assert_slot_available cal clock holds now site date c exclude db s laws day i
      shown =
    elim (Bool-cases (cal.is_weekend date)) [
      | inl weekend ↦ elim (rw weekend at i) [ ]
      | inr weekday ↦
          let zone = zone_of (find (λ x. x.id == site && x.active) db.sites) in
          let query = day_query clock zone site date c exclude in
          let (there, available, ahead) =
            offers-time clock zone date holds now query db (generate_slot_times c) s
              (rw weekday at i) in
          bookable cal clock zone holds now site date c exclude db s.time laws day weekday
            (All-In (FitsDay (slot_duration c)) (generate_slot_times c) s.time
              (generate_slot_times-FitsDay c) there)
            ahead (sym available ∙ shown)
    ]
