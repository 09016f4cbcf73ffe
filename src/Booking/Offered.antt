-- ===== src/Booking/Offered.antt =====
-- A slot that a client is offered can be booked.
use ticket_system.Base.{
  ℕ, ◌-◌, ◌≤◌, ◌≡◌, refl, sym, Bool, true, false, not, ◌&&◌, ◌||◌, List, [], ◌∷◌, ◌++◌, Option,
  none, some, arith, ◌==◌, is_id, filter, any, In, Bool-cases, inl, inr,
}
use ticket_system.Domain.{Text, is_country, includes, slot_holding_statuses, Ticket, BlockedSlot}
use ticket_system.Booking.{
  Calendar, Hold, SlotQuery, overlaps, query_end, slot_end, meets, holds_slot, add_if,
  held_desk_ids, reserved_desk_ids, block_desk_ids, blocks_slot, busy_desk_ids, blocked_desk_ids,
  rounded_minutes, desk_of, is_free_desk, is_site_desk, is_slot_free,
}
use ticket_system.Booking.Reserve.{has-append}
use ticket_system.Booking.Available.{
  ZoneClock, is_in_day, is_day_ticket, ticket_desks, is_day_block, blocked_desks, slot_desks,
  is_available,
}
use ticket_system.Queue.Store.{Db}

-- A booking that meets the slot starts on its day.
abbrev pub IsOfDay : ZoneClock → Text → ℕ → SlotQuery → List Ticket → Type 0
IsOfDay clock zone date q ts =
    (t : Ticket) → In t ts → holds_slot q t ≡ true → is_in_day clock zone date t.scheduled_at ≡ true

-- Where the last test of one follows from the other.
moved_test :
    (a b s x m d : Bool)
    → (a && b && s && x && m ≡ true → d ≡ true)
    → (a && b && s && x && m) ≡ (a && b && s && d && x) && m
moved_test false b s x m d h = refl
moved_test true false s x m d h = refl
moved_test true true false x m d h = refl
moved_test true true true false m true h = refl
moved_test true true true false m false h = refl
moved_test true true true true m true h = refl
moved_test true true true true false false h = refl
moved_test true true true true true false h = cc (h refl)

add_if-false : (o : Option ℕ) (ids : List ℕ) → add_if o false ids ≡ ids
add_if-false none ids = refl
add_if-false (some d) ids = refl

ticket_desks-reserved :
    (clock : ZoneClock) (zone : Text) (date : ℕ) (q : SlotQuery) (ts : List Ticket)
    → IsOfDay clock zone date q ts
    → ticket_desks q (filter (is_day_ticket clock zone date q) ts) ≡ reserved_desk_ids q ts
unfolding reserved_desk_ids holds_slot
ticket_desks-reserved clock zone date q [] day = refl
ticket_desks-reserved clock zone date q (t ∷ ts) day =
    let ih = ticket_desks-reserved clock zone date q ts (λ u i. day u (inr i)) in
    let parts =
      moved_test (t.site == q.site_id) (is_country t.country q.country)
        (includes slot_holding_statuses t.status) (not (is_id q.exclude_ticket_id t.id)) (meets q t)
        (is_in_day clock zone date t.scheduled_at) (day t (inl refl)) in
    elim (Bool-cases (is_day_ticket clock zone date q t)) [
      | inl on ↦ rw (parts, on, ih) refl
      | inr off ↦ rw (parts, off, ih) (sym (add_if-false t.reserved_desk (reserved_desk_ids q ts)))
    ]

blocks_slot-day :
    (cal : Calendar) (clock : ZoneClock) (zone : Text) (date : ℕ) (q : SlotQuery) (b : BlockedSlot)
    → ((time : ℕ) → clock zone date time ≡ cal.slot_to_date date time)
    → cal.date_of q.start_ms ≡ date
    → blocks_slot cal q b
      ≡ is_day_block q.site_id date b
        && overlaps q.start_ms
            (query_end q)
            (clock zone date b.start_time)
            (clock zone date b.end_time)
unfolding blocks_slot
blocks_slot-day cal clock zone date q b same here =
    rw (here, same b.start_time, same b.end_time) (ground arith)

blocked_desks-block :
    (cal : Calendar) (clock : ZoneClock) (zone : Text) (date : ℕ) (q : SlotQuery) (db : Db)
    (bs : List BlockedSlot)
    → ((time : ℕ) → clock zone date time ≡ cal.slot_to_date date time)
    → cal.date_of q.start_ms ≡ date
    → blocked_desks clock zone date q db (filter (is_day_block q.site_id date) bs)
      ≡ block_desk_ids cal q db bs
unfolding block_desk_ids
blocked_desks-block cal clock zone date q db [] same here = refl
blocked_desks-block cal clock zone date q db (b ∷ bs) same here =
    let ih = blocked_desks-block cal clock zone date q db bs same here in
    let test = blocks_slot-day cal clock zone date q b same here in
    elim (Bool-cases (is_day_block q.site_id date b)) [
      | inl on ↦ rw (test, on, ih) refl
      | inr off ↦
          rw (test, off, ih)
            (sym (add_if-false (desk_of db b.employee) (block_desk_ids cal q db bs)))
    ]

rounded :
    (start duration : ℕ)
    → 1 ≤ duration
    → rounded_minutes (slot_end start duration - start) ≡ duration
rounded start duration some_time = omega arith

any-same :
    {A : Type 0} → (p r : A → Bool) (xs : List A) → ((a : A) → p a ≡ r a) → any p xs ≡ any r xs
any-same p r [] h = refl
any-same p r (x ∷ xs) h = rw (h x, any-same p r xs h) refl

free_test : (a b : Bool) → not (a || b) ≡ not a && not b
free_test a b = ground arith

-- A slot of a day shows as available exactly where it is free, where the site keeps the time of Moscow and a booking that meets the slot starts on its day.
pub is_available-is_slot_free :
    (cal : Calendar) (clock : ZoneClock) (zone : Text) (date : ℕ) (holds : List Hold)
    (q : SlotQuery) (db : Db)
    → ((time : ℕ) → clock zone date time ≡ cal.slot_to_date date time)
    → cal.date_of q.start_ms ≡ date
    → 1 ≤ q.duration_minutes
    → IsOfDay clock zone date q db.tickets
    → is_available clock zone date holds q db ≡ is_slot_free cal holds q db
unfolding is_available is_slot_free slot_desks is_free_desk busy_desk_ids blocked_desk_ids
is_available-is_slot_free cal clock zone date holds q db same here some_time day =
    any-same _ _ (filter (is_site_desk q) db.desks) λ d.
      rw
        (
          ticket_desks-reserved clock zone date q db.tickets day,
          blocked_desks-block cal clock zone date q db db.blocked_slots same here,
          rounded q.start_ms q.duration_minutes some_time,
          has-append
              (reserved_desk_ids q db.tickets
                ++ held_desk_ids q.start_ms (query_end q) q.duration_minutes holds)
              (block_desk_ids cal q db db.blocked_slots) d.id,
        )
        (free_test _ _)
