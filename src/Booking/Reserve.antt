-- ===== src/Booking/Reserve.antt =====
-- Which desk a booking gets.
use ticket_system.Base.{
  subst, ==_refl, ◌-◌, ◌∙◌, ℕ, ◌≡◌, refl, Bool, true, false, ◌||◌, List, [], ◌∷◌, ◌++◌, Option,
  none, some, arith, find, filter, any, is_some, or_else, In, In-filter, inl, inr, Option-cases,
  Bool-cases,
}
use ticket_system.Domain.{Desk, Ticket, BlockedSlot}
use ticket_system.Queue.Store.{Db, ok, is_ok, require, conflict}
use ticket_system.Booking.{
  add_if, query_end, rounded_minutes, Calendar, Hold, SlotQuery, holds_slot, has, reserved_desk_ids,
  held_desk_ids, busy_desk_ids, block_desk_ids, blocked_desk_ids, blocks_slot, desk_of,
  is_free_desk, is_site_desk, first, choose_desk, is_preferred, reserve_desk, is_slot_free,
}

first-filter :
    {A : Type 0} → (p : A → Bool) (xs : List A) → is_some (first (filter p xs)) ≡ any p xs
first-filter p [] = refl
first-filter p (x ∷ xs) = ground (arith, first-filter p xs)

choose_desk-is_some :
    (p : Option ℕ) (xs : List Desk) → is_some (choose_desk p xs) ≡ is_some (first xs)
unfolding choose_desk
choose_desk-is_some p [] = refl
choose_desk-is_some p (x ∷ xs) = ground arith

require-is_ok : {A : Type 0} → (o : Option A) → is_ok (require o conflict) ≡ is_some o
require-is_ok none = refl
require-is_ok (some a) = refl

first-any :
    {A : Type 0} → (p : A → Bool) (xs : List A) → is_some (first xs) ≡ false → any p xs ≡ false
first-any p [] h = refl
first-any p (x ∷ xs) h = cc

-- A desk can be reserved exactly where the slot counts as free, whatever desk is preferred.
pub reserve_desk-is_slot_free :
    (cal : Calendar) (holds : List Hold) (q : SlotQuery) (preferred : Option ℕ) (db : Db)
    → is_ok (reserve_desk cal holds q preferred db) ≡ is_slot_free cal holds q db
unfolding reserve_desk is_slot_free
reserve_desk-is_slot_free cal holds q preferred db =
    elim (Bool-cases (is_some (first (filter (is_site_desk q) db.desks)))) [
      | inl there ↦ rw there (
          require-is_ok (
            choose_desk preferred
              (filter (is_free_desk cal holds q db) (filter (is_site_desk q) db.desks)))
          ∙ choose_desk-is_some preferred
              (filter (is_free_desk cal holds q db) (filter (is_site_desk q) db.desks))
          ∙ first-filter (is_free_desk cal holds q db) (filter (is_site_desk q) db.desks))
      | inr gone ↦
          rw (gone, first-any (is_free_desk cal holds q db) (filter (is_site_desk q) db.desks) gone)
            refl
    ]

first-In : {A : Type 0} → (xs : List A) (a : A) → first xs ≡ some a → In a xs
first-In [] a h = cc
first-In (x ∷ xs) a h = inl cc

find-In : {A : Type 0} → (p : A → Bool) (xs : List A) (a : A) → find p xs ≡ some a → In a xs
find-In p [] a h = cc
find-In p (x ∷ xs) a h = elim (Bool-cases (p x)) [
  | inl t ↦ inl (ground arith)
  | inr f ↦ inr (find-In p xs a (ground arith))
]

choose_desk-In : (p : Option ℕ) (xs : List Desk) (d : Desk) → choose_desk p xs ≡ some d → In d xs
unfolding choose_desk
choose_desk-In p xs d h = elim (Option-cases (find (is_preferred p) xs)) [
  | inl out ↦ first-In xs d (rw (out, or_else) at h)
  | inr (e, found) ↦ find-In (is_preferred p) xs d (cc (found, rw found at h))
]

required : {A : Type 0} → (o : Option A) (a : A) → require o conflict ≡ ok a → o ≡ some a
required none a h = cc
required (some b) a h = cc

-- The desk that is reserved is an active desk of the site and the direction, and free.
pub reserve_desk-chosen :
    (cal : Calendar) (holds : List Hold) (q : SlotQuery) (preferred : Option ℕ) (db : Db) (d : Desk)
    → reserve_desk cal holds q preferred db ≡ ok d
    → In d db.desks × (is_site_desk q d ≡ true) × (is_free_desk cal holds q db d ≡ true)
unfolding reserve_desk
reserve_desk-chosen cal holds q preferred db d h =
    elim (Bool-cases (is_some (first (filter (is_site_desk q) db.desks)))) [
      | inl there ↦
          let (i, free) =
            In-filter (is_free_desk cal holds q db) (filter (is_site_desk q) db.desks) d
              (choose_desk-In preferred _ d (required _ d (rw there at h))) in
          let (j, there') = In-filter (is_site_desk q) db.desks d i in (j, there', free)
      | inr gone ↦ cc (rw gone at h)
    ]

pub has-append : (xs ys : List ℕ) (n : ℕ) → has (xs ++ ys) n ≡ has xs n || has ys n
has-append [] ys n = refl
has-append (x ∷ xs) ys n = ground (arith, has-append xs ys n)

has-add_if :
    (o : Option ℕ) (b : Bool) (ids : List ℕ) (d : ℕ)
    → has (add_if o b ids) d ≡ false
    → has ids d ≡ false
has-add_if none b ids d h = h
has-add_if (some e) b ids d h = ground arith

not_added : (b : Bool) (ids : List ℕ) (d : ℕ) → has (add_if (some d) b ids) d ≡ false → b ≡ false
not_added b ids d h = ground (arith, ==_refl d)

reserved-has :
    (q : SlotQuery) (ts : List Ticket) (t : Ticket) (d : ℕ)
    → In t ts
    → t.reserved_desk ≡ some d
    → has (reserved_desk_ids q ts) d ≡ false
    → holds_slot q t ≡ false
unfolding reserved_desk_ids
reserved-has q [] t d i r h = elim i [ ]
reserved-has q (u ∷ ts) t d (inl e) r h = not_added (holds_slot q t) (reserved_desk_ids q ts) d (
    subst (λ o. has (add_if o (holds_slot q t) (reserved_desk_ids q ts)) d ≡ false) r
      (subst (λ v. has (add_if v.reserved_desk (holds_slot q v) (reserved_desk_ids q ts)) d ≡ false)
        e h))
reserved-has q (u ∷ ts) t d (inr i) r h =
    reserved-has q ts t d i r
      (has-add_if u.reserved_desk (holds_slot q u) (reserved_desk_ids q ts) d h)

blocked-has :
    (cal : Calendar) (q : SlotQuery) (db : Db) (bs : List BlockedSlot) (b : BlockedSlot) (d : ℕ)
    → In b bs
    → desk_of db b.employee ≡ some d
    → has (block_desk_ids cal q db bs) d ≡ false
    → blocks_slot cal q b ≡ false
unfolding block_desk_ids
blocked-has cal q db [] b d i r h = elim i [ ]
blocked-has cal q db (c ∷ bs) b d (inl e) r h =
    not_added (blocks_slot cal q b) (block_desk_ids cal q db bs) d (
      subst (λ o. has (add_if o (blocks_slot cal q b) (block_desk_ids cal q db bs)) d ≡ false) r
        (subst
          (λ v.
            has (add_if (desk_of db v.employee) (blocks_slot cal q v) (block_desk_ids cal q db bs))
              d
            ≡ false)
          e h))
blocked-has cal q db (c ∷ bs) b d (inr i) r h =
    blocked-has cal q db bs b d i r
      (has-add_if (desk_of db c.employee) (blocks_slot cal q c) (block_desk_ids cal q db bs) d h)

free_of :
    (cal : Calendar) (holds : List Hold) (q : SlotQuery) (db : Db) (d : Desk)
    → is_free_desk cal holds q db d ≡ true
    → (has (reserved_desk_ids q db.tickets) d.id ≡ false)
      × (has (block_desk_ids cal q db db.blocked_slots) d.id ≡ false)
unfolding is_free_desk busy_desk_ids blocked_desk_ids
free_of cal holds q db d h = (
  ground (
    arith,
    has-append (reserved_desk_ids q db.tickets)
        (held_desk_ids q.start_ms (query_end q) (rounded_minutes (query_end q - q.start_ms)) holds)
        d.id,
  ),
  ground arith,
)

-- No ticket that is reserved for the desk that a booking gets holds the slot, other than the ticket that is not counted.
pub reserve_desk-holds_slot :
    (cal : Calendar) (holds : List Hold) (q : SlotQuery) (preferred : Option ℕ) (db : Db) (d : Desk)
    (t : Ticket)
    → reserve_desk cal holds q preferred db ≡ ok d
    → In t db.tickets
    → t.reserved_desk ≡ some d.id
    → holds_slot q t ≡ false
reserve_desk-holds_slot cal holds q preferred db d t h i r =
    reserved-has q db.tickets t d.id i r
      (free_of cal holds q db d (reserve_desk-chosen cal holds q preferred db d h).2).0

-- No block of an employee at the desk that a booking gets meets the slot.
pub reserve_desk-blocks_slot :
    (cal : Calendar) (holds : List Hold) (q : SlotQuery) (preferred : Option ℕ) (db : Db) (d : Desk)
    (b : BlockedSlot)
    → reserve_desk cal holds q preferred db ≡ ok d
    → In b db.blocked_slots
    → desk_of db b.employee ≡ some d.id
    → blocks_slot cal q b ≡ false
reserve_desk-blocks_slot cal holds q preferred db d b h i r =
    blocked-has cal q db db.blocked_slots b d.id i r
      (free_of cal holds q db d (reserve_desk-chosen cal holds q preferred db d h).2).1
