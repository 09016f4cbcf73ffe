-- ===== src/Booking/Overlap.antt =====
-- Bookings of a desk whose times overlap; `busyDeskIds` of booking.service.ts looks for them.
use ticket_system.Base.{
  ℕ, ◌≡◌, ◌≢◌, Bool, true, false, ◌&&◌, List, [], ◌∷◌, Option, none, some, arith, ap, ◌==◌, put,
  is_id, ◌⊎◌, inl, inr, In, sym, subst, Bool-cases, row,
}
use ticket_system.Domain.{
  ClientCountry, TicketStatus, is_country, includes, slot_holding_statuses, Ticket, ticket_keyed,
}
use ticket_system.Booking.{SlotQuery, overlaps, slot_end, meets}

-- The interval of a booking; a ticket without a time has none.
abbrev pub overlap_at : Option ℕ → ℕ → Option ℕ → ℕ → Bool
overlap_at (some s) m (some t) n = overlaps s (slot_end s m) t (slot_end t n)
overlap_at _ m _ n = false

abbrev pub same_id : Option ℕ → Option ℕ → Bool
same_id (some a) o = is_id o a
same_id none o = false

abbrev pub same_direction : Option ClientCountry → Option ClientCountry → Bool
same_direction (some c) o = is_country o c
same_direction none o = false

-- Both tickets hold a slot at the same desk of a site and a direction, and the slots overlap.
abbrev pub clashes : Ticket → Ticket → Bool
clashes t u =
    t.site == u.site
    && same_direction t.country u.country
    && includes slot_holding_statuses t.status
    && includes slot_holding_statuses u.status
    && same_id t.reserved_desk u.reserved_desk
    && overlap_at t.scheduled_at t.duration_minutes u.scheduled_at u.duration_minutes

abbrev pub IsDisjoint : List Ticket → Type 0
IsDisjoint ts = (t u : Ticket) → In t ts → In u ts → t.id ≢ u.id → clashes t u ≡ false

same_direction_sym : (a b : Option ClientCountry) → same_direction a b ≡ same_direction b a
same_direction_sym a b = ground arith

same_id_sym : (a b : Option ℕ) → same_id a b ≡ same_id b a
same_id_sym a b = ground arith

overlap_at_sym : (a b : Option ℕ) (m n : ℕ) → overlap_at a m b n ≡ overlap_at b n a m
overlap_at_sym a b m n = ground arith

pub clashes_sym : (t u : Ticket) → clashes t u ≡ false → clashes u t ≡ false
clashes_sym t u h = ground (
  arith,
  same_direction_sym t.country u.country,
  same_id_sym t.reserved_desk u.reserved_desk,
  overlap_at_sym t.scheduled_at u.scheduled_at t.duration_minutes u.duration_minutes,
)

first_of : (t u x : Ticket) (ts : List Ticket) → (t ≡ x) ⊎ In x ts → (x ≡ t) ⊎ ((u ≡ x) ⊎ In x ts)
first_of t u x ts (inl e) = inl (sym e)
first_of t u x ts (inr j) = inr (inr j)

later_of :
    (t u x : Ticket) (ts : List Ticket)
    → (In x (put t ts) → (x ≡ t) ⊎ In x ts)
    → (u ≡ x) ⊎ In x (put t ts)
    → (x ≡ t) ⊎ ((u ≡ x) ⊎ In x ts)
later_of t u x ts ih (inl e) = inr (inl e)
later_of t u x ts ih (inr j) = elim (ih j) [ inl e ↦ inl e | inr k ↦ inr (inr k) ]

pub In-put : (t x : Ticket) (ts : List Ticket) → In x (put t ts) → (x ≡ t) ⊎ In x ts
In-put t x [] i = inr i
In-put t x (u ∷ ts) i = elim (Bool-cases (u.id == t.id)) [
  | inl same ↦ first_of t u x ts (rw same at i)
  | inr other ↦ later_of t u x ts (In-put t x ts) (rw other at i)
]

pub put-IsDisjoint :
    (t : Ticket) (ts : List Ticket)
    → IsDisjoint ts
    → ((u : Ticket) → In u ts → t.id ≢ u.id → clashes t u ≡ false)
    → IsDisjoint (put t ts)
put-IsDisjoint t ts v free x y i j apart = both (In-put t x ts i) (In-put t y ts j)
  where
    both : (x ≡ t) ⊎ In x ts → (y ≡ t) ⊎ In y ts → clashes x y ≡ false
    both (inl e) (inl f) = absurd (apart cc)
    both (inl e) (inr k) = subst (λ z. clashes z y ≡ false) (sym e) (free y k λ p. apart cc)
    both (inr k) (inl f) =
        subst (λ z. clashes x z ≡ false) (sym f) (clashes_sym t x (free x k λ p. apart cc))
    both (inr k) (inr l) = v x y k l apart

pub is_id-some : (o : Option ℕ) (d : ℕ) → is_id o d ≡ true → o ≡ some d
is_id-some none d h = cc
is_id-some (some a) d h = ground arith

pub meets-overlap_at :
    (q : SlotQuery) (u : Ticket)
    → meets q u ≡ overlap_at (some q.start_ms) q.duration_minutes u.scheduled_at u.duration_minutes
meets-overlap_at q u = ground arith

-- What a booking is: where, for which direction, at which desk, when and for how long.
abbrev pub place : Ticket → ℕ × Option ClientCountry × Option ℕ × Option ℕ × ℕ
place t = (t.site, t.country, t.reserved_desk, t.scheduled_at, t.duration_minutes)

-- The ticket holds its slot.
abbrev pub holding : TicketStatus → Bool
holding s = includes slot_holding_statuses s

-- A booking that stays where it is meets no other one than before.
pub clashes-place :
    (t t' u : Ticket)
    → place t' ≡ place t
    → (holding t'.status ≡ true → holding t.status ≡ true)
    → clashes t u ≡ false
    → clashes t' u ≡ false
clashes-place t t' u same lives h = elim (Bool-cases (holding t'.status)) [
  | inl on ↦ ground (
    arith,
    lives on,
    ap (λ p. p.0) same,
    ap (λ p. p.1) same,
    ap (λ p. p.2) same,
    ap (λ p. p.3) same,
    ap (λ p. p.4) same,
  )
  | inr off ↦ ground arith
]

pub row-In : (i : ℕ) (t : Ticket) (ts : List Ticket) → row i ts ≡ some t → In t ts
row-In i t [] h = cc
row-In i t (u ∷ ts) h = elim (Bool-cases (u.id == i)) [
  | inl same ↦ inl (ground arith)
  | inr other ↦ inr (row-In i t ts (ground arith))
]
