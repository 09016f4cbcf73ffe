-- ===== src/Queue/Views/Position.antt =====
-- The position in the queue and the order of dispatch.
use ticket_system.Base.{
  ◌||◌, ltb, bit, ◌==◌, ◌+◌, ◌≡◌, refl, Bool, true, ◌&&◌, List, [], ◌∷◌, arith, count, In, inl, inr,
  is_some, Bool-cases,
}
use ticket_system.Domain.{Ticket, live_queue_statuses, includes}
use ticket_system.Dispatch.{dispatched_before}
use ticket_system.Queue.Views.{turn_time, is_peer, is_ahead, get_queue_meta}

-- The waiting tickets of the same site and direction that come before one in the order of dispatch.
abbrev pub goes_before : Ticket → Ticket → Bool
goes_before t p = is_peer t p && dispatched_before p t

-- The waiting tickets whose slot and priority are the same, and which were created earlier.
abbrev pub ties_before : Ticket → Ticket → Bool
ties_before t p =
    is_peer t p
    && p.priority == t.priority
    && turn_time p == turn_time t
    && ltb p.created_at t.created_at

abbrev is_earlier : Ticket → Ticket → Bool
is_earlier t p =
    ltb t.priority p.priority || (p.priority == t.priority && ltb (turn_time p) (turn_time t))

abbrev is_tied : Ticket → Ticket → Bool
is_tied t p =
    p.priority == t.priority && turn_time p == turn_time t && ltb p.created_at t.created_at

split_dispatched :
    (t p : Ticket)
    → is_some t.scheduled_at ≡ true
    → is_some p.scheduled_at ≡ true
    → bit (dispatched_before p t) ≡ bit (is_earlier t p) + bit (is_tied t p)
unfolding dispatched_before
split_dispatched t p slot other = ground arith

split_before :
    (t p : Ticket)
    → is_some t.scheduled_at ≡ true
    → (is_peer t p ≡ true → is_some p.scheduled_at ≡ true)
    → bit (goes_before t p) ≡ bit (is_ahead t p) + bit (ties_before t p)
unfolding is_ahead
split_before t p slot booked = elim (Bool-cases (is_peer t p)) [
  | inr other ↦ rw other refl
  | inl peer ↦ rw peer (split_dispatched t p slot (booked peer))
]

count-split :
    (p q r : Ticket → Bool) (ts : List Ticket)
    → ((t : Ticket) → In t ts → bit (p t) ≡ bit (q t) + bit (r t))
    → count p ts ≡ count q ts + count r ts
count-split p q r [] h = refl
count-split p q r (t ∷ ts) h =
    ground (arith, h t (inl refl), count-split p q r ts (λ u i. h u (inr i)))

-- The place told to a waiting client with a slot is one more than the number of waiting tickets of the site and the direction that come before it in the order of `applyQueueDispatchOrder`, less those that come before it only by their creation, where all of these have slots. The preference of a desk for the tickets reserved for it is not part of either.
pub get_queue_meta-dispatched_before :
    (t : Ticket) (ts : List Ticket)
    → includes live_queue_statuses t.status ≡ true
    → is_some t.scheduled_at ≡ true
    → ((p : Ticket) → In p ts → is_peer t p ≡ true → is_some p.scheduled_at ≡ true)
    → (get_queue_meta t ts).queue_position + count (ties_before t) ts ≡ count (goes_before t) ts + 1
unfolding get_queue_meta
get_queue_meta-dispatched_before t ts live slot booked = rw live (
    omega (
      arith,
      count-split (goes_before t) (is_ahead t) (ties_before t) ts
          (λ p i. split_before t p slot (booked p i)),
    ))
