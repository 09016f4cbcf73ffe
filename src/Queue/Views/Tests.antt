-- ===== src/Queue/Views/Tests.antt =====
-- The place of a client who waits.
use ticket_system.Base.{◌+◌, ◌≡◌, refl, true, List, [], ◌∷◌, In, inl, inr, is_some, count, subst}
use ticket_system.Domain.{Ticket, requeued}
use ticket_system.Queue.Tests.{ticket_of, next_client}
use ticket_system.Queue.Views.{get_queue_meta, is_ahead}
use ticket_system.Queue.Views.Position.{ties_before, goes_before, get_queue_meta-dispatched_before}

abbrev line : List Ticket
line = ticket_of 5 requeued ∷ next_client ∷ []

-- The one who was called before stands ahead.
second_place : (get_queue_meta next_client line).queue_position ≡ 2
unfolding get_queue_meta is_ahead
second_place = refl

all_booked : (p : Ticket) → In p line → is_some p.scheduled_at ≡ true
all_booked p (inl e) = subst (λ u. is_some u.scheduled_at ≡ true) e refl
all_booked p (inr i) = elim i [
  | inl e ↦ subst (λ u. is_some u.scheduled_at ≡ true) e refl
  | inr j ↦ elim j [ ]
]

get_queue_meta-dispatched_before_example :
    (get_queue_meta next_client line).queue_position + count (ties_before next_client) line
    ≡ count (goes_before next_client) line + 1
get_queue_meta-dispatched_before_example =
    get_queue_meta-dispatched_before next_client line refl refl (λ p i h. all_booked p i)
