-- ===== src/Rules/Lifecycle.antt =====
-- The diagram of a ticket's statuses under the actions of a manager, and what the code accepts.
use ticket_system.Base.{
  if◌then◌else◌, ◌≡◌, refl, ◌↔◌, ◌≢◌, Bool, true, not, [], ◌∷◌, none, some, arith,
}
use ticket_system.Domain.{
  TicketStatus, booked, waiting, checked_in, assigned, called, in_service, completed, requeued,
  no_show, cancelled, includes, slot_holding_statuses,
}
use ticket_system.Rules.{
  AssignmentAction, call, start, complete, requeue, mark_no_show, next_ticket_status, can_cancel,
  can_release_on_break, blocks_break,
}

-- An arrow of the diagram; the flag says that the ticket has a slot.
pub data Moves : TicketStatus → AssignmentAction → Bool → TicketStatus → Type 0 where
  calls : {slot : Bool} → Moves assigned call slot called
  starts : {slot : Bool} → Moves called start slot in_service
  starts_at_once : Moves assigned start true in_service
  completes : {slot : Bool} → Moves in_service complete slot completed
  requeues_assigned : {slot : Bool} → Moves assigned requeue slot requeued
  requeues_called : {slot : Bool} → Moves called requeue slot requeued
  misses_called : {slot : Bool} → Moves called mark_no_show slot no_show
  misses_booked : {slot : Bool} → Moves booked mark_no_show slot no_show

Moves-complete :
    {s t : TicketStatus} {a : AssignmentAction} {slot : Bool}
    → Moves s a slot t
    → next_ticket_status s a slot ≡ some t
unfolding next_ticket_status
Moves-complete calls = refl
Moves-complete starts = refl
Moves-complete starts_at_once = refl
Moves-complete completes = refl
Moves-complete requeues_assigned = refl
Moves-complete requeues_called = refl
Moves-complete misses_called = refl
Moves-complete misses_booked = refl

ruleset arrows = (
  calls, starts, starts_at_once, completes, requeues_assigned, requeues_called, misses_called,
  misses_booked,
)

Moves-sound :
    (s t : TicketStatus) (a : AssignmentAction) (slot : Bool)
    → next_ticket_status s a slot ≡ some t
    → Moves s a slot t
unfolding next_ticket_status
Moves-sound s t a slot h = grind (arith, arrows)

-- The table of transitions and the special start of a booked client accept an action exactly
-- along the arrows of the diagram, and lead where the arrow leads.
pub next_ticket_status-Moves :
    (s t : TicketStatus) (a : AssignmentAction) (slot : Bool)
    → (next_ticket_status s a slot ≡ some t) ↔ Moves s a slot t
next_ticket_status-Moves s t a slot = (Moves-sound s t a slot, Moves-complete)

-- A ticket can be cancelled exactly while it holds its slot and is not being served.
pub can_cancel-includes :
    (s : TicketStatus)
    → (can_cancel s ≡ true) ↔ ((includes slot_holding_statuses s ≡ true) × (s ≢ in_service))
unfolding can_cancel
can_cancel-includes s = grind arith

-- No action is accepted on a closed ticket, nor on one that waits to be assigned.
pub next_ticket_status_closed :
    (s : TicketStatus) (a : AssignmentAction) (slot : Bool)
    → includes (completed ∷ cancelled ∷ no_show ∷ waiting ∷ checked_in ∷ requeued ∷ []) s ≡ true
    → next_ticket_status s a slot ≡ none
unfolding next_ticket_status
next_ticket_status_closed s a slot h = ground arith

-- Where a manager has the client, the ticket is either released by a break or forbids it, never
-- both; and the manager can put the ticket back into the queue exactly where a break releases it.
pub break_cases :
    (s : TicketStatus) (slot : Bool)
    → includes (assigned ∷ called ∷ in_service ∷ []) s ≡ true
    → (can_release_on_break s ≡ not (blocks_break s))
      × (next_ticket_status s requeue slot
          ≡ (if can_release_on_break s then some requeued else none))
unfolding can_release_on_break blocks_break next_ticket_status
break_cases s slot h = (ground arith, ground arith)
