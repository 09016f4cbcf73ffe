-- ===== src/Presentation/Progress.antt =====
-- What a client sees follows the life of the ticket.
use ticket_system.Base.{◌<◌, ◌≤◌, ◌≡◌, ◌↔◌, ◌≢◌, Bool, true, some, arith, length}
use ticket_system.Domain.{TicketStatus, cancelled, no_show}
use ticket_system.Rules.{AssignmentAction, requeue, next_ticket_status}
use ticket_system.Presentation.{
  TicketKind, client_progress_step, client_progress_labels, client_shows_desk,
}

-- The step is an index into the labels of the same kind of ticket.
pub client_progress_step-lt-length :
    (s : TicketStatus) (kind : TicketKind)
    → client_progress_step s kind < length (client_progress_labels kind)
unfolding client_progress_step client_progress_labels
client_progress_step-lt-length s kind = ground arith

-- Every action of a manager but a return to the queue moves the client's progress forward or
-- leaves it where it is.
pub client_progress_step-next_ticket_status :
    (s t : TicketStatus) (a : AssignmentAction) (slot : Bool) (kind : TicketKind)
    → a ≢ requeue
    → next_ticket_status s a slot ≡ some t
    → client_progress_step s kind ≤ client_progress_step t kind
unfolding client_progress_step next_ticket_status
client_progress_step-next_ticket_status s t a slot kind k h = ground arith

-- The desk is shown exactly from the call on, and not for a ticket that ended without service.
pub client_shows_desk-client_progress_step :
    (s : TicketStatus) (kind : TicketKind)
    → (client_shows_desk s kind ≡ true)
      ↔ ((0 < client_progress_step s kind) × (s ≢ cancelled) × (s ≢ no_show))
unfolding client_shows_desk client_progress_step
client_shows_desk-client_progress_step s kind = grind arith
