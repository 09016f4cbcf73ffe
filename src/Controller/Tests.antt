-- ===== src/Controller/Tests.antt =====
-- A visitor of the routes: a hold, a ticket on it, and its cancellation.
use ticket_system.Base.{arith, ℕ, ◌+◌, ◌<◌, ◌≡◌, refl, [], ◌∷◌, none, some}
use ticket_system.Domain.{booked}
use ticket_system.RateLimit.{
  hold_slot, consume_hold, peek_hold, get_session_hold, holds_of, list_holds,
}
use ticket_system.RateLimit.Memory.{Memory, empty, memory, memory-TimeLaws}
use ticket_system.RateLimit.Tickets.{assert_can_create_ticket}
use ticket_system.Booking.{assert_slot_available, duration_for, reserve_desk}
use ticket_system.Booking.Tests.{moscow}
use ticket_system.Person.{
  assert_person_input, is_space, matches_from, is_letter, normalize_phone_digits,
}
use ticket_system.Queue.Book.{hold_slot_for, create_ticket}
use ticket_system.Queue.Book.Tests.{units, client, hold_one, travel, with_hold}
use ticket_system.Queue.Tests.{ticket_of}
use ticket_system.Queue.WalkIn.Tests.{opened, morning, days}
use ticket_system.Controller.{
  World, Visit, CreateBody, create, current, cancel, gone, too_many, handle, cancel_current,
}
use ticket_system.Controller.Current.{shown_id, create-current}
use ticket_system.Controller.Cooldown.{cancel-create}
use ticket_system.Queue.Steps.{Operation}
use ticket_system.Controller.Creates.{handle-run}
use ticket_system.Controller.Asks.{asks, applied, token_after}
use ticket_system.Rules.{can_cancel}
use ticket_system.Queue.Manager.{cancel_ticket_by_hash}

abbrev visit : Visit
visit = record {
  view = record { scheduled_label = λ at. []; updated_at = λ id. 0 };
  reader = record { upper = λ t. t; hash = λ t. 0 };
  calendar = moscow;
  clock = days;
  spell = units;
  env = morning;
  ip = 49 ∷ [];
  session_id = client;
}

abbrev body : CreateBody
body = record { website = none; input = travel; hold_id = hold_one; code = 65 ∷ [] }

abbrev arrived : World Memory
arrived = record {
  session = record { ticket_token_hash = none; lookup_code = none; ticket_history = [] };
  db = opened;
  store = with_hold;
}

creates : shown_id (create memory visit body arrived).0 ≡ some opened.next_id
unfolding create create_ticket assert_can_create_ticket assert_person_input is_space matches_from
    is_letter normalize_phone_digits peek_hold get_session_hold assert_slot_available duration_for
    holds_of list_holds reserve_desk hold_slot consume_hold hold_slot_for
creates = refl

create-current_example :
    shown_id (current memory visit (create memory visit body arrived).1).0 ≡ some opened.next_id
create-current_example = create-current memory visit body arrived opened.next_id creates

abbrev has_ticket : World Memory
has_ticket = record {
  session = record { ticket_token_hash = some 100; lookup_code = some []; ticket_history = [] };
  db = record opened { tickets = ticket_of 5 booked ∷ [] };
  store = empty;
}

abbrev soon : Visit
soon = record visit { env = record morning { now = morning.now + 60000 } }

cancels : (cancel memory visit has_ticket).0 ≡ gone
unfolding cancel cancel_ticket_by_hash can_cancel
cancels = refl

cancel-create_example :
    (seconds : ℕ) × (0 < seconds)
    × (create memory soon body (cancel memory visit has_ticket).1
        ≡ (too_many seconds, (cancel memory visit has_ticket).1))
cancel-create_example =
    cancel-create memory memory-TimeLaws visit soon body has_ticket
      (cancel memory visit has_ticket).1 cancels refl (omega arith) (omega arith) refl refl

handle-run_example :
    ((handle memory visit cancel_current has_ticket).1.db
      ≡ applied morning (asks memory visit cancel_current has_ticket) has_ticket.db)
    × ((handle memory visit cancel_current has_ticket).1.session.ticket_token_hash
        ≡ token_after visit cancel_current
            (handle memory visit cancel_current has_ticket).0
            has_ticket)
handle-run_example = handle-run memory visit cancel_current has_ticket

asks_for_cancel : asks memory visit cancel_current has_ticket ≡ some (Operation.cancel 100)
asks_for_cancel = refl
