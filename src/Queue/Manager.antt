-- ===== src/Queue/Manager.antt =====
-- What a manager and an administrator do with a ticket: `markNoShow`, `setTicketStatus`,
-- `assignmentAction`; and what a client does: `checkInByHash`, `cancelTicketByHash`.
use ticket_system.Base.{ℕ, false, Option, none, some, ◌==◌, find, row}
use ticket_system.Domain.{
  booked, checked_in, no_show, cancelled, status_eq, available, Ticket, Assignment, ticket_keyed,
  assignment_keyed, employee_keyed,
}
use ticket_system.Rules.{can_cancel, can_check_in, check_in_window_expired}
use ticket_system.Queue.Store.{
  Db, Env, EventKind, AuditAction, Result, ok, ◌>>=◌, ◌>>◌, guard, require, bad_request, conflict,
  not_found, save_ticket, save_assignment, event, audit, is_active_on, set_employee_status_of,
}
use ticket_system.Queue.Assign.{assign_specific_ticket}

-- Checks a client in, and hands the ticket to a free manager at once where there is one.
unfoldable pub check_in_by_hash : Env → ℕ → Db → Result (Option Assignment × Db)
check_in_by_hash env hash db = do
  ticket ← require (find (λ t. t.access_token_hash == hash) db.tickets) not_found
  guard (can_check_in ticket.status ticket.scheduled_at ticket.duration_minutes env.now) bad_request
  let checked : Ticket = record ticket {
    status = checked_in;
    priority = 1;
    checked_in_at = some env.now;
  }
  assign_specific_ticket env checked
      (event ticket.id EventKind.checked_in none (save_ticket checked db))

unfoldable pub mark_ticket_no_show : Env → ℕ → ℕ → Db → Result (Ticket × Db)
mark_ticket_no_show env subject ticket_id db = do
  ticket ← require (row ticket_id db.tickets) not_found
  guard (status_eq ticket.status booked) conflict
  guard (check_in_window_expired ticket.scheduled_at ticket.duration_minutes env.now) bad_request
  let missed : Ticket = record ticket { status = no_show }
  ok (
    missed,
    audit (some subject) (AuditAction.ticket_no_show none) ticket.id
        (event ticket.id EventKind.no_show (some subject) (save_ticket missed db)),
  )

-- The assignment of a cancelled ticket is closed with no time of completion.
unfoldable pub release_cancelled : Option Assignment → Db → Db
release_cancelled none db = db
release_cancelled (some a) db =
    set_employee_status_of a.employee available (save_assignment (record a { active = false }) db)

unfoldable pub cancel_ticket_by_hash : Env → ℕ → Db → Result (Unit {0} × Db)
unfolding release_cancelled
cancel_ticket_by_hash env hash db = do
  ticket ← require (find (λ t. t.access_token_hash == hash) db.tickets) not_found
  guard (can_cancel ticket.status) conflict
  let db' = save_ticket (record ticket { status = cancelled }) db
  ok (
    tt,
    event ticket.id EventKind.cancelled none
        (release_cancelled (find (is_active_on ticket.id) db'.assignments) db'),
  )
