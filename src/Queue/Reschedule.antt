-- ===== src/Queue/Reschedule.antt =====
-- `rescheduleTicket` of queue.service.ts: a booking moves to another time and, it may be, another desk.
pub mod Overlap
use ticket_system.Base.{
  ℕ, Bool, false, not, ◌&&◌, List, [], ◌∷◌, ◌++◌, none, some, ◌==◌, any, row, is_id,
}
use ticket_system.Domain.{
  Text, ClientCountry, completed, cancelled, no_show, includes, slot_holding_statuses, Desk, Ticket,
  ticket_keyed,
}
use ticket_system.Booking.{Calendar, Hold, SlotQuery, assert_slot_available, reserve_desk}
use ticket_system.Queue.Store.{
  Db, Env, EventKind, AuditAction, Result, ok, ◌>>=◌, ◌>>◌, guard, require, not_found, bad_request,
  conflict, duplicate_key, save_ticket, event, audit,
}

-- The words before the new time and before the desk in `clientNotice`.
abbrev pub moved_to : Text
moved_to =
    1042 ∷ 1072 ∷ 1096 ∷ 1072 ∷ 32 ∷ 1079 ∷ 1072 ∷ 1087 ∷ 1080 ∷ 1089 ∷ 1100 ∷ 32 ∷ 1087 ∷ 1077
    ∷ 1088 ∷ 1077 ∷ 1085 ∷ 1077 ∷ 1089 ∷ 1077 ∷ 1085 ∷ 1072 ∷ 32 ∷ 1085 ∷ 1072 ∷ 32 ∷ []

abbrev pub at_desk : Text
at_desk = 46 ∷ 32 ∷ 1057 ∷ 1090 ∷ 1086 ∷ 1083 ∷ 58 ∷ 32 ∷ []

-- Two rows that the unique index `one_active_slot_per_desk_time` does not let stand together.
abbrev pub same_slot : Ticket → Ticket → Bool
same_slot t u =
    not (t.id == u.id)
    && includes slot_holding_statuses t.status
    && includes slot_holding_statuses u.status
    && elim t.reserved_desk [ none ↦ false | some d ↦ is_id u.reserved_desk d ]
    && elim t.scheduled_at [ none ↦ false | some at ↦ is_id u.scheduled_at at ]

unfoldable pub save_slot : Ticket → Db → Result Db
save_slot t db = do guard (not (any (same_slot t) db.tickets)) duplicate_key; ok (save_ticket t db)

abbrev pub moved : (ℕ → Text) → Ticket → ℕ → Desk → Ticket
moved label t at desk = record t {
  scheduled_at = some at;
  reserved_desk = some desk.id;
  client_notice = some (moved_to ++ label at ++ at_desk ++ desk.label);
}

abbrev pub query_of : Ticket → ClientCountry → ℕ → SlotQuery
query_of t country at = record {
  site_id = t.site;
  country = country;
  start_ms = at;
  duration_minutes = t.duration_minutes;
  exclude_ticket_id = some t.id;
}

-- `label` is `formatScheduledLabel`, which asks the runtime's calendar.
unfoldable pub reschedule_ticket :
    Calendar → (ℕ → Text) → List Hold → Env → ℕ → ℕ → ℕ → Db → Result (Ticket × Db)
unfolding save_slot
reschedule_ticket cal label holds env subject ticket_id at db = do
  ticket ← require (row ticket_id db.tickets) not_found
  previous ← require ticket.scheduled_at bad_request
  country ← require ticket.country bad_request
  guard (not (includes (completed ∷ cancelled ∷ no_show ∷ []) ticket.status)) conflict
  let query : SlotQuery = query_of ticket country at
  assert_slot_available cal holds env.now query db
  desk ← reserve_desk cal holds query none db
  let t : Ticket = moved label ticket at desk
  saved ← save_slot t db
  ok (
    t,
    audit (some subject) (AuditAction.ticket_rescheduled previous at) t.id
        (event t.id (EventKind.rescheduled previous at) (some subject) saved),
  )
