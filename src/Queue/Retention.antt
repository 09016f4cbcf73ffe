-- ===== src/Queue/Retention.antt =====
-- apps/api/src/queue/retention.service.ts: closed tickets and old audits are deleted after a term.
-- The times of the columns `updatedAt` of a ticket and `occurredAt` of an audit are arguments; an audit
-- is named by its place in the table.
mod Tests
use ticket_system.Base.{
  ℕ, ◌+◌, ◌-◌, ◌*◌, Bool, true, false, not, ◌&&◌, List, [], ◌∷◌, filter, ltb, ◌==◌, any, order_rows,
  limit, length, if◌then◌else◌,
}
use ticket_system.Domain.{TicketStatus, completed, cancelled, no_show, includes, Ticket}
use ticket_system.Queue.Store.{Db, Env, AuditEvent}

abbrev pub terminal : TicketStatus → Bool
terminal s = includes (completed ∷ cancelled ∷ no_show ∷ []) s

pub record RetentionConfig : Type 0 where
  pub ticket_days : ℕ
  pub audit_days : ℕ
  pub ticket_updated_at : ℕ → ℕ
  pub audit_occurred_at : ℕ → ℕ

abbrev pub day_ms : ℕ
day_ms = 86400000

abbrev pub cutoff : Env → ℕ → ℕ
cutoff env days = env.now - days * day_ms

unfoldable pub is_expired : RetentionConfig → Env → Ticket → Bool
is_expired config env t =
    terminal t.status && ltb (config.ticket_updated_at t.id) (cutoff env config.ticket_days)

-- `ORDER BY updatedAt LIMIT 500`.
unfoldable pub expired_tickets : RetentionConfig → Env → List Ticket → List Ticket
unfolding is_expired
expired_tickets config env ts =
    limit 500 (order_rows (λ t. config.ticket_updated_at t.id) (filter (is_expired config env) ts))

-- `id IN (…)`.
abbrev pub is_one_of : List Ticket → ℕ → Bool
is_one_of [] i = false
is_one_of (t ∷ ts) i = let rest = is_one_of ts i in if t.id == i then true else rest

-- The three deletions.
unfoldable pub delete_tickets : List Ticket → Db → Db
delete_tickets gone db = record db {
  assignments = filter (λ a. not (is_one_of gone a.ticket)) db.assignments;
  events = filter (λ e. not (is_one_of gone e.ticket_id)) db.events;
  tickets = filter (λ t. not (is_one_of gone t.id)) db.tickets;
}

abbrev pub places : ℕ → List AuditEvent → List ℕ
places n [] = []
places n (e ∷ es) = n ∷ places (n + 1) es

-- `occurredAt < cutoff`, in their order, 1000 at most.
unfoldable pub expired_audits : RetentionConfig → Env → List AuditEvent → List ℕ
expired_audits config env es = limit 1000 (
    order_rows config.audit_occurred_at
      (filter (λ p. ltb (config.audit_occurred_at p) (cutoff env config.audit_days)) (places 0 es)))

-- The rows at other places.
unfoldable pub keep_audits : List ℕ → ℕ → List AuditEvent → List AuditEvent
keep_audits gone n [] = []
keep_audits gone n (e ∷ es) =
    let rest = keep_audits gone (n + 1) es in if any (λ p. p == n) gone then rest else e ∷ rest

pub record Purged : Type 0 where
  pub tickets : ℕ
  pub audits : ℕ

unfoldable pub purge_expired : RetentionConfig → Env → Db → Purged × Db
unfolding expired_tickets delete_tickets expired_audits keep_audits
purge_expired config env db =
    let gone = expired_tickets config env db.tickets in
    let old = expired_audits config env db.audits in
    (
      record { tickets = length gone; audits = length old },
      record (delete_tickets gone db) { audits = keep_audits old 0 db.audits },
    )
