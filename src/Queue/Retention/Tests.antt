-- ===== src/Queue/Retention/Tests.antt =====
-- Runs of the retention.
use ticket_system.Base.{inl, ◌==◌, filter, ◌≡◌, refl, false, [], ◌∷◌, some, row}
use ticket_system.Domain.{completed, ticket_keyed}
use ticket_system.Queue.Store.{Env}
use ticket_system.Queue.Tests.{ticket_of, office, working, working-IsLinked, next_client}
use ticket_system.Queue.Retention.{
  RetentionConfig, is_expired, expired_tickets, delete_tickets, purge_expired,
}
use ticket_system.Queue.Linked.Purge.{IsKept, purge_expired-keeps}

-- Everything was changed at the start of the epoch, and is kept for a day.
abbrev short_memory : RetentionConfig
short_memory = record {
  ticket_days = 1;
  audit_days = 1;
  ticket_updated_at = λ i. 0;
  audit_occurred_at = λ p. 0;
}

abbrev next_week : Env
next_week = record { now = 700000000; locked = λ _. false; updated_at = λ i. i }

still_waits : IsKept short_memory next_week next_client
still_waits = inl (λ e. cc, λ e. cc, λ e. cc)

purge_expired-keeps_example :
    let after = (purge_expired short_memory next_week working).1 in
    (row 8 after.tickets ≡ some next_client)
    × (filter (λ a. a.ticket == 8) after.assignments
        ≡ filter (λ a. a.ticket == 8) working.assignments)
    × (filter (λ e. e.ticket_id == 8) after.events ≡ filter (λ e. e.ticket_id == 8) working.events)
purge_expired-keeps_example =
    purge_expired-keeps short_memory next_week working next_client working-IsLinked refl still_waits

purges :
    (purge_expired short_memory next_week (office (ticket_of 5 completed ∷ []) [])).1.tickets ≡ []
unfolding purge_expired expired_tickets delete_tickets is_expired
purges = refl
