-- ===== src/Queue/Linked/Client.antt =====
-- What clients do, and what is done to tickets that no manager has, keeps the tables linked.
use ticket_system.Base.{
  find-passes, inr, inl, Option-cases, row-put_self, true, ◌≡◌, ◌==◌, refl, arith, find, ℕ, Option,
  row, some,
}
use ticket_system.Domain.{
  available, status_eq, TicketStatus, Ticket, booked, checked_in, cancelled, ticket_keyed,
  assignment_keyed,
}
use ticket_system.Queue.Store.{save_ticket, bad_request, conflict, not_found, Env, audit, event, Db}
use ticket_system.Queue.Linked.{
  is_active_on, IsLinked, finish, ticket_row, assignment_row, keep_ticket, not_held,
}
use ticket_system.Queue.Holds.{Holds, require-Holds, guard-Holds}
use ticket_system.Queue.Manager.{
  check_in_by_hash, mark_ticket_no_show, cancel_ticket_by_hash, release_cancelled,
}
use ticket_system.Rules.{can_cancel, check_in_window_expired, can_check_in}
use ticket_system.Queue.Linked.Hand.{assign_specific_ticket-IsLinked}
use ticket_system.Queue.Linked.Release.{set_employee_status_of-IsLinked}

can_check_in-booked :
    (s : TicketStatus) (at : Option ℕ) (d now : ℕ) → can_check_in s at d now ≡ true → s ≡ booked
unfolding can_check_in
can_check_in-booked s at d now h = ground arith

pub check_in_by_hash-IsLinked :
    (env : Env) (hash : ℕ) (db : Db)
    → IsLinked db
    → Holds (λ r. IsLinked r.1) (check_in_by_hash env hash db)
unfolding check_in_by_hash event
check_in_by_hash-IsLinked env hash db v =
    require-Holds (λ r. IsLinked r.1) (find (λ t. t.access_token_hash == hash) db.tickets) not_found
      _
      λ t e.
        guard-Holds (λ r. IsLinked r.1)
          (can_check_in t.status t.scheduled_at t.duration_minutes env.now) bad_request _
          λ g.
            let there = ticket_row v _ t e in
            assign_specific_ticket-IsLinked env
              (record t { status = checked_in; priority = 1; checked_in_at = some env.now }) _
              (keep_ticket v t _ there refl refl
                (λ _.
                  rw (can_check_in-booked t.status t.scheduled_at t.duration_minutes env.now g)
                    refl)
                (rw (can_check_in-booked t.status t.scheduled_at t.duration_minutes env.now g)
                  refl))
              (row-put_self t _ db.tickets there refl)

pub mark_ticket_no_show-IsLinked :
    (env : Env) (subject id : ℕ) (db : Db)
    → IsLinked db
    → Holds (λ r. IsLinked r.1) (mark_ticket_no_show env subject id db)
unfolding mark_ticket_no_show event audit
mark_ticket_no_show-IsLinked env subject id db v =
    require-Holds (λ r. IsLinked r.1) (row id db.tickets) not_found _
      λ t e.
        guard-Holds (λ r. IsLinked r.1) (status_eq t.status booked) conflict _
          λ b.
            guard-Holds (λ r. IsLinked r.1)
              (check_in_window_expired t.scheduled_at t.duration_minutes env.now) bad_request _
              λ g. keep_ticket v t _ (ticket_row v _ t e) refl refl (λ h. cc) (ground arith)

release_cancelled-IsLinked :
    (t : Ticket) (db : Db)
    → IsLinked db
    → row t.id db.tickets ≡ some t
    → let db' = save_ticket (record t { status = cancelled }) db in
      IsLinked (release_cancelled (find (is_active_on t.id) db'.assignments) db')
unfolding release_cancelled
release_cancelled-IsLinked t db v there =
    elim (Option-cases (find (is_active_on t.id) db.assignments)) [
      | inl free ↦
          rw (free, release_cancelled)
            (keep_ticket v t _ there refl refl (λ h. cc) (rw (not_held v t there free) refl))
      | inr (a, has) ↦
          rw (has, release_cancelled)
            (set_employee_status_of-IsLinked a.employee available _ (
              finish v t _ a _ there refl refl refl (assignment_row v _ a has)
                (find-passes (is_active_on t.id) db.assignments a has) refl refl))
    ]

pub cancel_ticket_by_hash-IsLinked :
    (env : Env) (hash : ℕ) (db : Db)
    → IsLinked db
    → Holds (λ r. IsLinked r.1) (cancel_ticket_by_hash env hash db)
unfolding cancel_ticket_by_hash event
cancel_ticket_by_hash-IsLinked env hash db v =
    require-Holds (λ r. IsLinked r.1) (find (λ t. t.access_token_hash == hash) db.tickets) not_found
      _
      λ t e.
        guard-Holds (λ r. IsLinked r.1) (can_cancel t.status) conflict _
          λ g. release_cancelled-IsLinked t db v (ticket_row v _ t e)
