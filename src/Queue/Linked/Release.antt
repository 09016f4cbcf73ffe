-- ===== src/Queue/Linked/Release.antt =====
-- Letting go of a client keeps the tables linked.
use ticket_system.Base.{
  find, Option, if◌then◌else◌, ◌==◌, find-passes, not, row, ℕ, ◌≡◌, refl, true, false, none, some,
  arith, Bool-cases, Option-cases, inl, inr,
}
use ticket_system.Domain.{
  paused, TicketStatus, EmployeeStatus, Ticket, Assignment, Employee, ticket_keyed, employee_keyed,
  assignment_keyed,
}
use ticket_system.Rules.{can_release_on_break, blocks_break}
use ticket_system.Queue.Store.{
  save_assignment, ok, event, Db, Env, set_employee_status_of, is_active_on, is_active_of,
  not_found, conflict,
}
use ticket_system.Queue.Linked.{
  in_progress, IsLinked, finish, ticket_row, assignment_row, held_in_progress,
}
use ticket_system.Queue.Holds.{Holds, require-Holds, guard-Holds, bind-Holds}
use ticket_system.Queue.Staff.{close}
use ticket_system.Queue.Desks.{
  leave_desk, release_assignment_for_break, release_found,
  release_employee_assignments_for_desk_change, detach_employee_desk,
}

-- No employee takes part in the links.
pub set_employee_status_of-IsLinked :
    (e : ℕ) (s : EmployeeStatus) (db : Db) → IsLinked db → IsLinked (set_employee_status_of e s db)
set_employee_status_of-IsLinked e s db v = elim (Option-cases (row e db.employees)) [
  | inl out ↦ rw (out, set_employee_status_of) v
  | inr (_, found) ↦ rw (found, set_employee_status_of) v
]

-- Where neither test of the break passes, no manager has the client.
idle_status :
    (s : TicketStatus)
    → blocks_break s ≡ false
    → can_release_on_break s ≡ false
    → in_progress s ≡ false
unfolding blocks_break can_release_on_break
idle_status s h k = ground arith

module _ (env : Env) (a : Assignment) (db : Db) (v : IsLinked db)
    (found : row a.id db.assignments ≡ some a) (act : a.active ≡ true) where
  on_ticket : (t : Ticket) → row a.ticket db.tickets ≡ some t → is_active_on t.id a ≡ true
  on_ticket t e = ground (arith, find-passes (λ (u : Ticket). u.id == a.ticket) db.tickets t e)

  pub release_assignment_for_break-IsLinked :
      (subject : ℕ) (reason : EmployeeStatus)
      → Holds IsLinked (release_assignment_for_break env a subject reason db)
  unfolding release_assignment_for_break event
  release_assignment_for_break-IsLinked subject reason =
      require-Holds IsLinked (row a.ticket db.tickets) not_found _ λ t e.
        guard-Holds IsLinked (not (blocks_break t.status)) conflict _ λ g.
          let there = ticket_row v _ t e in
          elim (Bool-cases (can_release_on_break t.status)) [
            | inl r ↦ rw r (finish v t _ a _ there refl refl refl found (on_ticket t e) refl refl)
            | inr r ↦ cc (
              held_in_progress v t a there found (on_ticket t e),
              idle_status t.status (ground arith) r,
            )
          ]

  release_or_close-IsLinked :
      (subject : ℕ) (t : Ticket)
      → row a.ticket db.tickets ≡ some t
      → blocks_break t.status ≡ false
      → Holds IsLinked (
          if can_release_on_break t.status
          then release_assignment_for_break env a subject paused db
          else ok (save_assignment (close env a) db))
  release_or_close-IsLinked subject t e b = elim (Bool-cases (can_release_on_break t.status)) [
    | inl r ↦ rw r (release_assignment_for_break-IsLinked subject paused)
    | inr r ↦ cc (
      held_in_progress v t a (ticket_row v _ t e) found (on_ticket t e),
      idle_status t.status b r,
    )
  ]

  pub release_found-IsLinked :
      (next : EmployeeStatus) (employee_id subject : ℕ)
      → Holds IsLinked (release_found env next employee_id subject (some a) db)
  unfolding release_found
  release_found-IsLinked next employee_id subject =
      require-Holds IsLinked (row a.ticket db.tickets) not_found _ λ t e.
        guard-Holds IsLinked (not (blocks_break t.status)) conflict _ λ g.
          bind-Holds IsLinked IsLinked
            (if can_release_on_break t.status
              then release_assignment_for_break env a subject paused db
              else ok (save_assignment (close env a) db))
            _ (release_or_close-IsLinked subject t e (ground arith))
            λ db' w. set_employee_status_of-IsLinked employee_id next db' w

-- The search for the employee's assignment included.
pub release_of-IsLinked :
    (env : Env) (next : EmployeeStatus) (employee_id subject : ℕ) (db : Db)
    → IsLinked db
    → Holds IsLinked (
        release_found env next employee_id subject
          (find (is_active_of employee_id) db.assignments)
          db)
unfolding release_found
release_of-IsLinked env next employee_id subject db v =
    elim (Option-cases (find (is_active_of employee_id) db.assignments)) [
      | inl out ↦ rw (out, release_found) v
      | inr (a, e) ↦ rw e (
          release_found-IsLinked env a db v (assignment_row v _ a e)
            (ground (arith, find-passes (is_active_of employee_id) db.assignments a e)) next
            employee_id subject)
    ]

pub leave_desk-IsLinked : (o : Option Employee) (db : Db) → IsLinked db → IsLinked (leave_desk o db)
leave_desk-IsLinked none db v = v
leave_desk-IsLinked (some e) db v = v

pub detach_employee_desk-IsLinked :
    (env : Env) (employee_id subject : ℕ) (db : Db)
    → IsLinked db
    → Holds IsLinked (detach_employee_desk env employee_id subject db)
unfolding detach_employee_desk release_employee_assignments_for_desk_change
detach_employee_desk-IsLinked env employee_id subject db v =
    bind-Holds IsLinked IsLinked
      (release_found env paused employee_id subject (find (is_active_of employee_id) db.assignments)
        db)
      _ (release_of-IsLinked env paused employee_id subject db v)
      λ db' w. leave_desk-IsLinked (row employee_id db'.employees) db' w
