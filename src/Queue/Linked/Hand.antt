-- ===== src/Queue/Linked/Hand.antt =====
-- Handing a ticket to a manager keeps the tables linked.
use ticket_system.Base.{
  none, some, Option, In-row, subst, or_else, is_id, ◌&&◌, Option-cases, In-filter, arith, find,
  filter, true, Bool, ℕ, ◌≡◌, refl, false, ◌||◌, some, row, any, any-false-find, Bool-cases, inl,
  inr,
}
use ticket_system.Domain.{
  assigned, Desk, ClientCountry, live_queue_statuses, includes, TicketStatus, Employee, Ticket,
  ticket_keyed,
}
use ticket_system.Queue.Store.{Db, Env, insert_assignment, event, is_active_on, is_active_of}
use ticket_system.Queue.Linked.{holding, in_progress, IsLinked, begin}
use ticket_system.Queue.Holds.{Holds}
use ticket_system.Queue.Assign.{
  load, assign_match, order_by, active_desk_assignment, match_employee, assign_free, assign_matched,
  work_country, assign_at_desk, assign_picked, assign_specific_ticket, is_available, Loaded,
  is_candidate, pick_ticket, assign_next, hand_out,
}
use ticket_system.Dispatch.{dispatched_before, limit_one}
use ticket_system.Dispatch.Order.{limit_one-In}

-- A ticket that waits in the live queue is with no manager.
pub live_not_held :
    (s : TicketStatus) → includes live_queue_statuses s ≡ true → in_progress s ≡ false
live_not_held s h = ground arith

live-holding : (s : TicketStatus) → includes live_queue_statuses s ≡ true → holding s ≡ true
live-holding s h = ground arith

pub hand_out-IsLinked :
    (env : Env) (t : Ticket) (e : Employee) (desk : ℕ) (db : Db)
    → IsLinked db
    → row t.id db.tickets ≡ some t
    → includes live_queue_statuses t.status ≡ true
    → Holds (λ r. IsLinked r.1) (hand_out env t e desk db)
unfolding hand_out insert_assignment event
hand_out-IsLinked env t e desk db v found live =
    elim (Bool-cases (any (λ b. is_active_on t.id b || is_active_of e.id b) db.assignments)) [
      | inl twice ↦ rw twice tt
      | inr fresh ↦ rw fresh (
          begin v t (record t { status = assigned }) _ found refl refl (live-holding t.status live)
            (live_not_held t.status live) refl refl refl refl
            (any-false-find (is_active_on t.id) (is_active_of e.id) db.assignments fresh))
    ]

-- A candidate that a query returns is the row under its key, and waits.
pub picked_row :
    (q : Ticket → Bool) (db : Db) (t : Ticket)
    → IsLinked db
    → limit_one dispatched_before (filter q db.tickets) ≡ some t
    → (row t.id db.tickets ≡ some t) × (q t ≡ true)
picked_row q db t v h =
    let (i, k) = In-filter q db.tickets t (limit_one-In (filter q db.tickets) t h) in
    (In-row t db.tickets (v.one_ticket t.id) i, k)

pub pick_ticket_waits :
    (env : Env) (e : Loaded) (c : ClientCountry) (desk : ℕ) (db : Db) (t : Ticket)
    → IsLinked db
    → pick_ticket env e c desk db.tickets ≡ some t
    → (row t.id db.tickets ≡ some t) × (includes live_queue_statuses t.status ≡ true)
unfolding pick_ticket is_candidate
pick_ticket_waits env e c desk db t v h =
    elim (Option-cases (
      limit_one dispatched_before
        (filter (λ u. is_candidate env e c u && is_id u.reserved_desk desk) db.tickets))) [
          | inl none_reserved ↦
              let (r, k) =
                picked_row (is_candidate env e c) db t v (rw (none_reserved, or_else) at h) in
              (r, ground arith)
          | inr (u, reserved_first) ↦
              let same : u ≡ t = cc (rw reserved_first at h) in
              let (r, k) =
                picked_row (λ u. is_candidate env e c u && is_id u.reserved_desk desk) db u v
                  reserved_first in
              subst
                (λ w.
                  (row w.id db.tickets ≡ some w) × (includes live_queue_statuses w.status ≡ true))
                same (r, ground arith)
        ]

assign_picked-IsLinked :
    (env : Env) (e : Employee) (desk : ℕ) (o : Option Ticket) (db : Db)
    → IsLinked db
    → ((t : Ticket)
        → o ≡ some t
        → (row t.id db.tickets ≡ some t) × (includes live_queue_statuses t.status ≡ true))
    → Holds (λ r. IsLinked r.1) (assign_picked env e desk o db)
unfolding assign_picked
assign_picked-IsLinked env e desk none db v waits = v
assign_picked-IsLinked env e desk (some t) db v waits =
    let (r, w) = waits t refl in hand_out-IsLinked env t e desk db v r w

assign_at_desk-IsLinked :
    (env : Env) (e : Loaded) (c : ClientCountry) (d : Desk) (db : Db)
    → IsLinked db
    → Holds (λ r. IsLinked r.1) (assign_at_desk env e c d db)
unfolding assign_at_desk
assign_at_desk-IsLinked env e c d db v = elim (Option-cases (active_desk_assignment db d.id)) [
  | inl free ↦
      rw (free, assign_at_desk)
        (assign_picked-IsLinked env e.employee d.id (pick_ticket env e c d.id db.tickets) db v
          λ t h. pick_ticket_waits env e c d.id db t v h)
  | inr (_, taken) ↦ rw (taken, assign_at_desk) v
]

assign_free-IsLinked :
    (env : Env) (e : Loaded) (c : Option ClientCountry) (d : Option Desk) (db : Db)
    → IsLinked db
    → Holds (λ r. IsLinked r.1) (assign_free env e c d db)
unfolding assign_free
assign_free-IsLinked env e (some c) (some d) db v = assign_at_desk-IsLinked env e c d db v
assign_free-IsLinked env e (some c) none db v = v
assign_free-IsLinked env e none d db v = v

pub assign_next-IsLinked :
    (env : Env) (e : Loaded) (db : Db)
    → IsLinked db
    → Holds (λ r. IsLinked r.1) (assign_next env e db)
unfolding assign_next
assign_next-IsLinked env e db v =
    elim (Option-cases (find (is_active_of e.employee.id) db.assignments)) [
      | inl free ↦ rw (free, assign_next) (assign_free-IsLinked env e (work_country e) e.desk db v)
      | inr (_, has) ↦ rw (has, assign_next) v
    ]

assign_matched-IsLinked :
    (env : Env) (t : Ticket) (o : Option Employee) (db : Db)
    → IsLinked db
    → row t.id db.tickets ≡ some t
    → includes live_queue_statuses t.status ≡ true
    → Holds (λ r. IsLinked r.1) (assign_matched env t o db)
unfolding assign_matched
assign_matched-IsLinked env t none db v r w = v
assign_matched-IsLinked env t (some e) db v r w = at_desk (load db e).desk
  where
    at_desk : (d : Option Desk) → Holds (λ r. IsLinked r.1) (assign_match env t e d db)
    at_desk none = v
    at_desk (some d) = elim (Option-cases (active_desk_assignment db d.id)) [
      | inl free ↦ rw (free, assign_match) (hand_out-IsLinked env t e d.id db v r w)
      | inr (_, taken) ↦ rw (taken, assign_match) v
    ]

pub assign_specific_ticket-IsLinked :
    (env : Env) (t : Ticket) (db : Db)
    → IsLinked db
    → row t.id db.tickets ≡ some t
    → Holds (λ r. IsLinked r.1) (assign_specific_ticket env t db)
unfolding assign_specific_ticket
assign_specific_ticket-IsLinked env t db v r =
    elim (Bool-cases (includes live_queue_statuses t.status)) [
      | inl live ↦ rw live (
          assign_matched-IsLinked env t
            (match_employee db t
              (order_by env.updated_at (filter (λ e. is_available e.status) db.employees)))
            db v r live)
      | inr other ↦ rw other v
    ]
