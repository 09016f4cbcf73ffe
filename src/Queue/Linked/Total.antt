-- ===== src/Queue/Linked/Total.antt =====
-- On linked tables the database never refuses the assignment that a dispatch inserts, so the loop
-- over the free employees comes to its end.
use ticket_system.Base.{
  refl, ℕ, ◌≡◌, ◌||◌, Bool, true, false, List, [], ◌∷◌, Option, none, some, arith, find, any, row,
  Option-cases, Bool-cases, inl, inr,
}
use ticket_system.Domain.{
  live_queue_statuses, includes, Ticket, Employee, ClientCountry, Desk, Assignment, ticket_keyed,
  employee_keyed,
}
use ticket_system.Queue.Store.{
  ◌>>=◌, Db, Env, Result, ok, err, is_ok, insert_assignment, is_active_on, is_active_of,
}
use ticket_system.Queue.Assign.{
  Loaded, load, is_available, hand_out, assign_picked, assign_at_desk, assign_free, assign_next,
  work_country, pick_ticket, active_desk_assignment,
}
use ticket_system.Queue.Linked.{IsLinked, in_progress, free_of_waiting}
use ticket_system.Queue.Linked.Hand.{live_not_held, pick_ticket_waits}
use ticket_system.Queue.Linked.Timer.{dispatch_one-IsLinked}
use ticket_system.Queue.Sweep.{dispatch_one, dispatch_all, next_round}
use ticket_system.Queue.Holds.{Holds}

any-none :
    (p q : Assignment → Bool) (rows : List Assignment)
    → find p rows ≡ none
    → find q rows ≡ none
    → any (λ a. p a || q a) rows ≡ false
any-none p q [] h k = refl
any-none p q (a ∷ rows) h k = ground (arith, any-none p q rows)

hand_out-is_ok :
    (env : Env) (t : Ticket) (e : Employee) (desk : ℕ) (db : Db)
    → IsLinked db
    → row t.id db.tickets ≡ some t
    → in_progress t.status ≡ false
    → find (is_active_of e.id) db.assignments ≡ none
    → is_ok (hand_out env t e desk db) ≡ true
unfolding hand_out insert_assignment
hand_out-is_ok env t e desk db v found waits free =
    rw
      (any-none (is_active_on t.id) (is_active_of e.id) db.assignments
        (free_of_waiting v t found waits) free)
      refl

assign_picked-is_ok :
    (env : Env) (e : Employee) (desk : ℕ) (o : Option Ticket) (db : Db)
    → IsLinked db
    → find (is_active_of e.id) db.assignments ≡ none
    → ((t : Ticket)
        → o ≡ some t
        → (row t.id db.tickets ≡ some t) × (includes live_queue_statuses t.status ≡ true))
    → is_ok (assign_picked env e desk o db) ≡ true
unfolding assign_picked
assign_picked-is_ok env e desk none db v free waits = refl
assign_picked-is_ok env e desk (some t) db v free waits =
    let (r, w) = waits t refl in hand_out-is_ok env t e desk db v r (live_not_held t.status w) free

assign_free-is_ok :
    (env : Env) (e : Loaded) (c : Option ClientCountry) (d : Option Desk) (db : Db)
    → IsLinked db
    → find (is_active_of e.employee.id) db.assignments ≡ none
    → is_ok (assign_free env e c d db) ≡ true
unfolding assign_free assign_at_desk
assign_free-is_ok env e (some c) (some d) db v free =
    elim (Option-cases (active_desk_assignment db d.id)) [
      | inl idle ↦
          rw (idle, assign_at_desk)
            (assign_picked-is_ok env e.employee d.id (pick_ticket env e c d.id db.tickets) db v free
              λ t h. pick_ticket_waits env e c d.id db t v h)
      | inr (_, taken) ↦ rw (taken, assign_at_desk) refl
    ]
assign_free-is_ok env e (some c) none db v free = refl
assign_free-is_ok env e none d db v free = refl

-- On linked tables `assignNext` throws nothing: the unique indexes never refuse its assignment.
pub assign_next-is_ok :
    (env : Env) (e : Loaded) (db : Db) → IsLinked db → is_ok (assign_next env e db) ≡ true
unfolding assign_next
assign_next-is_ok env e db v =
    elim (Option-cases (find (is_active_of e.employee.id) db.assignments)) [
      | inl free ↦
          rw (free, assign_next) (assign_free-is_ok env e (work_country e) e.desk db v free)
      | inr (_, has) ↦ rw (has, assign_next) refl
    ]

dispatch_one-is_ok :
    (env : Env) (o : Option Employee) (db : Db) → IsLinked db → is_ok (dispatch_one env o db) ≡ true
unfolding dispatch_one
dispatch_one-is_ok env none db v = refl
dispatch_one-is_ok env (some e) db v = elim (Bool-cases (is_available e.status)) [
  | inl free ↦
      rw free (then_ok (assign_next env (load db e) db) (assign_next-is_ok env (load db e) db v))
  | inr other ↦ rw other refl
]
  where
    then_ok :
        (m : Result (Option Assignment × Db)) → is_ok m ≡ true → is_ok (m >>= (λ r. ok r.1)) ≡ true
    then_ok (ok r) h = refl
    then_ok (err x) h = h

next_round-is_ok :
    (db : Db) (m : Result Db) (rest : Db → Db × Result (Unit {0}))
    → Holds IsLinked m
    → is_ok m ≡ true
    → ((db' : Db) → IsLinked db' → is_ok (rest db').1 ≡ true)
    → is_ok (next_round db m rest).1 ≡ true
next_round-is_ok db (ok db') rest v h k = k db' v
next_round-is_ok db (err x) rest v h k = h

-- On linked tables the loop of `dispatchAvailable` over any free employees comes to its end: no
-- round of it throws.
pub dispatch_all-is_ok :
    (env : Env) (es : List Employee) (db : Db)
    → IsLinked db
    → is_ok (dispatch_all env es db).1 ≡ true
unfolding dispatch_all
dispatch_all-is_ok env [] db v = refl
dispatch_all-is_ok env (e ∷ es) db v =
    next_round-is_ok db (dispatch_one env (row e.id db.employees) db) (dispatch_all env es)
      (dispatch_one-IsLinked env (row e.id db.employees) db v)
      (dispatch_one-is_ok env (row e.id db.employees) db v) λ db' w. dispatch_all-is_ok env es db' w
