-- ===== src/Queue/Linked/Timer.antt =====
-- The loops of `dispatchAvailable` keep the tables linked.
use ticket_system.Base.{
  ◌&&◌, find-passes, inr, inl, Option-cases, Bool-cases, filter, true, ◌≡◌, ◌==◌, arith, find, ℕ,
  Option, List, [], ◌∷◌, none, row, some,
}
use ticket_system.Domain.{Assignment, Employee, ticket_keyed, assignment_keyed, employee_keyed}
use ticket_system.Queue.Store.{Env, Db, Result, ok, err}
use ticket_system.Queue.Linked.{IsLinked, assignment_row}
use ticket_system.Queue.Holds.{Holds, bind-Holds}
use ticket_system.Queue.Assign.{is_available, load, assign_next}
use ticket_system.Queue.Sweep.{
  is_stale, next_round, recover_for, recover, recover_all, recover_break_assignments, dispatch_one,
  dispatch_all, dispatch_rest, dispatch_recovered, dispatch_available,
}
use ticket_system.Queue.Desks.{is_away}
use ticket_system.Queue.Linked.Hand.{assign_next-IsLinked}
use ticket_system.Queue.Linked.Release.{release_assignment_for_break-IsLinked}
use ticket_system.Queue.Linked.Sweep.{expire_calls-IsLinked}

recover_for-IsLinked :
    (env : Env) (a : Assignment) (o : Option Employee) (db : Db)
    → IsLinked db
    → row a.id db.assignments ≡ some a
    → a.active ≡ true
    → Holds IsLinked (recover_for env a o db)
unfolding recover_for
recover_for-IsLinked env a none db v found act = v
recover_for-IsLinked env a (some e) db v found act = elim (Bool-cases (is_away e.status)) [
  | inl away ↦
      rw away (release_assignment_for_break-IsLinked env a db v found act e.oidc_subject e.status)
  | inr back ↦ rw back v
]

recover-IsLinked :
    (env : Env) (id : ℕ) (db : Db)
    → IsLinked db
    → Holds IsLinked (recover env (find (λ b. b.id == id && b.active) db.assignments) db)
unfolding recover
recover-IsLinked env id db v =
    elim (Option-cases (find (λ b. b.id == id && b.active) db.assignments)) [
      | inl out ↦ rw (out, recover) v
      | inr (a, has) ↦ rw has (
          recover_for-IsLinked env a (row a.employee db.employees) db v (assignment_row v _ a has)
            (ground (arith, find-passes (λ b. b.id == id && b.active) db.assignments a has)))
    ]

-- One round of a loop that stops at an exception.
next_round-IsLinked :
    (db : Db) (m : Result Db) (rest : Db → Db × Result (Unit {0}))
    → IsLinked db
    → Holds IsLinked m
    → ((db' : Db) → IsLinked db' → IsLinked (rest db').0)
    → IsLinked (next_round db m rest).0
next_round-IsLinked db (ok db') rest v h k = k db' h
next_round-IsLinked db (err e) rest v h k = v

recover_all-IsLinked :
    (env : Env) (rest : List Assignment) (db : Db)
    → IsLinked db
    → IsLinked (recover_all env rest db).0
unfolding recover_all
recover_all-IsLinked env [] db v = v
recover_all-IsLinked env (a ∷ rest) db v =
    next_round-IsLinked db (recover env (find (λ b. b.id == a.id && b.active) db.assignments) db)
      (recover_all env rest) v (recover-IsLinked env a.id db v)
      λ db' w. recover_all-IsLinked env rest db' w

pub dispatch_one-IsLinked :
    (env : Env) (o : Option Employee) (db : Db)
    → IsLinked db
    → Holds IsLinked (dispatch_one env o db)
unfolding dispatch_one
dispatch_one-IsLinked env none db v = v
dispatch_one-IsLinked env (some e) db v = elim (Bool-cases (is_available e.status)) [
  | inl free ↦ rw free (
      bind-Holds IsLinked (λ r. IsLinked r.1) (assign_next env (load db e) db) _
        (assign_next-IsLinked env (load db e) db v) λ r w. w)
  | inr not_free ↦ rw not_free v
]

dispatch_all-IsLinked :
    (env : Env) (es : List Employee) (db : Db) → IsLinked db → IsLinked (dispatch_all env es db).0
unfolding dispatch_all
dispatch_all-IsLinked env [] db v = v
dispatch_all-IsLinked env (e ∷ es) db v =
    next_round-IsLinked db (dispatch_one env (row e.id db.employees) db) (dispatch_all env es) v
      (dispatch_one-IsLinked env (row e.id db.employees) db v)
      λ db' w. dispatch_all-IsLinked env es db' w

dispatch_rest-IsLinked :
    (env : Env) (r : Db × Result (Unit {0})) → IsLinked r.0 → IsLinked (dispatch_rest env r).0
unfolding dispatch_rest
dispatch_rest-IsLinked env (db, ok r) v = expire_calls-IsLinked env db v
dispatch_rest-IsLinked env (db, err x) v = v

dispatch_recovered-IsLinked :
    (env : Env) (r : Db × Result (Unit {0})) → IsLinked r.0 → IsLinked (dispatch_recovered env r).0
unfolding dispatch_recovered
dispatch_recovered-IsLinked env (db, err x) v = v
dispatch_recovered-IsLinked env (db, ok r) v =
    dispatch_rest-IsLinked env _ (dispatch_all-IsLinked env _ db v)

pub dispatch_available-IsLinked :
    (env : Env) (db : Db) → IsLinked db → IsLinked (dispatch_available env db).0
unfolding dispatch_available recover_break_assignments
dispatch_available-IsLinked env db v =
    dispatch_recovered-IsLinked env (recover_break_assignments env db)
      (recover_all-IsLinked env (filter (is_stale db) db.assignments) db v)
