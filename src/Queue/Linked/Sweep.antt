-- ===== src/Queue/Linked/Sweep.antt =====
-- The two sweeps of tickets keep the tables linked.
use ticket_system.Base.{
  leb, Bool, ◌&&◌, find-passes, inr, inl, Option-cases, Bool-cases, filter, count, true, false, ◌≡◌,
  ◌≤◌, ◌==◌, refl, arith, find, ℕ, List, [], ◌∷◌, none, row, some,
}
use ticket_system.Domain.{
  available, status_eq, Ticket, Assignment, called, no_show, ticket_keyed, assignment_keyed,
  employee_keyed,
}
use ticket_system.Queue.Store.{save_ticket, Env, audit, event, Db, is_active_on}
use ticket_system.Queue.Linked.{
  place, IsLinked, in_progress, finish, ticket_row, assignment_row, keep_ticket, not_held,
}
use ticket_system.Queue.Sweep.{
  is_unanswered, take, close_all, miss, miss_all, mark_missed_appointments, after_call,
  expire_ticket, expire_call, expire_all, expire_calls, is_due,
}
use ticket_system.Queue.Staff.{close}
use ticket_system.Queue.Linked.Release.{set_employee_status_of-IsLinked}

filter-none : {A : Type 0} → (p : A → Bool) (xs : List A) → find p xs ≡ none → filter p xs ≡ []
filter-none p [] h = refl
filter-none p (x ∷ xs) h = ground (arith, filter-none p xs)

count-none : {A : Type 0} → (p : A → Bool) (xs : List A) → count p xs ≡ 0 → filter p xs ≡ []
count-none p [] h = refl
count-none p (x ∷ xs) h = ground (arith, count-none p xs)

filter_one :
    {A : Type 0}
    → (p : A → Bool) (xs : List A) (a : A) → count p xs ≤ 1
    → find p xs ≡ some a
    → filter p xs ≡ a ∷ []
filter_one p [] a c h = cc
filter_one p (x ∷ xs) a c h = ground (arith, filter_one p xs a, count-none p xs)

module _ (env : Env) (t : Ticket) (db : Db) (v : IsLinked db)
    (there : row t.id db.tickets ≡ some t) where
  one_active :
      (a : Assignment)
      → find (is_active_on t.id) db.assignments ≡ some a
      → filter (is_active_on t.id) db.assignments ≡ a ∷ []
  one_active a has =
      filter_one (is_active_on t.id) db.assignments a (ground (arith, v.held t.id)) has

  close_all-IsLinked : IsLinked (
      close_all env
        (filter (is_active_on t.id) db.assignments)
        (save_ticket (record t { status = no_show }) db))
  unfolding close_all close
  close_all-IsLinked = elim (Option-cases (find (is_active_on t.id) db.assignments)) [
    | inl free ↦
        rw (filter-none (is_active_on t.id) db.assignments free)
          (keep_ticket v t _ there refl refl (λ h. cc) (rw (not_held v t there free) refl))
    | inr (a, has) ↦ rw (one_active a has) (
        set_employee_status_of-IsLinked a.employee available _ (
          finish v t _ a _ there refl refl refl (assignment_row v _ a has)
            (find-passes (is_active_on t.id) db.assignments a has) refl refl))
  ]

  miss_found-IsLinked : IsLinked (miss env (some t) db)
  unfolding miss event audit
  miss_found-IsLinked = elim (Bool-cases (is_due env.now t)) [
    | inl due ↦ rw due close_all-IsLinked
    | inr early ↦ rw early v
  ]

miss-IsLinked :
    (env : Env) (id : ℕ) (db : Db) → IsLinked db → IsLinked (miss env (row id db.tickets) db)
unfolding miss
miss-IsLinked env id db v = elim (Option-cases (row id db.tickets)) [
  | inl out ↦ rw (out, miss) v
  | inr (t, found) ↦ rw found (miss_found-IsLinked env t db v (ticket_row v _ t found))
]

miss_all-IsLinked :
    (env : Env) (ts : List Ticket) (db : Db) → IsLinked db → IsLinked (miss_all env ts db)
unfolding miss_all
miss_all-IsLinked env [] db v = v
miss_all-IsLinked env (t ∷ ts) db v = miss_all-IsLinked env ts _ (miss-IsLinked env t.id db v)

pub mark_missed_appointments-IsLinked :
    (env : Env) (db : Db) → IsLinked db → IsLinked (mark_missed_appointments env db)
unfolding mark_missed_appointments
mark_missed_appointments-IsLinked env db v =
    miss_all-IsLinked env (take 100 (filter (is_due env.now) db.tickets)) db v

after_call-in_progress : (t : Ticket) → in_progress (after_call t).status ≡ false
after_call-in_progress t = ground arith

after_call-place : (t : Ticket) → place (after_call t) ≡ place t
after_call-place t = elim (Bool-cases (leb 2 t.call_attempts)) [
  | inl a ↦ rw a refl
  | inr b ↦ rw b refl
]

after_call-id : (t : Ticket) → (after_call t).id ≡ t.id
after_call-id t = ground arith

expire_ticket-IsLinked :
    (a : Assignment) (t : Ticket) (db : Db)
    → IsLinked db
    → row a.id db.assignments ≡ some a
    → row t.id db.tickets ≡ some t
    → is_active_on t.id a ≡ true
    → IsLinked (expire_ticket a (some t) db)
unfolding expire_ticket event
expire_ticket-IsLinked a t db v found there on = elim (Bool-cases (status_eq t.status called)) [
  | inl rings ↦ rw rings (
      set_employee_status_of-IsLinked a.employee available _ (
        finish v t (after_call t) a _ there (after_call-id t) (after_call-place t)
          (after_call-in_progress t) found on refl refl))
  | inr other ↦ rw other v
]

on_ticket :
    (id : ℕ) (a : Assignment) (t : Ticket) (db : Db)
    → find (λ b. b.id == id && b.active) db.assignments ≡ some a
    → row a.ticket db.tickets ≡ some t
    → is_active_on t.id a ≡ true
on_ticket id a t db has there = ground (
  arith,
  find-passes (λ b. b.id == id && b.active) db.assignments a has,
  find-passes (λ (u : Ticket). u.id == a.ticket) db.tickets t there,
)

expire_call-IsLinked :
    (id : ℕ) (db : Db)
    → IsLinked db
    → IsLinked (expire_call (find (λ b. b.id == id && b.active) db.assignments) db)
unfolding expire_call
expire_call-IsLinked id db v =
    elim (Option-cases (find (λ b. b.id == id && b.active) db.assignments)) [
      | inl out ↦ rw (out, expire_call) v
      | inr (a, has) ↦ rw has (elim (Option-cases (row a.ticket db.tickets)) [
        | inl lost ↦ rw (lost, expire_ticket) v
        | inr (t, there) ↦ rw there (
            expire_ticket-IsLinked a t db v (assignment_row v _ a has) (ticket_row v _ t there)
              (on_ticket id a t db has there))
      ])
    ]

expire_all-IsLinked :
    (rest : List Assignment) (db : Db) → IsLinked db → IsLinked (expire_all rest db)
unfolding expire_all
expire_all-IsLinked [] db v = v
expire_all-IsLinked (a ∷ rest) db v = expire_all-IsLinked rest _ (expire_call-IsLinked a.id db v)

pub expire_calls-IsLinked : (env : Env) (db : Db) → IsLinked db → IsLinked (expire_calls env db)
unfolding expire_calls
expire_calls-IsLinked env db v =
    expire_all-IsLinked (filter (is_unanswered env db) db.assignments) db v
