-- ===== src/Queue/Desks/Alone.antt =====
-- A desk that is given to an employee is the desk of that employee only.
use ticket_system.Base.{
  ℕ, ◌≡◌, refl, Bool, true, false, not, ◌&&◌, List, Option, none, some, arith, ◌==◌, find, row,
  row-put, Option-cases, Bool-cases, inl, inr, if◌then◌else◌, is_id, find-passes, ◌∙◌, ap, subst,
  sym,
}
use ticket_system.Domain.{
  Employee, Assignment, EmployeeStatus, ticket_keyed, employee_keyed, paused,
}
use ticket_system.Rules.{can_release_on_break, blocks_break}
use ticket_system.Booking.{desk_of}
use ticket_system.Queue.Store.{
  Db, Env, ok, event, save_assignment, save_employee, set_employee_status_of, is_active_of,
  not_found, conflict,
}
use ticket_system.Queue.Staff.{close}
use ticket_system.Queue.Holds.{Holds, require-Holds, guard-Holds, bind-Holds}
use ticket_system.Queue.Desks.{
  release_assignment_for_break, release_found, release_employee_assignments_for_desk_change,
  leave_desk, detach_employee_desk,
}

-- Employee `i` has the desk `d`.
abbrev pub sits : ℕ → ℕ → Db → Bool
sits i d db = is_id (desk_of db i) d

desk_of_row : Option Employee → Option ℕ
desk_of_row none = none
desk_of_row (some e) = e.desk

pub own_key : (j : ℕ) (e : Employee) (es : List Employee) → row j es ≡ some e → e.id ≡ j
own_key j e es h = ground (arith, find-passes (λ (u : Employee). u.id == j) es e h)

-- What a write to the row of an employee does to the desks.
pub put-sits :
    (e e' : Employee) (i d : ℕ) (db : Db)
    → row e'.id db.employees ≡ some e
    → sits i d (save_employee e' db) ≡ (if e'.id == i then is_id e'.desk d else sits i d db)
put-sits e e' i d db found = ground (arith, row-put i e' db.employees)

pub row-sits :
    (e : Employee) (i d : ℕ) (db : Db) → row i db.employees ≡ some e → sits i d db ≡ is_id e.desk d
row-sits e i d db found = rw (found, desk_of) refl

eq_of : (a b : ℕ) → (a == b) ≡ true → a ≡ b
eq_of a b e = ground arith

same-sits :
    (e : Employee) (s : EmployeeStatus) (i d : ℕ) (db : Db)
    → row e.id db.employees ≡ some e
    → sits i d (save_employee (record e { status = s }) db) ≡ sits i d db
same-sits e s i d db found = elim (Bool-cases (e.id == i)) [
  | inl same ↦
      put-sits e (record e { status = s }) i d db found
      ∙ rw same (
          sym (
            row-sits e i d db (subst (λ k. row k db.employees ≡ some e) (eq_of e.id i same) found)))
  | inr other ↦ put-sits e (record e { status = s }) i d db found ∙ rw other refl
]

pub own_row : (k : ℕ) (e : Employee) (es : List Employee) → row k es ≡ some e → row e.id es ≡ some e
own_row k e es found = subst (λ j. row j es ≡ some e) (sym (own_key k e es found)) found

status-sits :
    (k : ℕ) (s : EmployeeStatus) (i d : ℕ) (db : Db)
    → sits i d (set_employee_status_of k s db) ≡ sits i d db
status-sits k s i d db = elim (Option-cases (row k db.employees)) [
  | inl out ↦ rw (out, set_employee_status_of) refl
  | inr (e, found) ↦
      rw (found, set_employee_status_of) (same-sits e s i d db (own_row k e db.employees found))
]

module _ (env : Env) (subject i d : ℕ) where
  break-sits :
      (a : Assignment) (reason : EmployeeStatus) (db : Db)
      → Holds
          (λ db'. sits i d db' ≡ sits i d db)
          (release_assignment_for_break env a subject reason db)
  unfolding release_assignment_for_break event
  break-sits a reason db =
      require-Holds (λ db'. sits i d db' ≡ sits i d db) (row a.ticket db.tickets) not_found _
        λ t _.
          guard-Holds (λ db'. sits i d db' ≡ sits i d db) (not (blocks_break t.status)) conflict _
            λ _. elim (Bool-cases (can_release_on_break t.status)) [
              | inl r ↦ rw r refl
              | inr r ↦ rw r refl
            ]

  break_or_close-sits :
      (b : Bool) (a : Assignment) (db : Db)
      → Holds
          (λ db'. sits i d db' ≡ sits i d db)
          (if b
            then release_assignment_for_break env a subject paused db
            else ok (save_assignment (close env a) db))
  break_or_close-sits true a db = break-sits a paused db
  break_or_close-sits false a db = refl

  pub release_found-sits :
      (next : EmployeeStatus) (k : ℕ) (o : Option Assignment) (db : Db)
      → Holds (λ db'. sits i d db' ≡ sits i d db) (release_found env next k subject o db)
  unfolding release_found
  release_found-sits next k none db = refl
  release_found-sits next k (some a) db =
      require-Holds (λ db'. sits i d db' ≡ sits i d db) (row a.ticket db.tickets) not_found _
        λ t _.
          guard-Holds (λ db'. sits i d db' ≡ sits i d db) (not (blocks_break t.status)) conflict _
            λ _.
              bind-Holds (λ db'. sits i d db' ≡ sits i d db) (λ db'. sits i d db' ≡ sits i d db)
                (if can_release_on_break t.status
                  then release_assignment_for_break env a subject paused db
                  else ok (save_assignment (close env a) db))
                _ (break_or_close-sits (can_release_on_break t.status) a db)
                λ db' h. status-sits k next i d db' ∙ h

  leave_desk-sits :
      (k : ℕ) (db : Db)
      → sits i d (leave_desk (row k db.employees) db) ≡ (sits i d db && not (k == i))
  leave_desk-sits k db = elim (Option-cases (row k db.employees)) [
    | inl out ↦ rw (out, leave_desk) (no_row k db out)
    | inr (e, found) ↦
        rw (found, leave_desk)
          (put-sits e (record e { desk = none }) i d db (own_row k e db.employees found)
            ∙ ap (λ j. if j == i then false else sits i d db) (own_key k e db.employees found)
            ∙ not_if (k == i) (sits i d db))
  ]
    where
      not_if : (b c : Bool) → (if b then false else c) ≡ (c && not b)
      not_if b c = ground arith

      no_row :
          (j : ℕ) (db : Db)
          → row j db.employees ≡ none
          → sits i d db ≡ (sits i d db && not (j == i))
      no_row j db out = elim (Bool-cases (j == i)) [
        | inl same ↦
            rw (same, subst (λ k. row k db.employees ≡ none) (eq_of j i same) out, desk_of) refl
        | inr other ↦ rw other (ground arith)
      ]

  pub detach-sits :
      (k : ℕ) (db : Db)
      → Holds
          (λ db'. sits i d db' ≡ (sits i d db && not (k == i)))
          (detach_employee_desk env k subject db)
  unfolding detach_employee_desk release_employee_assignments_for_desk_change
  detach-sits k db =
      bind-Holds (λ db'. sits i d db' ≡ (sits i d db && not (k == i)))
        (λ db'. sits i d db' ≡ sits i d db)
        (release_found env paused k subject (find (is_active_of k) db.assignments) db) _
        (release_found-sits paused k (find (is_active_of k) db.assignments) db)
        λ db' h. leave_desk-sits k db' ∙ ap (λ b. b && not (k == i)) h
