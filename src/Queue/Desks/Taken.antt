-- ===== src/Queue/Desks/Taken.antt =====
-- The whole change of desk: who sits there afterwards.
use ticket_system.Base.{
  ℕ, ◌≡◌, Bool, true, false, not, ◌&&◌, ◌||◌, List, [], ◌∷◌, none, some, arith, ◌==◌, any, filter,
  find, row, Bool-cases, inl, inr, if◌then◌else◌, is_some, is_id, or_else, find-passes, ◌∙◌, ap,
  sym,
}
use ticket_system.Domain.{Employee, is_country, employee_keyed, desk_keyed, paused}
use ticket_system.Queue.Store.{Db, Env, audit, is_active_of, not_found, bad_request}
use ticket_system.Queue.Holds.{Holds, weaken-Holds, require-Holds, guard-Holds, bind-Holds}
use ticket_system.Queue.Desks.{
  release_found, release_employee_assignments_for_desk_change, detach_employee_desk, detach_others,
  take_desk, change_desk, seat_employee,
}
use ticket_system.Queue.Desks.Alone.{
  sits, detach-sits, release_found-sits, own_row, own_key, put-sits,
}

abbrev lists : ℕ → List Employee → Bool
lists i es = any (λ e. e.id == i) es

-- Those in the list have left the desk, but for the employee who takes it.
abbrev left : ℕ → ℕ → List Employee → Bool
left i self es = lists i es && not (self == i)

skip_self :
    (sat : Bool) (a i self : ℕ) (rest : Bool)
    → (a == self) ≡ true
    → (sat && not (rest && not (self == i))) ≡ (sat && not ((a == i || rest) && not (self == i)))
skip_self sat a i self rest h = ground arith

take_other :
    (sat : Bool) (a i self : ℕ) (rest : Bool)
    → (a == self) ≡ false
    → ((sat && not (a == i)) && not (rest && not (self == i)))
      ≡ (sat && not ((a == i || rest) && not (self == i)))
take_other sat a i self rest h = ground arith

detach_others-sits :
    (env : Env) (self subject i d : ℕ) (es : List Employee) (db : Db)
    → Holds
        (λ db'. sits i d db' ≡ (sits i d db && not (left i self es)))
        (detach_others env self subject es db)
unfolding detach_others
detach_others-sits env self subject i d [] db = ground arith
detach_others-sits env self subject i d (e ∷ es) db = elim (Bool-cases (e.id == self)) [
  | inl own ↦ rw own (
      weaken-Holds (λ db'. sits i d db' ≡ (sits i d db && not (left i self es)))
        (λ db'. sits i d db' ≡ (sits i d db && not (left i self (e ∷ es))))
        (detach_others env self subject es db)
        (λ db' h. h ∙ skip_self (sits i d db) e.id i self (lists i es) own)
        (detach_others-sits env self subject i d es db))
  | inr other ↦ rw other (
      bind-Holds (λ db'. sits i d db' ≡ (sits i d db && not (left i self (e ∷ es))))
        (λ db'. sits i d db' ≡ (sits i d db && not (e.id == i)))
        (detach_employee_desk env e.id subject db) (detach_others env self subject es)
        (detach-sits env subject i d e.id db)
        λ db1 g.
          weaken-Holds (λ db'. sits i d db' ≡ (sits i d db1 && not (left i self es)))
            (λ db'. sits i d db' ≡ (sits i d db && not (left i self (e ∷ es))))
            (detach_others env self subject es db1)
            (λ db' h.
              h
              ∙ ap (λ b. b && not (left i self es)) g
              ∙ take_other (sits i d db) e.id i self (lists i es) other)
            (detach_others-sits env self subject i d es db1))
]

-- Whoever has the desk is in the list of those who have it.
abbrev desk_in : ℕ → ℕ → List Employee → Bool
desk_in i d es = elim (row i es) [ none ↦ false | some e ↦ is_id e.desk d ]

row_lists :
    (i d : ℕ) (es : List Employee)
    → desk_in i d es ≡ true
    → lists i (filter (λ e. is_id e.desk d) es) ≡ true
row_lists i d [] h = cc
row_lists i d (e ∷ es) h = elim (Bool-cases (e.id == i)) [
  | inl same ↦ ground (arith, same)
  | inr other ↦ ground (arith, row_lists i d es)
]

sits-desk_in : (i d : ℕ) (db : Db) → sits i d db ≡ desk_in i d db.employees
sits-desk_in i d db = ground arith

sits-lists :
    (i d : ℕ) (db : Db)
    → sits i d db ≡ true
    → lists i (filter (λ e. is_id e.desk d) db.employees) ≡ true
sits-lists i d db h = row_lists i d db.employees (sym (sits-desk_in i d db) ∙ h)

settle :
    (a i self : ℕ) (here sat2 sat listed : Bool)
    → a ≡ self
    → here ≡ true
    → sat2 ≡ (sat && not (listed && not (self == i)))
    → (sat ≡ true → listed ≡ true)
    → (if a == i then here else sat2) ≡ (self == i)
settle a i self here sat2 sat listed same h left known = ground arith

take_desk-sits :
    (env : Env) (subject i d : ℕ) (e : Employee) (db : Db)
    → Holds (λ db'. sits i d db' ≡ (e.id == i)) (take_desk env subject e d db)
unfolding take_desk release_employee_assignments_for_desk_change
take_desk-sits env subject i d e db =
    require-Holds (λ db'. sits i d db' ≡ (e.id == i)) (find (λ x. x.id == d && x.active) db.desks)
      not_found _
      λ desk found.
        guard-Holds (λ db'. sits i d db' ≡ (e.id == i))
          (not (is_some e.country) || is_country e.country desk.country) bad_request _
          λ _.
            bind-Holds (λ db'. sits i d db' ≡ (e.id == i))
              (λ db'.
                sits i d db'
                ≡ (sits i d db && not (left i e.id (filter (λ x. is_id x.desk d) db.employees))))
              (detach_others env e.id subject (filter (λ x. is_id x.desk d) db.employees) db) _
              (detach_others-sits env e.id subject i d (filter (λ x. is_id x.desk d) db.employees)
                db)
              λ db1 h1.
                bind-Holds (λ db'. sits i d db' ≡ (e.id == i)) (λ db'. sits i d db' ≡ sits i d db1)
                  (release_found env paused e.id subject (find (is_active_of e.id) db1.assignments)
                    db1)
                  _
                  (release_found-sits env subject i d paused e.id
                    (find (is_active_of e.id) db1.assignments) db1)
                  λ db2 h2.
                    require-Holds (λ db'. sits i d db' ≡ (e.id == i)) (row e.id db2.employees)
                      not_found _
                      λ a there.
                        put-sits a
                          (record a {
                            desk = some desk.id;
                            country = some desk.country;
                            site = or_else a.site (some desk.site);
                          })
                          i d db2 (own_row e.id a db2.employees there)
                        ∙ settle a.id i e.id (desk.id == d) (sits i d db2) (sits i d db)
                            (lists i (filter (λ x. is_id x.desk d) db.employees))
                            (own_key e.id a db2.employees there)
                            (ground
                              (arith, find-passes (λ x. x.id == d && x.active) db.desks desk found))
                            (h2 ∙ h1) (sits-lists i d db)

-- Where an employee is given a desk, the employees who have the desk afterwards are that employee and no other.
pub seat_employee-sits :
    (env : Env) (subject id d i : ℕ) (db : Db)
    → Holds (λ r. sits i d r.1 ≡ (id == i)) (seat_employee env subject id (some d) db)
unfolding seat_employee change_desk audit
seat_employee-sits env subject id d i db =
    require-Holds {B = Employee × Db} (λ r. sits i d r.1 ≡ (id == i)) (row id db.employees)
      not_found _
      λ e found.
        bind-Holds {B = Employee × Db} (λ r. sits i d r.1 ≡ (id == i))
          (λ db'. sits i d db' ≡ (e.id == i)) (take_desk env subject e d db) _
          (take_desk-sits env subject i d e db)
          λ db' h.
            require-Holds {B = Employee × Db} (λ r. sits i d r.1 ≡ (id == i)) (row id db'.employees)
              not_found _ λ _ _. h ∙ ap (λ k. k == i) (own_key id e db.employees found)
