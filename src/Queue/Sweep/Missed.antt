-- ===== src/Queue/Sweep/Missed.antt =====
-- What the sweep of missed appointments leaves.
use ticket_system.Base.{
  length, subst, sym, ℕ, zero, suc, ◌≤◌, ◌≡◌, refl, Bool, true, false, not, ◌&&◌, ◌||◌, List, [],
  ◌∷◌, Option, none, some, arith, ◌==◌, any, filter, count, row, put, row-put, Option-cases,
  Bool-cases, inl, inr, find-passes, ◌∙◌, ap,
}
use ticket_system.Domain.{Ticket, Assignment, ticket_keyed, employee_keyed, no_show, available}
use ticket_system.Queue.Store.{
  Db, Env, event, audit, is_active_on, save_ticket, save_assignment, set_employee_status_of,
}
use ticket_system.Queue.Staff.{close}
use ticket_system.Queue.Sweep.{is_due, take, close_all, miss, miss_all, mark_missed_appointments}

abbrev pub is_due_row : ℕ → Option Ticket → Bool
is_due_row now none = false
is_due_row now (some t) = is_due now t

set_employee_status_of-tickets :
    (e : ℕ) (db : Db) → (set_employee_status_of e available db).tickets ≡ db.tickets
set_employee_status_of-tickets e db = elim (Option-cases (row e db.employees)) [
  | inl out ↦ rw (out, set_employee_status_of) refl
  | inr (_, found) ↦ rw (found, set_employee_status_of) refl
]

close_all-tickets :
    (env : Env) (rest : List Assignment) (db : Db) → (close_all env rest db).tickets ≡ db.tickets
unfolding close_all close
close_all-tickets env [] db = refl
close_all-tickets env (a ∷ rest) db =
    close_all-tickets env rest
      (set_employee_status_of a.employee available (save_assignment (close env a) db))
    ∙ set_employee_status_of-tickets a.employee (save_assignment (close env a) db)

-- A due row is missed, and is due no more.
pub miss-found :
    (env : Env) (t : Ticket) (db : Db)
    → is_due env.now t ≡ true
    → (miss env (some t) db).tickets ≡ put (record t { status = no_show }) db.tickets
unfolding miss event audit
miss-found env t db due = rw due (
    close_all-tickets env (filter (is_active_on t.id) db.assignments)
      (save_ticket (record t { status = no_show }) db))

missed_row :
    (now i : ℕ) (t : Ticket) (ts : List Ticket)
    → row t.id ts ≡ some t
    → is_due_row now (row i (put (record t { status = no_show }) ts))
      ≡ (is_due_row now (row i ts) && not (t.id == i))
missed_row now i t ts found = ground (arith, row-put i (record t { status = no_show }) ts)

-- A row that is not due is left, and stays not due.
kept_row :
    (now j i : ℕ) (ts : List Ticket)
    → is_due_row now (row j ts) ≡ false
    → is_due_row now (row i ts) ≡ (is_due_row now (row i ts) && not (j == i))
kept_row now j i ts h = elim (Bool-cases (j == i)) [
  | inl same ↦ rw (subst (λ k. is_due_row now (row k ts) ≡ false) (eq_of j i same) h) refl
  | inr other ↦ rw other (and_true (is_due_row now (row i ts)))
]
  where
    eq_of : (a b : ℕ) → (a == b) ≡ true → a ≡ b
    eq_of a b e = ground arith

    and_true : (b : Bool) → b ≡ (b && true)
    and_true b = ground arith

pub own_key : (j : ℕ) (t : Ticket) (ts : List Ticket) → row j ts ≡ some t → t.id ≡ j
own_key j t ts h = ground (arith, find-passes (λ (u : Ticket). u.id == j) ts t h)

miss_due :
    (env : Env) (i : ℕ) (t : Ticket) (db : Db)
    → row t.id db.tickets ≡ some t
    → is_due env.now t ≡ true
    → is_due_row env.now (row i (miss env (some t) db).tickets)
      ≡ (is_due_row env.now (row i db.tickets) && not (t.id == i))
miss_due env i t db found due =
    ap (λ ts. is_due_row env.now (row i ts)) (miss-found env t db due)
    ∙ missed_row env.now i t db.tickets found

pub miss_kept :
    (env : Env) (t : Ticket) (db : Db) → is_due env.now t ≡ false → miss env (some t) db ≡ db
unfolding miss
miss_kept env t db early = rw early refl

miss-is_due_row :
    (env : Env) (j i : ℕ) (db : Db)
    → is_due_row env.now (row i (miss env (row j db.tickets) db).tickets)
      ≡ (is_due_row env.now (row i db.tickets) && not (j == i))
unfolding miss
miss-is_due_row env j i db = elim (Option-cases (row j db.tickets)) [
  | inl out ↦ rw (out, miss) (kept_row env.now j i db.tickets (rw out refl))
  | inr (t, found) ↦ elim (Bool-cases (is_due env.now t)) [
    | inl due ↦ rw found (
        subst
          (λ k.
            is_due_row env.now (row i (miss env (some t) db).tickets)
            ≡ (is_due_row env.now (row i db.tickets) && not (k == i)))
          (own_key j t db.tickets found)
          (miss_due env i t db
            (subst (λ k. row k db.tickets ≡ some t) (sym (own_key j t db.tickets found)) found)
            due))
    | inr early ↦
        rw (found, miss_kept env t db early) (kept_row env.now j i db.tickets (rw found early))
  ]
]

abbrev lists : ℕ → List Ticket → Bool
lists i ts = any (λ t. t.id == i) ts

and_not_or : (a b c : Bool) → (a && not b && not c) ≡ (a && not (b || c))
and_not_or a b c = ground arith

and_assoc : (a b c : Bool) → ((a && b) && c) ≡ (a && b && c)
and_assoc a b c = ground arith

miss_all-is_due_row :
    (env : Env) (i : ℕ) (ts : List Ticket) (db : Db)
    → is_due_row env.now (row i (miss_all env ts db).tickets)
      ≡ (is_due_row env.now (row i db.tickets) && not (lists i ts))
unfolding miss_all
miss_all-is_due_row env i [] db = ground arith
miss_all-is_due_row env i (t ∷ ts) db =
    miss_all-is_due_row env i ts (miss env (row t.id db.tickets) db)
    ∙ ap (λ b. b && not (lists i ts)) (miss-is_due_row env t.id i db)
    ∙ and_assoc (is_due_row env.now (row i db.tickets)) (not (t.id == i)) (not (lists i ts))
    ∙ and_not_or (is_due_row env.now (row i db.tickets)) (t.id == i) (lists i ts)

-- A list that is not longer is taken whole.
take_all : (n : ℕ) (ts : List Ticket) → length ts ≤ n → take n ts ≡ ts
unfolding take
take_all zero [] h = refl
take_all (suc n) [] h = refl
take_all zero (t ∷ ts) h = absurd (omega arith)
take_all (suc n) (t ∷ ts) h = ap (λ us. t ∷ us) (take_all n ts (omega arith))

length-filter : (p : Ticket → Bool) (ts : List Ticket) → length (filter p ts) ≡ count p ts
length-filter p [] = refl
length-filter p (t ∷ ts) = ground (arith, length-filter p ts)

lists-filter :
    (now i : ℕ) (ts : List Ticket)
    → is_due_row now (row i ts) ≡ true
    → lists i (filter (is_due now) ts) ≡ true
lists-filter now i [] h = cc
lists-filter now i (t ∷ ts) h = elim (Bool-cases (t.id == i)) [
  | inl same ↦ ground (arith, same)
  | inr other ↦ ground (arith, lists-filter now i ts)
]

nothing_left : (a b : Bool) → (a ≡ true → b ≡ true) → (a && not b) ≡ false
nothing_left a b h = ground arith

-- Where at most a hundred tickets are due, the sweep leaves no ticket that is due.
pub mark_missed_appointments-is_due_row :
    (env : Env) (i : ℕ) (db : Db)
    → count (is_due env.now) db.tickets ≤ 100
    → is_due_row env.now (row i (mark_missed_appointments env db).tickets) ≡ false
unfolding mark_missed_appointments
mark_missed_appointments-is_due_row env i db few =
    let due : List Ticket = filter (is_due env.now) db.tickets in
    ap (λ ts. is_due_row env.now (row i (miss_all env ts db).tickets))
      (take_all 100 due (rw (length-filter (is_due env.now) db.tickets) few))
    ∙ miss_all-is_due_row env i due db
    ∙ nothing_left (is_due_row env.now (row i db.tickets)) (lists i due)
        (lists-filter env.now i db.tickets)
