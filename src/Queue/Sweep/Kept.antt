-- ===== src/Queue/Sweep/Kept.antt =====
-- What the sweep of missed appointments leaves as it is.
use ticket_system.Base.{
  ℕ, ◌<◌, ◌≡◌, true, false, List, [], ◌∷◌, some, arith, ◌==◌, filter, row, row-put, Option-cases,
  Bool-cases, inl, inr, ◌∙◌, ap, sym,
}
use ticket_system.Domain.{Ticket, ticket_keyed, no_show}
use ticket_system.Rules.{can_check_in, check_in_window}
use ticket_system.Queue.Store.{Db, Env}
use ticket_system.Queue.Sweep.{is_due, take, miss, miss_all, mark_missed_appointments}
use ticket_system.Queue.Sweep.Missed.{is_due_row, own_key, miss_kept, miss-found}

-- A ticket that is not due is no row that the sweep writes.
miss-other :
    (env : Env) (t u : Ticket) (db : Db)
    → row t.id db.tickets ≡ some t
    → is_due env.now t ≡ false
    → row u.id db.tickets ≡ some u
    → row t.id (miss env (some u) db).tickets ≡ some t
miss-other env t u db found early there = elim (Bool-cases (is_due env.now u)) [
  | inr off ↦ rw (miss_kept env u db off) found
  | inl due ↦
      rw (miss-found env u db due)
        (ground (arith, row-put t.id (record u { status = no_show }) db.tickets, apart due))
]
  where
    apart : is_due env.now u ≡ true → (u.id == t.id) ≡ false
    apart due = elim (Bool-cases (u.id == t.id)) [
      | inr other ↦ other
      | inl same ↦
          let key : u.id ≡ t.id = ground arith in
          let one : some u ≡ some t = sym there ∙ ap (λ k. row k db.tickets) key ∙ found in
          cc (due, early, ap (is_due_row env.now) one)
    ]

miss-row :
    (env : Env) (j : ℕ) (t : Ticket) (db : Db)
    → row t.id db.tickets ≡ some t
    → is_due env.now t ≡ false
    → row t.id (miss env (row j db.tickets) db).tickets ≡ some t
unfolding miss
miss-row env j t db found early = elim (Option-cases (row j db.tickets)) [
  | inl gone ↦ rw (gone, miss) found
  | inr (u, there) ↦ rw there (
      miss-other env t u db found early
        (ap (λ k. row k db.tickets) (own_key j u db.tickets there) ∙ there))
]

miss_all-row :
    (env : Env) (t : Ticket) (ts : List Ticket) (db : Db)
    → row t.id db.tickets ≡ some t
    → is_due env.now t ≡ false
    → row t.id (miss_all env ts db).tickets ≡ some t
unfolding miss_all
miss_all-row env t [] db found early = found
miss_all-row env t (u ∷ ts) db found early =
    miss_all-row env t ts (miss env (row u.id db.tickets) db) (miss-row env u.id t db found early)
      early

can_check_in-is_due :
    (t : Ticket) (now : ℕ)
    → t.duration_minutes < 60
    → can_check_in t.status t.scheduled_at t.duration_minutes now ≡ true
    → is_due now t ≡ false
unfolding can_check_in check_in_window
can_check_in-is_due t now short allowed = elim (Option-cases t.scheduled_at) [
  | inl none_there ↦ rw none_there (ground arith)
  | inr (at, there) ↦ ground (arith, there)
]

-- The sweep leaves the ticket of a client who may still check in as it is, where an appointment takes less than an hour.
pub mark_missed_appointments-can_check_in :
    (env : Env) (t : Ticket) (db : Db)
    → row t.id db.tickets ≡ some t
    → t.duration_minutes < 60
    → can_check_in t.status t.scheduled_at t.duration_minutes env.now ≡ true
    → row t.id (mark_missed_appointments env db).tickets ≡ some t
unfolding mark_missed_appointments
mark_missed_appointments-can_check_in env t db found short allowed =
    miss_all-row env t (take 100 (filter (is_due env.now) db.tickets)) db found
      (can_check_in-is_due t env.now short allowed)
