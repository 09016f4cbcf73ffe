-- ===== src/Queue/Linked/Purge.antt =====
-- What retention deletes leaves the tables linked, and only closed tickets go.
use ticket_system.Base.{
  ◌≢◌, ◌*◌, ◌+◌, ◌⊎◌, ap, sym, ◌∙◌, In-row, ℕ, ◌≤◌, ◌≡◌, refl, Bool, true, false, not, List, [],
  ◌∷◌, none, some, arith, ◌==◌, filter, count, row, In, In-filter, In-order_rows, In-limit,
  Bool-cases, inl, inr, if◌then◌else◌,
}
use ticket_system.Domain.{
  booked, waiting, checked_in, assigned, called, in_service, completed, cancelled, no_show,
  requeued, TicketStatus, Ticket, Assignment, ticket_keyed, assignment_keyed,
}
use ticket_system.Queue.Store.{Db, Env, is_active_on, is_active_of}
use ticket_system.Queue.Linked.{IsLinked}
use ticket_system.Queue.Retention.{
  terminal, RetentionConfig, is_expired, expired_tickets, is_one_of, delete_tickets, purge_expired,
}

count-filter-le : {A : Type 0} → (p q : A → Bool) (xs : List A) → count p (filter q xs) ≤ count p xs
count-filter-le p q [] = omega arith
count-filter-le p q (x ∷ xs) = ground (arith, count-filter-le p q xs)

same_key : (g : ℕ → Bool) (a b : ℕ) → (a == b) ≡ true → g a ≡ g b
same_key g a b h = ap g (ground arith)

-- The rows whose keys fail a test are as before, the others are gone.
row-kept :
    (g : ℕ → Bool) (i : ℕ) (ts : List Ticket)
    → row i (filter (λ t. not (g t.id)) ts) ≡ (if g i then none else row i ts)
row-kept g i [] = ground arith
row-kept g i (t ∷ ts) = elim (Bool-cases (t.id == i)) [
  | inl same ↦ elim (Bool-cases (g i)) [
    | inl out ↦ rw (same_key g t.id i same ∙ out, out, row-kept g i ts) (rw out refl)
    | inr stays ↦ rw (same_key g t.id i same ∙ stays, stays, same) refl
  ]
  | inr other ↦ elim (Bool-cases (g t.id)) [
    | inl out ↦ rw (out, other, row-kept g i ts) refl
    | inr stays ↦ rw (stays, other, row-kept g i ts) refl
  ]
]

count-kept :
    (g : ℕ → Bool) (i : ℕ) (rows : List Assignment)
    → count (is_active_on i) (filter (λ a. not (g a.ticket)) rows)
      ≡ (if g i then 0 else count (is_active_on i) rows)
count-kept g i [] = ground arith
count-kept g i (a ∷ rows) = elim (Bool-cases (a.ticket == i)) [
  | inl same ↦ elim (Bool-cases (g i)) [
    | inl out ↦ rw (same_key g a.ticket i same ∙ out, out, count-kept g i rows) (rw out refl)
    | inr stays ↦
        rw (same_key g a.ticket i same ∙ stays, stays) (ground (arith, count-kept g i rows))
  ]
  | inr other ↦ elim (Bool-cases (g a.ticket)) [
    | inl out ↦ rw out (ground (arith, count-kept g i rows))
    | inr stays ↦ rw stays (ground (arith, count-kept g i rows))
  ]
]

delete_tickets-IsLinked :
    (gone : List Ticket) (db : Db) → IsLinked db → IsLinked (delete_tickets gone db)
unfolding delete_tickets
delete_tickets-IsLinked gone db v = record {
  one_ticket = λ i. omega (
    arith,
    count-filter-le (λ (t : Ticket). t.id == i) (λ t. not (is_one_of gone t.id)) db.tickets,
    v.one_ticket i,
  );
  one_assignment = λ i. omega (
    arith,
    count-filter-le (λ (a : Assignment). a.id == i) (λ a. not (is_one_of gone a.ticket))
        db.assignments,
    v.one_assignment i,
  );
  fresh_ticket = λ i h. omega (
    arith,
    count-filter-le (λ (t : Ticket). t.id == i) (λ t. not (is_one_of gone t.id)) db.tickets,
    v.fresh_ticket i h,
  );
  fresh_assignment = λ i h. omega (
    arith,
    count-filter-le (λ (a : Assignment). a.id == i) (λ a. not (is_one_of gone a.ticket))
        db.assignments,
    v.fresh_assignment i h,
  );
  held = λ i. ground (
    arith,
    row-kept (is_one_of gone) i db.tickets,
    count-kept (is_one_of gone) i db.assignments,
    v.held i,
  );
  single = λ e. omega (
    arith,
    count-filter-le (is_active_of e) (λ a. not (is_one_of gone a.ticket)) db.assignments,
    v.single e,
  );
  apart = λ t u i j other.
      v.apart t u (In-filter (λ t. not (is_one_of gone t.id)) db.tickets t i).0
        (In-filter (λ t. not (is_one_of gone t.id)) db.tickets u j).0 other;
}

pub purge_expired-IsLinked :
    (config : RetentionConfig) (env : Env) (db : Db)
    → IsLinked db
    → IsLinked (purge_expired config env db).1
unfolding purge_expired
purge_expired-IsLinked config env db v =
    delete_tickets-IsLinked (expired_tickets config env db.tickets) db v

is_one_of-In :
    (ts : List Ticket) (i : ℕ) → is_one_of ts i ≡ true → (t : Ticket) × In t ts × (t.id ≡ i)
is_one_of-In [] i h = cc
is_one_of-In (t ∷ ts) i h = elim (Bool-cases (t.id == i)) [
  | inl same ↦ (t, inl refl, ground arith)
  | inr other ↦ let (u, j, e) = is_one_of-In ts i (rw other at h) in (u, inr j, e)
]

expired_tickets-In :
    (config : RetentionConfig) (env : Env) (ts : List Ticket) (t : Ticket)
    → In t (expired_tickets config env ts)
    → In t ts × (is_expired config env t ≡ true)
unfolding expired_tickets
expired_tickets-In config env ts t i =
    In-filter (is_expired config env) ts t
      (In-order_rows (λ u. config.ticket_updated_at u.id) t _ (In-limit 500 t _ i))

-- Two rows of a linked table with one key are one row.
one_row :
    (db : Db) (t u : Ticket)
    → IsLinked db
    → In u db.tickets
    → row t.id db.tickets ≡ some t
    → u.id ≡ t.id
    → u ≡ t
one_row db t u v i found same =
    some_injective u t
      (sym (In-row u db.tickets (v.one_ticket u.id) i) ∙ ap (λ k. row k db.tickets) same ∙ found)
  where
    some_injective : (a b : Ticket) → some a ≡ some b → a ≡ b
    some_injective a b e = cc

-- The rows of a ticket that is not deleted are left as they are.
rows-kept :
    {A : Type 0} (of_ticket : A → ℕ) (g : ℕ → Bool) (i : ℕ) (rows : List A)
    → g i ≡ false
    → filter (λ a. of_ticket a == i) (filter (λ a. not (g (of_ticket a))) rows)
      ≡ filter (λ a. of_ticket a == i) rows
rows-kept of_ticket g i [] stays = refl
rows-kept of_ticket g i (a ∷ rows) stays = elim (Bool-cases (of_ticket a == i)) [
  | inl same ↦
      rw (same_key g (of_ticket a) i same ∙ stays, same)
        (ap (λ rest. a ∷ rest) (rows-kept of_ticket g i rows stays))
  | inr other ↦ elim (Bool-cases (g (of_ticket a))) [
    | inl out ↦ rw (out, other) (rows-kept of_ticket g i rows stays)
    | inr in_table ↦ rw (in_table, other) (rows-kept of_ticket g i rows stays)
  ]
]

terminal-cases :
    (s : TicketStatus)
    → (terminal s ≡ false) ⊎ ((s ≡ completed) ⊎ ((s ≡ cancelled) ⊎ (s ≡ no_show)))
terminal-cases completed = inr (inl refl)
terminal-cases cancelled = inr (inr (inl refl))
terminal-cases no_show = inr (inr (inr refl))
terminal-cases booked = inl refl
terminal-cases waiting = inl refl
terminal-cases checked_in = inl refl
terminal-cases assigned = inl refl
terminal-cases called = inl refl
terminal-cases in_service = inl refl
terminal-cases requeued = inl refl

-- A ticket that is still open, or was changed within the term.
abbrev pub IsKept : RetentionConfig → Env → Ticket → Type 0
IsKept config env t =
    ((t.status ≢ completed) × (t.status ≢ cancelled) × (t.status ≢ no_show))
    ⊎ (env.now ≤ config.ticket_updated_at t.id + config.ticket_days * 86400000)

IsKept-is_expired :
    (config : RetentionConfig) (env : Env) (t : Ticket)
    → IsKept config env t
    → is_expired config env t ≡ false
unfolding is_expired
IsKept-is_expired config env t (inr young) = ground arith
IsKept-is_expired config env t (inl (a, b, c)) = elim (terminal-cases t.status) [
  | inl still_open ↦ rw still_open refl
  | inr closed ↦ elim closed [
    | inl e ↦ absurd (a e)
    | inr other ↦ elim other [ inl e ↦ absurd (b e) | inr e ↦ absurd (c e) ]
  ]
]

kept-is_one_of :
    (config : RetentionConfig) (env : Env) (db : Db) (t : Ticket)
    → IsLinked db
    → row t.id db.tickets ≡ some t
    → is_expired config env t ≡ false
    → is_one_of (expired_tickets config env db.tickets) t.id ≡ false
kept-is_one_of config env db t v found young =
    elim (Bool-cases (is_one_of (expired_tickets config env db.tickets) t.id)) [
      | inr stays ↦ stays
      | inl out ↦
          let (u, i, same) = is_one_of-In (expired_tickets config env db.tickets) t.id out in
          let (j, old) = expired_tickets-In config env db.tickets u i in
          cc (old, young, ap (is_expired config env) (one_row db t u v j found same))
    ]

-- On linked tables, retention leaves a ticket that is not completed, cancelled or a no-show as it is, and a closed one too until its last change is longer ago than the term; and it leaves all assignments and all events of such a ticket.
pub purge_expired-keeps :
    (config : RetentionConfig) (env : Env) (db : Db) (t : Ticket)
    → IsLinked db
    → row t.id db.tickets ≡ some t
    → IsKept config env t
    → let after = (purge_expired config env db).1 in
      (row t.id after.tickets ≡ some t)
      × (filter (λ a. a.ticket == t.id) after.assignments
          ≡ filter (λ a. a.ticket == t.id) db.assignments)
      × (filter (λ e. e.ticket_id == t.id) after.events
          ≡ filter (λ e. e.ticket_id == t.id) db.events)
unfolding purge_expired delete_tickets
purge_expired-keeps config env db t v found kept =
    let gone = is_one_of (expired_tickets config env db.tickets) in
    let stays : gone t.id ≡ false =
      kept-is_one_of config env db t v found (IsKept-is_expired config env t kept) in
    (
      row-kept gone t.id db.tickets ∙ rw stays found,
      rows-kept (λ a. a.ticket) gone t.id db.assignments stays,
      rows-kept (λ e. e.ticket_id) gone t.id db.events stays,
    )
