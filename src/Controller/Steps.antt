-- ===== src/Controller/Steps.antt =====
-- The routes do what the requests ask for.
use ticket_system.Base.{
  ◌∙◌, Option-cases, ℕ, ◌≡◌, refl, Bool-cases, Option, none, some, sym, ap, find, ◌==◌, inl, inr,
  ◌⊎◌,
}
use ticket_system.Domain.{Text, Ticket, Assignment}
use ticket_system.RateLimit.{Redis}
use ticket_system.Queue.Store.{Db, Result, ok, err, transaction}
use ticket_system.Queue.Manager.{check_in_by_hash, cancel_ticket_by_hash}
use ticket_system.Queue.WalkIn.{WalkIn, create_walk_in_ticket}
use ticket_system.Queue.Retention.{terminal}
use ticket_system.Queue.Book.{current_holds}
use ticket_system.Queue.Steps.{run, Operation}
use ticket_system.Queue.Views.{
  to_public, public_ticket_view, PublicTicket, lookup_ticket, get_public_ticket_by_hash, mapped,
}
use ticket_system.Controller.Asks.{
  active_token, applied, unless_gone, token_looked_up, forgotten, asks,
}
use ticket_system.Controller.{
  print_one, shown_current, current, cancel, is_filled, check_in, dropped, lookup, after_cancel,
  after_check_in, after_walk_in, walk_in, found_active, World, find_active_ticket, checked, Visit,
}

-- What the tables are after a transaction that answered.
abbrev pub kept {ℓ} : {A : Type ℓ} → Result (A × Db) → Db → Db
kept (err e) db = db
kept (ok (a, after)) db = after

pub kept-transaction {ℓ} :
    {A : Type ℓ}
    → (body : Db → Result (A × Db)) (db : Db) (m : Result (A × Db)) → body db ≡ m
    → (transaction body db).0 ≡ kept m db
kept-transaction body db (err e) h = rw (h, transaction) refl
kept-transaction body db (ok (a, after)) h = rw (h, transaction) refl

module _ {S : Type 0} (redis : Redis S) where
  abbrev pub IsFound : Visit → World S → Type 0
  IsFound v w =
      (hash : ℕ) × (p : PublicTicket) × (find_active_ticket redis v w ≡ (some (hash, p), w))
      × (active_token w ≡ some hash)
      × (w.session.ticket_token_hash ≡ some hash)

  abbrev pub IsMissing : Visit → World S → Type 0
  IsMissing v w =
      (find_active_ticket redis v w ≡ (none, forgotten redis v w))
      × (active_token w ≡ none)
      × ((forgotten redis v w).session.ticket_token_hash ≡ none)
      × ((forgotten redis v w).db ≡ w.db)

  pub find_active_ticket-cases : (v : Visit) (w : World S) → IsFound v w ⊎ IsMissing v w
  unfolding find_active_ticket found_active get_public_ticket_by_hash public_ticket_view to_public
  find_active_ticket-cases v w = elim (Option-cases w.session.ticket_token_hash) [
    | inl out ↦ inr (rw out refl, rw out refl, rw out refl, rw out refl)
    | inr (hash, token) ↦
        elim (Option-cases (find (λ t. t.access_token_hash == hash) w.db.tickets)) [
          | inl lost ↦
              inr (rw (token, lost) refl, rw (token, lost) refl, rw token refl, rw token refl)
          | inr (t, there) ↦ elim (Bool-cases (terminal t.status)) [
            | inl over ↦ inr (
              rw (token, there, over) refl,
              rw (token, there, over) refl,
              rw token refl,
              rw token refl,
            )
            | inr live ↦ inl (
              hash,
              public_ticket_view v.view v.env w.db t,
              rw (token, there, live) refl,
              rw (token, there, live) refl,
              token,
            )
          ]
        ]
  ]

  after_check_in-lem :
      (v : Visit) (hash : ℕ) (w : World S) (m : Result (Option Assignment × Db))
      → ((after_check_in redis v hash w m).1.db ≡ kept m w.db)
        × ((after_check_in redis v hash w m).1.session ≡ w.session)
  unfolding after_check_in
  after_check_in-lem v hash w (err e) = (refl, refl)
  after_check_in-lem v hash w (ok (a, db)) = (refl, refl)

  pub check_in-applied :
      (v : Visit) (w : World S)
      → ((check_in redis v w).1.db
          ≡ applied v.env (mapped Operation.check_in (active_token w)) w.db)
        × ((check_in redis v w).1.session.ticket_token_hash ≡ active_token w)
  unfolding check_in checked run
  check_in-applied v w = elim (find_active_ticket-cases v w) [
    | inr (missing, none_active, no_token, same) ↦ rw (missing, none_active) (same, no_token)
    | inl (hash, p, found, active, token) ↦
        let (tables, session) = after_check_in-lem v hash w (check_in_by_hash v.env hash w.db) in
        rw (found, active)
          (
            tables ∙ sym (kept-transaction (check_in_by_hash v.env hash) w.db _ refl),
            ap (λ s. s.ticket_token_hash) session ∙ token,
          )
  ]

  after_cancel-lem :
      (v : Visit) (w : World S) (m : Result (Unit {0} × Db))
      → ((after_cancel redis v w m).1.db ≡ kept m w.db)
        × ((after_cancel redis v w m).1.session.ticket_token_hash
            ≡ unless_gone (after_cancel redis v w m).0 w.session.ticket_token_hash)
  unfolding after_cancel
  after_cancel-lem v w (err e) = (refl, refl)
  after_cancel-lem v w (ok (done, db)) = (refl, refl)

  pub cancel-applied :
      (v : Visit) (w : World S)
      → ((cancel redis v w).1.db ≡ applied v.env (mapped Operation.cancel (active_token w)) w.db)
        × ((cancel redis v w).1.session.ticket_token_hash
            ≡ unless_gone (cancel redis v w).0 (active_token w))
  unfolding cancel dropped run
  cancel-applied v w = elim (find_active_ticket-cases v w) [
    | inr (missing, none_active, no_token, same) ↦ rw (missing, none_active) (same, no_token)
    | inl (hash, p, found, active, token) ↦
        let (tables, session) = after_cancel-lem v w (cancel_ticket_by_hash v.env hash w.db) in
        rw (found, active)
          (
            tables ∙ sym (kept-transaction (cancel_ticket_by_hash v.env hash) w.db _ refl),
            session ∙ ap (unless_gone _) token,
          )
  ]

  pub current-active_token :
      (v : Visit) (w : World S)
      → ((current redis v w).1.db ≡ w.db)
        × ((current redis v w).1.session.ticket_token_hash ≡ active_token w)
  unfolding current shown_current
  current-active_token v w = elim (find_active_ticket-cases v w) [
    | inr (missing, none_active, no_token, same) ↦ rw (missing, none_active) (same, no_token)
    | inl (hash, p, found, active, token) ↦ rw (found, active) (refl, token)
  ]

  after_walk_in-lem :
      (v : Visit) (i : WalkIn) (w : World S) (m : Result (Ticket × Db))
      → ((after_walk_in redis v i w m).1.db ≡ kept m w.db)
        × ((after_walk_in redis v i w m).1.session ≡ w.session)
  unfolding after_walk_in
  after_walk_in-lem v i w (err e) = (refl, refl)
  after_walk_in-lem v i w (ok (t, db)) = (refl, refl)

  pub walk_in-applied :
      (v : Visit) (website : Option Text) (i : WalkIn) (w : World S)
      → ((walk_in redis v website i w).1.db
          ≡ applied v.env (asks redis v (print_one website i) w) w.db)
        × ((walk_in redis v website i w).1.session.ticket_token_hash ≡ w.session.ticket_token_hash)
  unfolding walk_in run
  walk_in-applied v website i w = elim (Bool-cases (is_filled website)) [
    | inl robot ↦ rw robot (refl, refl)
    | inr person ↦
        let holds = current_holds redis v.spell v.env.now w.store in
        let made = create_walk_in_ticket v.calendar v.clock holds v.env i w.db in
        let (tables, session) = after_walk_in-lem v i w made in
        rw person (
          tables
              ∙ sym (
                  kept-transaction (create_walk_in_ticket v.calendar v.clock holds v.env i) w.db
                    made refl),
          ap (λ s. s.ticket_token_hash) session,
        )
  ]

  pub looked :
      (v : Visit) (number code : Text) (w : World S) (m : Result (PublicTicket × ℕ))
      → lookup_ticket v.view v.reader v.env number code w.db ≡ m
      → ((lookup redis v number code w).1.db ≡ w.db)
        × ((lookup redis v number code w).1.session.ticket_token_hash
            ≡ token_looked_up m w.session.ticket_token_hash)
  unfolding lookup
  looked v number code w (err e) h = rw (h, lookup) (refl, refl)
  looked v number code w (ok (p, hash)) h = rw (h, lookup) (refl, refl)
