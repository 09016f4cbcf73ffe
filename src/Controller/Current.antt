-- ===== src/Controller/Current.antt =====
-- A visitor who has created a ticket finds it as the current one.
use ticket_system.Controller.{
  assert_can_create_ticket, World, Visit, CreateBody, Answer, create, current, created,
  create_allowed, create_limited, find_active_ticket, found_active, shown_current, live_view,
  is_filled, shown,
}
use ticket_system.Base.{
  inr, ◌∙◌, inl, ap, subst, Option-cases, ◌+◌, ℕ, ◌≡◌, ◌==◌, ◌||◌, refl, arith, true, Bool, not,
  List, [], ◌∷◌, ◌++◌, Option, none, some, find, any, Bool-cases,
}
use ticket_system.Domain.{Text, Ticket, Site, ServiceType, booked}
use ticket_system.Booking.{Calendar, Hold, assert_slot_available, reserve_desk}
use ticket_system.Person.{Person}
use ticket_system.RateLimit.{Redis, HeldSlot}
use ticket_system.RateLimit.Tickets.{Limited, accepted, wait}
use ticket_system.Queue.Store.{Db, Env, Result, ok, err, conflict, duplicate_key, event}
use ticket_system.Queue.Holds.{Holds, guard-Holds, bind-Holds, then-Holds}
use ticket_system.Queue.WalkIn.{
  SiteClock, WalkIn, insert_ticket, walk_in_query, count_today, is_phone_taken,
}
use ticket_system.Queue.Book.{
  as_conflict, booked_ticket, book_held, Checked, check_ticket_input, create_with, create_ticket,
  take_hold,
}
use ticket_system.Queue.Book.Created.{as_conflict-Holds}
use ticket_system.Queue.Views.{
  PublicTicket, get_public_ticket_by_hash, to_public, public_ticket_view,
}

find-append :
    (p r s : Ticket → Bool) (t : Ticket) (ts : List Ticket)
    → not (any (λ u. p u || r u || s u) ts) ≡ true
    → p t ≡ true
    → find p (ts ++ t ∷ []) ≡ some t
find-append p r s t [] free here = ground arith
find-append p r s t (u ∷ ts) free here = ground (arith, find-append p r s t ts)

-- The ticket of a token, in tables.
abbrev pub IsTicketOf : ℕ → Ticket × Db → Type 0
IsTicketOf hash (t, db) =
    (find (λ u. u.access_token_hash == hash) db.tickets ≡ some t)
    × (t.access_token_hash ≡ hash)
    × (t.status ≡ booked)

abbrev IsFound : Ticket → Db → Type 0
IsFound t db = find (λ u. u.access_token_hash == t.access_token_hash) db.tickets ≡ some t

insert_ticket-IsFound : (t : Ticket) (db : Db) → Holds (IsFound t) (insert_ticket t db)
unfolding insert_ticket
insert_ticket-IsFound t db =
    guard-Holds (IsFound t) _ duplicate_key
      (ok (record db { tickets = db.tickets ++ t ∷ []; next_id = db.next_id + 1 }))
      λ free.
        find-append (λ u. u.access_token_hash == t.access_token_hash) _ _ t db.tickets free
          (ground arith)

book_held-IsTicketOf :
    (cal : Calendar) (clock : SiteClock) (holds : List Hold) (env : Env) (i : WalkIn)
    (preferred : Option ℕ) (person : Person) (site : Site) (service : ServiceType) (db : Db)
    → Holds
        (IsTicketOf i.token_hash)
        (book_held cal clock holds env i preferred person site service db)
unfolding book_held event
book_held-IsTicketOf cal clock holds env i preferred person site service db =
    then-Holds {B = Ticket × Db} (IsTicketOf i.token_hash)
      (assert_slot_available cal holds env.now (walk_in_query i) db) _
      λ _ _.
        guard-Holds {B = Ticket × Db} (IsTicketOf i.token_hash)
          (not (any (is_phone_taken person.phone i.scheduled_at) db.tickets)) conflict _
          λ _.
            then-Holds {B = Ticket × Db} (IsTicketOf i.token_hash)
              (reserve_desk cal holds (walk_in_query i) preferred db) _
              λ d _.
                let t : Ticket =
                  booked_ticket env i person site service d
                    (count_today clock site i.site_id env.now db.tickets + 1) db.next_id in
                bind-Holds {B = Ticket × Db} (IsTicketOf i.token_hash) (IsFound t)
                  (as_conflict (insert_ticket t db)) _
                  (as_conflict-Holds (IsFound t) (insert_ticket t db) (insert_ticket-IsFound t db))
                  λ saved there. (there, refl, refl)

-- The ticket that an answer shows.
abbrev pub shown_id : Answer → Option ℕ
shown_id (shown p) = some p.id
shown_id _ = none

module _ {S : Type 0} (redis : Redis S) where
  create_with-IsTicketOf :
      (v : Visit) (i : WalkIn) (c : Checked) (db : Db) (m : Result HeldSlot × S)
      → Holds
          (IsTicketOf i.token_hash)
          (create_with redis v.spell v.calendar v.clock v.env i c db m).0
  unfolding create_with
  create_with-IsTicketOf v i c db (err e, st) = tt
  create_with-IsTicketOf v i c db (ok slot, st) =
      book_held-IsTicketOf v.calendar v.clock _ v.env i _ c.person c.site c.service db

  pub create_ticket-IsTicketOf :
      (v : Visit) (i : WalkIn) (hold_id : Text) (db : Db) (st : S)
      → Holds
          (IsTicketOf i.token_hash)
          (create_ticket redis v.spell v.calendar v.clock v.env i v.session_id hold_id db st).0
  unfolding create_ticket
  create_ticket-IsTicketOf v i hold_id db st = checked (check_ticket_input i db) refl
    where
      checked :
          (m : Result Checked)
          → check_ticket_input i db ≡ m
          → Holds
              (IsTicketOf i.token_hash)
              (create_ticket redis v.spell v.calendar v.clock v.env i v.session_id hold_id db st).0
      checked (err e) failed = rw (failed, create_ticket) tt
      checked (ok c) passed =
          rw (passed, create_ticket)
            (create_with-IsTicketOf v i c db
              (take_hold redis v.spell v.env v.session_id hold_id i.scheduled_at st))

  -- A ticket of the session's token that is not over is the active one.
  live-current :
      (v : Visit) (w : World S) (hash : ℕ) (t : Ticket)
      → w.session.ticket_token_hash ≡ some hash
      → find (λ u. u.access_token_hash == hash) w.db.tickets ≡ some t
      → t.status ≡ booked
      → shown_id (current redis v w).0 ≡ some t.id
  unfolding current find_active_ticket found_active shown_current get_public_ticket_by_hash
      public_ticket_view to_public
  live-current v w hash t token there status = rw (token, there, status) refl

  created-current :
      (v : Visit) (b : CreateBody) (w : World S) (id : ℕ) (m : Result (Ticket × Db) × S)
      → Holds (IsTicketOf b.input.token_hash) m.0
      → shown_id (created redis v b w m).0 ≡ some id
      → shown_id (current redis v (created redis v b w m).1).0 ≡ some id
  unfolding created to_public
  created-current v b w id (err e, st) h s = cc
  created-current v b w id (ok (t, db), st) (there, token, status) s =
      live-current v (created redis v b w (ok (t, db), st)).1 b.input.token_hash t (ap some token)
        there status
      ∙ s

  find_active_ticket-again :
      (v : Visit) (w after : World S) (hash : ℕ) (p : PublicTicket)
      → find_active_ticket redis v w ≡ (some (hash, p), after)
      → w ≡ after
  unfolding find_active_ticket found_active
  find_active_ticket-again v w after hash p h = elim (Option-cases w.session.ticket_token_hash) [
    | inl gone ↦ cc
    | inr (token, there) ↦
        elim (Option-cases (live_view (get_public_ticket_by_hash v.view v.env token w.db))) [
          | inl over ↦ cc (rw (there, over) at h)
          | inr (q, live) ↦ cc
        ]
  ]

  allowed-current :
      (v : Visit) (b : CreateBody) (w : World S) (id : ℕ) (o : Option (ℕ × PublicTicket) × World S)
      → find_active_ticket redis v w ≡ o
      → shown_id (create_allowed redis v b o).0 ≡ some id
      → shown_id (current redis v (create_allowed redis v b o).1).0 ≡ some id
  unfolding create_allowed current shown_current
  allowed-current v b w id (some (hash, p), after) h s =
      let same : w ≡ after = find_active_ticket-again v w after hash p h in
      let again : find_active_ticket redis v after ≡ (some (hash, p), after) =
        subst (λ x. find_active_ticket redis v x ≡ (some (hash, p), after)) same h in
      rw again s
  allowed-current v b w id (none, after) h s =
      created-current v b after id
        (create_ticket redis v.spell v.calendar v.clock v.env b.input v.session_id b.hold_id
          after.db after.store)
        (create_ticket-IsTicketOf v b.input b.hold_id after.db after.store) s

  limited-current :
      (v : Visit) (b : CreateBody) (w : World S) (id : ℕ) (l : Limited × S)
      → shown_id (create_limited redis v b w l).0 ≡ some id
      → shown_id (current redis v (create_limited redis v b w l).1).0 ≡ some id
  unfolding create_limited
  limited-current v b w id (wait seconds, st) s = cc
  limited-current v b w id (accepted, st) s =
      allowed-current v b (record w { store = st }) id _ refl s

  -- A visitor whom `create` answers with a ticket, a new one or the one that the session had, is shown the ticket with the same identifier by `current` at the same time.
  pub create-current :
      (v : Visit) (b : CreateBody) (w : World S) (id : ℕ)
      → shown_id (create redis v b w).0 ≡ some id
      → shown_id (current redis v (create redis v b w).1).0 ≡ some id
  unfolding create
  create-current v b w id s = elim (Bool-cases (is_filled b.website)) [
    | inl robot ↦ cc (rw robot at s)
    | inr person ↦ rw person (
        limited-current v b w id (assert_can_create_ticket redis v.env.now v.ip w.store)
          (rw person at s))
  ]
