-- ===== src/Queue/WalkIn/Created.antt =====
-- A ticket that is created keeps the tables linked and the bookings apart.
use ticket_system.Base.{
  ℕ, ◌+◌, ◌≡◌, refl, false, not, ◌&&◌, List, [], ◌∷◌, ◌++◌, none, some, arith, ◌==◌, any, row,
  copies, count-append, is_id, find, find-passes, Bool-cases, ◌⊎◌, inl, inr, In, sym, subst,
  if◌then◌else◌, is_some, ltb,
}
use ticket_system.Domain.{booked, Ticket, Desk, ticket_keyed, Site, ServiceType}
use ticket_system.Booking.{Calendar, Hold, assert_slot_available, reserve_desk, holds_slot}
use ticket_system.Booking.Reserve.{reserve_desk-holds_slot}
use ticket_system.Person.{Person, trim, or_empty}
use ticket_system.Booking.Overlap.{IsDisjoint, clashes, clashes_sym, is_id-some, meets-overlap_at}
use ticket_system.Queue.Store.{Db, Env, ok, event, not_found, bad_request, conflict, duplicate_key}
use ticket_system.Queue.Holds.{Holds, require-Holds, guard-Holds, bind-Holds, then-Holds}
use ticket_system.Queue.Linked.{IsLinked}
use ticket_system.Queue.WalkIn.{
  SiteClock, WalkIn, insert_ticket, new_ticket, walk_in_query, count_today, is_phone_taken,
  book_walk_in, create_walk_in_ticket, resolve_person, dates_fit,
}

row-append :
    (i : ℕ) (t : Ticket) (ts : List Ticket)
    → row i (ts ++ t ∷ [])
      ≡ (if is_some (row i ts) then row i ts else (if t.id == i then some t else none))
row-append i t [] = ground arith
row-append i t (u ∷ ts) = ground (arith, row-append i t ts)

row_of_copies : (i : ℕ) (ts : List Ticket) → copies i ts ≡ 0 → row i ts ≡ none
row_of_copies i [] h = refl
row_of_copies i (u ∷ ts) h = ground (arith, row_of_copies i ts)

In-append : (t x : Ticket) (ts : List Ticket) → In x (ts ++ t ∷ []) → (x ≡ t) ⊎ In x ts
In-append t x [] (inl e) = inl (sym e)
In-append t x [] (inr i) = elim i [ ]
In-append t x (u ∷ ts) (inl e) = inr (inl e)
In-append t x (u ∷ ts) (inr i) = elim (In-append t x ts i) [ inl e ↦ inl e | inr j ↦ inr (inr j) ]

append-IsDisjoint :
    (t : Ticket) (ts : List Ticket)
    → IsDisjoint ts
    → ((u : Ticket) → In u ts → clashes t u ≡ false)
    → IsDisjoint (ts ++ t ∷ [])
append-IsDisjoint t ts v free x y i j apart = both (In-append t x ts i) (In-append t y ts j)
  where
    both : (x ≡ t) ⊎ In x ts → (y ≡ t) ⊎ In y ts → clashes x y ≡ false
    both (inl e) (inl f) = absurd (apart cc)
    both (inl e) (inr k) = subst (λ z. clashes z y ≡ false) (sym e) (free y k)
    both (inr k) (inl f) = subst (λ z. clashes x z ≡ false) (sym f) (clashes_sym t x (free x k))
    both (inr k) (inr l) = v x y k l apart

-- A booked ticket under the next number.
pub append-IsLinked :
    (t : Ticket) (db : Db)
    → IsLinked db
    → t.id ≡ db.next_id
    → t.status ≡ booked
    → ((u : Ticket) → In u db.tickets → clashes t u ≡ false)
    → IsLinked (record db { tickets = db.tickets ++ t ∷ []; next_id = db.next_id + 1 })
append-IsLinked t db v key status free = record {
  one_ticket = λ i. ground (
    arith,
    count-append (λ (u : Ticket). u.id == i) db.tickets (t ∷ []),
    v.one_ticket i,
    v.fresh_ticket i,
  );
  one_assignment = v.one_assignment;
  fresh_ticket = λ i h.
      ground
        (arith, count-append (λ (u : Ticket). u.id == i) db.tickets (t ∷ []), v.fresh_ticket i);
  fresh_assignment = λ i h. v.fresh_assignment i (omega arith);
  held = λ i. ground (arith, row-append i t db.tickets, v.held i, status);
  single = v.single;
  apart = append-IsDisjoint t db.tickets v.apart free;
}

pub new_ticket-clashes :
    (env : Env) (i : WalkIn) (person : Person) (site : Site) (service : ServiceType) (d : Desk)
    (n id : ℕ) (u : Ticket)
    → site.id ≡ i.site_id
    → (u.reserved_desk ≡ some d.id → holds_slot (walk_in_query i) u ≡ false)
    → clashes (new_ticket env i person site service d n id) u ≡ false
unfolding holds_slot
new_ticket-clashes env i person site service d n id u here free =
    elim (Bool-cases (is_id u.reserved_desk d.id)) [
      | inr other ↦ ground arith
      | inl same ↦ ground (
        arith,
        free (is_id-some u.reserved_desk d.id same),
        meets-overlap_at (walk_in_query i) u,
        here,
      )
    ]

pub insert_ticket-IsLinked :
    (t : Ticket) (db : Db)
    → IsLinked db
    → t.id ≡ db.next_id
    → t.status ≡ booked
    → ((u : Ticket) → In u db.tickets → clashes t u ≡ false)
    → Holds IsLinked (insert_ticket t db)
unfolding insert_ticket
insert_ticket-IsLinked t db v key status free =
    guard-Holds IsLinked _ duplicate_key
      (ok (record db { tickets = db.tickets ++ t ∷ []; next_id = db.next_id + 1 }))
      λ _. append-IsLinked t db v key status free

book_walk_in-IsLinked :
    (cal : Calendar) (clock : SiteClock) (holds : List Hold) (env : Env) (i : WalkIn)
    (person : Person) (db : Db)
    → IsLinked db
    → Holds (λ r. IsLinked r.1) (book_walk_in cal clock holds env i person db)
unfolding book_walk_in event
book_walk_in-IsLinked cal clock holds env i person db v =
    require-Holds {B = Ticket × Db} (λ r. IsLinked r.1)
      (find (λ s. s.id == i.site_id && s.active) db.sites) not_found _
      λ site there.
        require-Holds {B = Ticket × Db} (λ r. IsLinked r.1)
          (find (λ s. s.id == i.service_type_id && s.active && s.site == i.site_id) db.services)
          not_found _
          λ service _.
            guard-Holds {B = Ticket × Db} (λ r. IsLinked r.1)
              (clock.date_in site.timezone i.scheduled_at == clock.date_in site.timezone env.now)
              bad_request _
              λ _.
                guard-Holds {B = Ticket × Db} (λ r. IsLinked r.1) (ltb env.now i.scheduled_at)
                  bad_request _
                  λ _.
                    then-Holds {B = Ticket × Db} (λ r. IsLinked r.1)
                      (assert_slot_available cal holds env.now (walk_in_query i) db) _
                      λ _ _.
                        guard-Holds {B = Ticket × Db} (λ r. IsLinked r.1)
                          (not (any (is_phone_taken person.phone i.scheduled_at) db.tickets))
                          conflict _
                          λ _.
                            then-Holds {B = Ticket × Db} (λ r. IsLinked r.1)
                              (reserve_desk cal holds (walk_in_query i) none db) _
                              λ d chosen.
                                bind-Holds {B = Ticket × Db} (λ r. IsLinked r.1) IsLinked
                                  (insert_ticket
                                    (new_ticket env i person site service d
                                      (count_today clock site i.site_id env.now db.tickets + 1)
                                      db.next_id)
                                    db)
                                  _
                                  (insert_ticket-IsLinked
                                    (new_ticket env i person site service d
                                      (count_today clock site i.site_id env.now db.tickets + 1)
                                      db.next_id)
                                    db v refl refl
                                    λ u j.
                                      new_ticket-clashes env i person site service d
                                        (count_today clock site i.site_id env.now db.tickets + 1)
                                        db.next_id u
                                        (ground (
                                          arith,
                                          find-passes (λ s. s.id == i.site_id && s.active) db.sites
                                              site there,
                                        ))
                                        (reserve_desk-holds_slot cal holds (walk_in_query i) none db
                                          d u chosen j))
                                  λ saved w. w

pub create_walk_in_ticket-IsLinked :
    (cal : Calendar) (clock : SiteClock) (holds : List Hold) (env : Env) (i : WalkIn) (db : Db)
    → IsLinked db
    → Holds (λ r. IsLinked r.1) (create_walk_in_ticket cal clock holds env i db)
unfolding create_walk_in_ticket
create_walk_in_ticket-IsLinked cal clock holds env i db v =
    then-Holds {B = Ticket × Db} (λ r. IsLinked r.1) (resolve_person i false) _
      λ person _.
        guard-Holds {B = Ticket × Db} (λ r. IsLinked r.1)
          (dates_fit i.country (trim (or_empty i.departure_date)) (trim (or_empty i.arrival_date)))
          bad_request _ λ _. book_walk_in-IsLinked cal clock holds env i person db v
