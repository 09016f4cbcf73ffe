-- ===== src/Queue/Book/Created.antt =====
-- A ticket that is created on a hold keeps the tables linked.
use ticket_system.Base.{
  true, ℕ, ◌+◌, ◌≡◌, refl, not, ◌&&◌, List, Option, arith, ◌==◌, any, find, find-passes,
}
use ticket_system.Domain.{Ticket, Site, ServiceType}
use ticket_system.Booking.{Calendar, Hold, assert_slot_available, reserve_desk}
use ticket_system.Booking.Reserve.{reserve_desk-holds_slot}
use ticket_system.Person.{Person}
use ticket_system.Queue.Store.{Error, Db, Env, Result, ok, err, conflict, event, not_found}
use ticket_system.Queue.Holds.{Holds, require-Holds, guard-Holds, bind-Holds, then-Holds}
use ticket_system.Queue.Linked.{IsLinked}
use ticket_system.Queue.WalkIn.{
  SiteClock, WalkIn, insert_ticket, walk_in_query, count_today, is_phone_taken, resolve_person,
}
use ticket_system.Queue.WalkIn.Created.{insert_ticket-IsLinked, new_ticket-clashes}
use ticket_system.Queue.Book.{
  as_conflict, booked_ticket, book_held, Checked, check_ticket_input, create_held,
}

pub as_conflict-Holds :
    {A : Type 0} → (P : A → Type 0) (m : Result A) → Holds P m → Holds P (as_conflict m)
as_conflict-Holds P (ok a) h = h
as_conflict-Holds P (err e) h = refused e
  where
    refused : (e : Error) → Holds P (as_conflict (err e))
    refused Error.bad_request = tt
    refused Error.conflict = tt
    refused Error.not_found = tt
    refused Error.forbidden = tt
    refused Error.entity_not_found = tt
    refused Error.duplicate_key = tt
    refused Error.foreign_key = tt

check_ticket_input-site :
    (i : WalkIn) (db : Db) → Holds (λ c. c.site.id ≡ i.site_id) (check_ticket_input i db)
unfolding check_ticket_input
check_ticket_input-site i db =
    then-Holds {B = Checked} (λ c. c.site.id ≡ i.site_id) (resolve_person i true) _
      λ person _.
        require-Holds {B = Checked} (λ c. c.site.id ≡ i.site_id)
          (find (λ s. s.id == i.site_id && s.active) db.sites) not_found _
          λ site there.
            require-Holds {B = Checked} (λ c. c.site.id ≡ i.site_id)
              (find (λ s. s.id == i.service_type_id && s.active && s.site == i.site_id) db.services)
              not_found _
              λ service _.
                ground (arith, find-passes (λ s. s.id == i.site_id && s.active) db.sites site there)

book_held-IsLinked :
    (cal : Calendar) (clock : SiteClock) (holds : List Hold) (env : Env) (i : WalkIn)
    (preferred : Option ℕ) (person : Person) (site : Site) (service : ServiceType) (db : Db)
    → IsLinked db
    → site.id ≡ i.site_id
    → Holds (λ r. IsLinked r.1) (book_held cal clock holds env i preferred person site service db)
unfolding book_held event
book_held-IsLinked cal clock holds env i preferred person site service db v here =
    then-Holds {B = Ticket × Db} (λ r. IsLinked r.1)
      (assert_slot_available cal holds env.now (walk_in_query i) db) _
      λ _ _.
        guard-Holds {B = Ticket × Db} (λ r. IsLinked r.1)
          (not (any (is_phone_taken person.phone i.scheduled_at) db.tickets)) conflict _
          λ _.
            then-Holds {B = Ticket × Db} (λ r. IsLinked r.1)
              (reserve_desk cal holds (walk_in_query i) preferred db) _
              λ d chosen.
                let n : ℕ = count_today clock site i.site_id env.now db.tickets + 1 in
                let t : Ticket = booked_ticket env i person site service d n db.next_id in
                bind-Holds {B = Ticket × Db} (λ r. IsLinked r.1) IsLinked
                  (as_conflict (insert_ticket t db)) _
                  (as_conflict-Holds IsLinked (insert_ticket t db) (
                    insert_ticket-IsLinked t db v refl refl λ u j.
                      new_ticket-clashes env i person site service d n db.next_id u here (
                        reserve_desk-holds_slot cal holds (walk_in_query i) preferred db d u chosen
                          j)))
                  λ saved w. w

pub create_held-IsLinked :
    (cal : Calendar) (clock : SiteClock) (holds : List Hold) (env : Env) (i : WalkIn)
    (preferred : Option ℕ) (db : Db)
    → IsLinked db
    → Holds (λ r. IsLinked r.1) (create_held cal clock holds env i preferred db)
unfolding create_held
create_held-IsLinked cal clock holds env i preferred db v =
    bind-Holds {B = Ticket × Db} (λ r. IsLinked r.1) (λ c. c.site.id ≡ i.site_id)
      (check_ticket_input i db) _ (check_ticket_input-site i db)
      λ c here.
        book_held-IsLinked cal clock holds env i preferred c.person c.site c.service db v here
