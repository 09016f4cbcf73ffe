-- ===== src/Queue/Linked/Office.antt =====
-- What an administrator sets up keeps the tables linked.
use ticket_system.Base.{
  List, ℕ, ◌&&◌, ◌||◌, not, ltb, Option, none, some, ◌==◌, find, row, is_id, is_some,
}
use ticket_system.Domain.{
  Text, ClientCountry, Desk, BlockedSlot, Employee, Site, desk_keyed, employee_keyed,
}
use ticket_system.Booking.{Calendar}
use ticket_system.Queue.Store.{Db, Env, Result, ok, err, audit, not_found, bad_request}
use ticket_system.Queue.Staff.{active_site}
use ticket_system.Queue.Desks.{is_admin}
use ticket_system.Queue.Holds.{Holds, require-Holds, guard-Holds}
use ticket_system.Queue.Linked.{IsLinked, grow}
use ticket_system.Queue.Linked.Access.{transaction-IsLinked}
use ticket_system.Queue.Linked.Desks.{change_country-IsLinked}
use ticket_system.Queue.Admin.{change_country, update_employee_country}
use ticket_system.Queue.Office.{
  LabelOrder, create_desk, update_desk, DeskPatch, ProviderUser, manager_row, create_manager,
  by_subject, manager_of, update_manager_country, create_blocked_slot, delete_blocked_slot,
}

pub create_desk-IsLinked :
    (before : LabelOrder) (env : Env) (subject : ℕ) (label : Text) (site : ℕ) (c : ClientCountry)
    (number : Option ℕ) (db : Db)
    → IsLinked db
    → Holds (λ r. IsLinked r.1) (create_desk before env subject label site c number db)
unfolding create_desk audit
create_desk-IsLinked before env subject label site c number db v =
    require-Holds {B = Desk × Db} (λ r. IsLinked r.1)
      (find (λ s. s.id == site && s.active) db.sites) not_found _ λ s _. grow v

pub update_desk-IsLinked :
    (before : LabelOrder) (subject id : ℕ) (patch : DeskPatch) (db : Db)
    → IsLinked db
    → Holds (λ r. IsLinked r.1) (update_desk before subject id patch db)
unfolding update_desk audit
update_desk-IsLinked before subject id patch db v =
    require-Holds {B = Desk × Db} (λ r. IsLinked r.1) (row id db.desks) not_found _ λ d _. v

manager_row-IsLinked :
    (user : ProviderUser) (o : Option Employee) (s : Option Site) (db : Db)
    → IsLinked db
    → IsLinked (manager_row user o s db).1
unfolding manager_row
manager_row-IsLinked user (some e) s db v = v
manager_row-IsLinked user none none db v = v
manager_row-IsLinked user none (some s) db v = grow v

pub create_manager-IsLinked :
    (subject : ℕ) (user : ProviderUser) (db : Db)
    → IsLinked db
    → IsLinked (create_manager subject user db).1
unfolding create_manager audit
create_manager-IsLinked subject user db v =
    manager_row-IsLinked user (by_subject user.user_id db) (active_site db) db v

update_saved :
    (env : Env) (subject : ℕ) (c : ClientCountry) (db : Db) (m : Result (Employee × Db))
    → IsLinked db
    → Holds (λ r. IsLinked r.1) m
    → IsLinked
        (elim m as (λ _. Db × Result Employee) [
          | err e ↦ (db, err e)
          | ok (employee, saved) ↦ update_employee_country env subject employee.id c saved
        ]).0
unfolding update_employee_country
update_saved env subject c db (err e) v h = v
update_saved env subject c db (ok (e, saved)) v h =
    transaction-IsLinked (change_country env subject e.id c) saved h
      (change_country-IsLinked env subject e.id c saved h)

manager_of-IsLinked :
    (users : List ProviderUser) (subject : ℕ) (o : Option Employee) (db : Db)
    → IsLinked db
    → Holds (λ r. IsLinked r.1) (manager_of users subject o db)
unfolding manager_of
manager_of-IsLinked users subject (some e) db v = v
manager_of-IsLinked users subject none db v =
    require-Holds {B = Employee × Db} (λ r. IsLinked r.1) (active_site db) not_found _
      λ s _.
        require-Holds {B = Employee × Db} (λ r. IsLinked r.1)
          (find (λ u. u.user_id == subject) users) not_found _ λ u _. grow v

pub update_manager_country-IsLinked :
    (env : Env) (users : List ProviderUser) (subject user : ℕ) (c : ClientCountry) (db : Db)
    → IsLinked db
    → IsLinked (update_manager_country env users subject user c db).0
unfolding update_manager_country
update_manager_country-IsLinked env users subject user c db v =
    update_saved env subject c db (manager_of users user (by_subject user db) db) v
      (manager_of-IsLinked users user (by_subject user db) db v)

pub create_blocked_slot-IsLinked :
    (cal : Calendar) (subject site employee date start end : ℕ) (db : Db)
    → IsLinked db
    → Holds (λ r. IsLinked r.1) (create_blocked_slot cal subject site employee date start end db)
unfolding create_blocked_slot audit
create_blocked_slot-IsLinked cal subject site employee date start end db v =
    guard-Holds {B = BlockedSlot × Db} (λ r. IsLinked r.1) (not (cal.is_weekend date)) bad_request _
      λ _.
        guard-Holds {B = BlockedSlot × Db} (λ r. IsLinked r.1) (ltb start end) bad_request _
          λ _.
            require-Holds {B = BlockedSlot × Db} (λ r. IsLinked r.1)
              (find (λ s. s.id == site && s.active) db.sites) not_found _
              λ s _.
                require-Holds {B = BlockedSlot × Db} (λ r. IsLinked r.1) (row employee db.employees)
                  not_found _
                  λ e _.
                    guard-Holds {B = BlockedSlot × Db} (λ r. IsLinked r.1) (not (is_admin e.role))
                      bad_request _
                      λ _.
                        guard-Holds {B = BlockedSlot × Db} (λ r. IsLinked r.1)
                          (not (is_some e.site) || is_id e.site site) bad_request _ λ _. grow v

pub delete_blocked_slot-IsLinked :
    (id subject : ℕ) (db : Db) → IsLinked db → IsLinked (delete_blocked_slot id subject db)
unfolding delete_blocked_slot audit
delete_blocked_slot-IsLinked id subject db v = v
