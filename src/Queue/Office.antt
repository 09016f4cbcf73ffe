-- ===== src/Queue/Office.antt =====
-- What an administrator sets up: `createDesk`, `updateDesk`, `createManager`, `updateManagerCountry`
-- of queue.service.ts, `createBlockedSlot` and `deleteBlockedSlot` of booking.service.ts. What the
-- identity provider answers is an argument, and so is the order in which labels are sorted. The reason
-- of a block is a text that nothing reads, and is left out.
use ticket_system.Base.{
  ℕ, ◌+◌, Bool, true, not, ◌&&◌, ◌||◌, List, [], ◌∷◌, ◌++◌, Option, none, some, ◌==◌, find, filter,
  row, is_id, is_some, ltb, if◌then◌else◌,
}
use ticket_system.Domain.{
  Text, ClientCountry, Desk, Site, Employee, BlockedSlot, Role, offline, desk_keyed, employee_keyed,
}
use ticket_system.Booking.{Calendar}
use ticket_system.Person.{trim}
use ticket_system.Queue.Store.{
  Db, Env, AuditAction, Result, ok, err, ◌>>=◌, ◌>>◌, guard, require, bad_request, not_found, audit,
}
use ticket_system.Queue.Staff.{active_site}
use ticket_system.Queue.Desks.{is_admin}
use ticket_system.Queue.Admin.{update_employee_country}

-- `label1 < label2` in the order of the database.
abbrev pub LabelOrder : Type 0
LabelOrder = Text → Text → Bool

-- A row at its place in the order of labels.
abbrev pub insert_desk : LabelOrder → Desk → List Desk → List Desk
insert_desk before d [] = d ∷ []
insert_desk before d (x ∷ xs) =
    let rest = insert_desk before d xs in if before d.label x.label then d ∷ x ∷ xs else x ∷ rest

abbrev pub new_desk : Env → Text → ℕ → ClientCountry → Option ℕ → ℕ → Desk
new_desk env label site country number id = record {
  id = id;
  label = trim label;
  display_number = number;
  country = country;
  active = true;
  created_at = env.now;
  site = site;
}

unfoldable pub create_desk :
    LabelOrder → Env → ℕ → Text → ℕ → ClientCountry → Option ℕ → Db → Result (Desk × Db)
create_desk before env subject label site_id country number db = do
  site ← require (find (λ s. s.id == site_id && s.active) db.sites) not_found
  let desk : Desk = new_desk env label site.id country number db.next_id
  ok (
    desk,
    audit (some subject) (AuditAction.desk_created desk.label site_id country number) desk.id
        (record db { desks = insert_desk before desk db.desks; next_id = db.next_id + 1 }),
  )

-- A column that is not given stays; the number may be given as `null`.
pub record DeskPatch : Type 0 where
  pub label : Option Text
  pub active : Option Bool
  pub country : Option ClientCountry
  pub display_number : Option (Option ℕ)

abbrev pub given_or {ℓ} : {A : Type ℓ} → Option A → A → A
given_or none old = old
given_or (some new) old = new

abbrev pub trimmed : Option Text → Option Text
trimmed none = none
trimmed (some t) = some (trim t)

unfoldable pub patch_desk : DeskPatch → Desk → Desk
patch_desk patch desk = record desk {
  label = given_or (trimmed patch.label) desk.label;
  active = given_or patch.active desk.active;
  country = given_or patch.country desk.country;
  display_number = given_or patch.display_number desk.display_number;
}

unfoldable pub update_desk : LabelOrder → ℕ → ℕ → DeskPatch → Db → Result (Desk × Db)
unfolding patch_desk
update_desk before subject desk_id patch db = do
  desk ← require (row desk_id db.desks) not_found
  let changed : Desk = patch_desk patch desk
  ok (
    changed,
    audit (some subject) AuditAction.desk_updated desk.id (record db {
      desks = insert_desk before changed (filter (λ d. not (d.id == desk_id)) db.desks);
    }),
  )

-- A user of the identity provider.
pub record ProviderUser : Type 0 where
  pub user_id : ℕ
  pub username : Text
  pub first_name : Text
  pub last_name : Text

abbrev pub joined_name : Text → Text → Text
joined_name first last = trim (trim first ++ 32 ∷ trim last)

abbrev pub new_manager : ℕ → Text → Site → ℕ → Employee
new_manager subject name site id = record {
  id = id;
  oidc_subject = subject;
  display_name = name;
  role = Role.employee;
  status = offline;
  site = some site.id;
  desk = none;
  country = none;
  service_type_ids = [];
}

abbrev pub add_employee : Employee → Db → Db
add_employee e db = record db { employees = db.employees ++ e ∷ []; next_id = db.next_id + 1 }

-- A row is written where there is none and there is a site.
unfoldable pub manager_row :
    ProviderUser → Option Employee → Option Site → Db → Option Employee × Db
manager_row user (some e) site db = (some e, db)
manager_row user none none db = (none, db)
manager_row user none (some site) db =
    let e : Employee =
      new_manager user.user_id (joined_name user.first_name user.last_name) site db.next_id in
    (some e, add_employee e db)

abbrev pub by_subject : ℕ → Db → Option Employee
by_subject subject db = find (λ e. e.oidc_subject == subject) db.employees

-- `user` is what the provider has created.
unfoldable pub create_manager : ℕ → ProviderUser → Db → Option Employee × Db
unfolding manager_row
create_manager subject user db =
    let (e, saved) = manager_row user (by_subject user.user_id db) (active_site db) db in
    (e, audit (some subject) (AuditAction.manager_created user.username) user.user_id saved)

-- The non-empty parts of a name, or else the name of the account.
abbrev pub provider_name : ProviderUser → Text
provider_name u = elim (named u.first_name u.last_name) [ [] ↦ u.username | c ∷ cs ↦ c ∷ cs ]
  where
    named : Text → Text → Text
    named [] last = trim last
    named (c ∷ cs) [] = trim (c ∷ cs)
    named (c ∷ cs) (d ∷ ds) = trim ((c ∷ cs) ++ 32 ∷ d ∷ ds)

-- The employee of a user; a row is saved for a user who has none.
unfoldable pub manager_of : List ProviderUser → ℕ → Option Employee → Db → Result (Employee × Db)
manager_of users subject (some e) db = ok (e, db)
manager_of users subject none db = do
  site ← require (active_site db) not_found
  user ← require (find (λ u. u.user_id == subject) users) not_found
  let e : Employee = new_manager subject (provider_name user) site db.next_id
  ok (e, add_employee e db)

-- The row stays saved where the change of the direction is refused.
unfoldable pub update_manager_country :
    Env → List ProviderUser → ℕ → ℕ → ClientCountry → Db → Db × Result Employee
unfolding manager_of
update_manager_country env users subject keycloak_id country db =
    elim (manager_of users keycloak_id (by_subject keycloak_id db) db) [
      | err e ↦ (db, err e)
      | ok (employee, saved) ↦ update_employee_country env subject employee.id country saved
    ]

abbrev pub new_block : ℕ → ℕ → ℕ → ℕ → ℕ → ℕ → BlockedSlot
new_block site employee date start end id = record {
  id = id;
  site = site;
  employee = employee;
  date = date;
  start_time = start;
  end_time = end;
}

-- Times are the minutes of the day.
unfoldable pub create_blocked_slot :
    Calendar → ℕ → ℕ → ℕ → ℕ → ℕ → ℕ → Db → Result (BlockedSlot × Db)
create_blocked_slot cal subject site_id employee_id date start end db = do
  guard (not (cal.is_weekend date)) bad_request
  guard (ltb start end) bad_request
  site ← require (find (λ s. s.id == site_id && s.active) db.sites) not_found
  employee ← require (row employee_id db.employees) not_found
  guard (not (is_admin employee.role)) bad_request
  guard (not (is_some employee.site) || is_id employee.site site_id) bad_request
  let block : BlockedSlot = new_block site.id employee.id date start end db.next_id
  ok (
    block,
    audit (some subject) (AuditAction.blocked_slot_created site_id employee_id date start end)
        block.id
        (record db { blocked_slots = db.blocked_slots ++ block ∷ []; next_id = db.next_id + 1 }),
  )

unfoldable pub delete_blocked_slot : ℕ → ℕ → Db → Db
delete_blocked_slot id subject db =
    audit (some subject) AuditAction.blocked_slot_deleted id
      (record db { blocked_slots = filter (λ b. not (b.id == id)) db.blocked_slots })
