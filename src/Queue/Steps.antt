-- ===== src/Queue/Steps.antt =====
-- The service as a state machine: a call of the controller or a tick of the timer is a step on the
-- tables. A transaction that an exception undoes is a step that changes nothing.
pub mod Reach
use ticket_system.Base.{List, ℕ, Option}
use ticket_system.Booking.{Calendar, Hold}
use ticket_system.Queue.WalkIn.{SiteClock, WalkIn, create_walk_in_ticket}
use ticket_system.Queue.Book.{create_held}
use ticket_system.Queue.Reschedule.{reschedule_ticket}
use ticket_system.Domain.{Text, TicketStatus, EmployeeStatus, ClientCountry}
use ticket_system.Rules.{AssignmentAction}
use ticket_system.Queue.Store.{Db, Env, transaction}
use ticket_system.Queue.Manager.{check_in_by_hash, cancel_ticket_by_hash, mark_ticket_no_show}
use ticket_system.Queue.Staff.{SessionUser, set_ticket_status, assignment_action}
use ticket_system.Queue.Desks.{set_employee_status, assign_self_desk, assign_employee_desk}
use ticket_system.Queue.Admin.{update_employee_country, delete_desk}
use ticket_system.Queue.Office.{
  LabelOrder, DeskPatch, ProviderUser, create_desk, update_desk, create_manager,
  update_manager_country, create_blocked_slot, delete_blocked_slot,
}
use ticket_system.Queue.Retention.{RetentionConfig, purge_expired}
use ticket_system.Queue.Sweep.{mark_missed_appointments, dispatch_available}

pub data Operation : Type 0 where
  create_walk_in : Calendar → SiteClock → List Hold → WalkIn → Operation
  create : Calendar → SiteClock → List Hold → Option ℕ → WalkIn → Operation
  reschedule : Calendar → (ℕ → Text) → List Hold → ℕ → ℕ → ℕ → Operation
  check_in : ℕ → Operation
  cancel : ℕ → Operation
  mark_no_show : ℕ → ℕ → Operation
  set_status : SessionUser → ℕ → TicketStatus → Operation
  act : SessionUser → ℕ → AssignmentAction → Operation
  set_own_status : SessionUser → EmployeeStatus → Operation
  choose_desk : SessionUser → Option ℕ → Operation
  give_desk : ℕ → ℕ → Option ℕ → Operation
  change_direction : ℕ → ℕ → ClientCountry → Operation
  delete : ℕ → ℕ → Operation
  add_desk : LabelOrder → ℕ → Text → ℕ → ClientCountry → Option ℕ → Operation
  change_desk : LabelOrder → ℕ → ℕ → DeskPatch → Operation
  add_manager : ℕ → ProviderUser → Operation
  change_manager : List ProviderUser → ℕ → ℕ → ClientCountry → Operation
  block : Calendar → ℕ → ℕ → ℕ → ℕ → ℕ → ℕ → Operation
  unblock : ℕ → ℕ → Operation
  purge : RetentionConfig → Operation
  sweep : Operation
  dispatch : Operation

unfoldable pub run : Env → Operation → Db → Db
run env (create_walk_in cal clock holds input) db =
    (transaction (create_walk_in_ticket cal clock holds env input) db).0
run env (create cal clock holds preferred input) db =
    (transaction (create_held cal clock holds env input preferred) db).0
run env (reschedule cal label holds subject ticket at) db =
    (transaction (reschedule_ticket cal label holds env subject ticket at) db).0
run env (check_in hash) db = (transaction (check_in_by_hash env hash) db).0
run env (cancel hash) db = (transaction (cancel_ticket_by_hash env hash) db).0
run env (mark_no_show subject ticket) db =
    (transaction (mark_ticket_no_show env subject ticket) db).0
run env (set_status user ticket status) db = (set_ticket_status env user ticket status db).0
run env (act user assignment action) db = (assignment_action env user assignment action db).0
run env (set_own_status user status) db = (set_employee_status env user status db).0
run env (choose_desk user desk) db = (assign_self_desk env user desk db).0
run env (give_desk subject employee desk) db = (assign_employee_desk env subject employee desk db).0
run env (change_direction subject employee country) db =
    (update_employee_country env subject employee country db).0
run env (delete subject desk) db = (delete_desk subject desk db).0
run env (add_desk before subject label site country number) db =
    (transaction (create_desk before env subject label site country number) db).0
run env (change_desk before subject desk patch) db =
    (transaction (update_desk before subject desk patch) db).0
run env (add_manager subject user) db = (create_manager subject user db).1
run env (change_manager users subject user country) db =
    (update_manager_country env users subject user country db).0
run env (block cal subject site employee date start end) db =
    (transaction (create_blocked_slot cal subject site employee date start end) db).0
run env (unblock id subject) db = delete_blocked_slot id subject db
run env (purge config) db = (purge_expired config env db).1
run env sweep db = mark_missed_appointments env db
run env dispatch db = (dispatch_available env db).0

-- The tables that any sequence of steps leads to, each step at its own time.
pub data Reaches (db : Db) : Db → Type 0 where
  start : Reaches db db
  step : {db' : Db} → Reaches db db' → (env : Env) (o : Operation) → Reaches db (run env o db')
