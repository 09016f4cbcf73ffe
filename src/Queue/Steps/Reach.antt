-- ===== src/Queue/Steps/Reach.antt =====
-- What holds of the tables whatever the service does.
use ticket_system.Base.{some, ◌≡◌, row, bit, ℕ, ◌≤◌, count, arith}
use ticket_system.Domain.{Ticket, ticket_keyed}
use ticket_system.Queue.Store.{is_active_of, Db, Env, is_active_on}
use ticket_system.Queue.Manager.{check_in_by_hash, cancel_ticket_by_hash, mark_ticket_no_show}
use ticket_system.Queue.Desks.{seat_employee, assign_employee_desk}
use ticket_system.Queue.Admin.{change_country, drop_desk, update_employee_country, delete_desk}
use ticket_system.Queue.Linked.{in_progress, IsLinked}
use ticket_system.Queue.Linked.Client.{
  check_in_by_hash-IsLinked, cancel_ticket_by_hash-IsLinked, mark_ticket_no_show-IsLinked,
}
use ticket_system.Queue.Linked.Access.{
  transaction-IsLinked, set_ticket_status-IsLinked, assignment_action-IsLinked,
  set_employee_status-IsLinked, assign_self_desk-IsLinked,
}
use ticket_system.Queue.Linked.Desks.{
  seat_employee-IsLinked, change_country-IsLinked, drop_desk-IsLinked,
}
use ticket_system.Queue.Linked.Sweep.{mark_missed_appointments-IsLinked}
use ticket_system.Queue.Linked.Timer.{dispatch_available-IsLinked}
use ticket_system.Queue.Linked.Reschedule.{reschedule_ticket-IsLinked}
use ticket_system.Queue.Reschedule.{reschedule_ticket}
use ticket_system.Queue.WalkIn.Created.{create_walk_in_ticket-IsLinked}
use ticket_system.Queue.WalkIn.{create_walk_in_ticket}
use ticket_system.Queue.Book.{create_held}
use ticket_system.Queue.Book.Created.{create_held-IsLinked}
use ticket_system.Queue.Office.{create_desk, update_desk, create_blocked_slot}
use ticket_system.Queue.Linked.Office.{
  create_desk-IsLinked, update_desk-IsLinked, create_manager-IsLinked,
  update_manager_country-IsLinked, create_blocked_slot-IsLinked, delete_blocked_slot-IsLinked,
}
use ticket_system.Queue.Linked.Purge.{purge_expired-IsLinked}
use ticket_system.Queue.Steps.{
  add_desk, change_desk, add_manager, change_manager, block, unblock, purge, create, create_walk_in,
  reschedule, Operation, run, Reaches, start, step, check_in, cancel, mark_no_show, set_status, act,
  set_own_status, choose_desk, give_desk, change_direction, delete, sweep, dispatch,
}
use ticket_system.Booking.Overlap.{IsDisjoint}

-- Every operation keeps the tables linked: tickets keep distinct keys and so do assignments, below the next key to be given; a ticket has one active assignment while a manager has the client and none otherwise; an employee has one active assignment at most; and two tickets that hold slots at the same desk, of the same site and the same direction, do not overlap in time.
pub run-IsLinked : (env : Env) (o : Operation) (db : Db) → IsLinked db → IsLinked (run env o db)
unfolding run assign_employee_desk update_employee_country delete_desk
run-IsLinked env (create_walk_in cal clock holds input) db v =
    transaction-IsLinked (create_walk_in_ticket cal clock holds env input) db v
      (create_walk_in_ticket-IsLinked cal clock holds env input db v)
run-IsLinked env (create cal clock holds preferred input) db v =
    transaction-IsLinked (create_held cal clock holds env input preferred) db v
      (create_held-IsLinked cal clock holds env input preferred db v)
run-IsLinked env (reschedule cal label holds subject ticket at) db v =
    transaction-IsLinked (reschedule_ticket cal label holds env subject ticket at) db v
      (reschedule_ticket-IsLinked cal label holds env subject ticket at db v)
run-IsLinked env (check_in hash) db v =
    transaction-IsLinked (check_in_by_hash env hash) db v (check_in_by_hash-IsLinked env hash db v)
run-IsLinked env (cancel hash) db v =
    transaction-IsLinked (cancel_ticket_by_hash env hash) db v
      (cancel_ticket_by_hash-IsLinked env hash db v)
run-IsLinked env (mark_no_show subject ticket) db v =
    transaction-IsLinked (mark_ticket_no_show env subject ticket) db v
      (mark_ticket_no_show-IsLinked env subject ticket db v)
run-IsLinked env (set_status user ticket status) db v =
    set_ticket_status-IsLinked env user ticket status db v
run-IsLinked env (act user assignment action) db v =
    assignment_action-IsLinked env user assignment action db v
run-IsLinked env (set_own_status user status) db v =
    set_employee_status-IsLinked env user status db v
run-IsLinked env (choose_desk user desk) db v = assign_self_desk-IsLinked env user desk db v
run-IsLinked env (give_desk subject employee desk) db v =
    transaction-IsLinked (seat_employee env subject employee desk) db v
      (seat_employee-IsLinked env subject employee desk db v)
run-IsLinked env (change_direction subject employee country) db v =
    transaction-IsLinked (change_country env subject employee country) db v
      (change_country-IsLinked env subject employee country db v)
run-IsLinked env (delete subject desk) db v =
    transaction-IsLinked (drop_desk subject desk) db v (drop_desk-IsLinked subject desk db v)
run-IsLinked env (add_desk before subject label site country number) db v =
    transaction-IsLinked (create_desk before env subject label site country number) db v
      (create_desk-IsLinked before env subject label site country number db v)
run-IsLinked env (change_desk before subject desk patch) db v =
    transaction-IsLinked (update_desk before subject desk patch) db v
      (update_desk-IsLinked before subject desk patch db v)
run-IsLinked env (add_manager subject user) db v = create_manager-IsLinked subject user db v
run-IsLinked env (change_manager users subject user country) db v =
    update_manager_country-IsLinked env users subject user country db v
run-IsLinked env (block cal subject site employee date opens closes) db v =
    transaction-IsLinked (create_blocked_slot cal subject site employee date opens closes) db v
      (create_blocked_slot-IsLinked cal subject site employee date opens closes db v)
run-IsLinked env (unblock id subject) db v = delete_blocked_slot-IsLinked id subject db v
run-IsLinked env (purge config) db v = purge_expired-IsLinked config env db v
run-IsLinked env sweep db v = mark_missed_appointments-IsLinked env db v
run-IsLinked env dispatch db v = dispatch_available-IsLinked env db v

-- Tables that are linked at first are linked after any sequence of operations.
pub Reaches-IsLinked : (db db' : Db) → Reaches db db' → IsLinked db → IsLinked db'
Reaches-IsLinked db db' start v = v
Reaches-IsLinked db db' (step before env o) v =
    run-IsLinked env o _ (Reaches-IsLinked db _ before v)

-- After any sequence of operations on linked tables, a ticket has exactly one active assignment where its status is called, assigned or in service, and none otherwise.
pub Reaches-in_progress :
    (db db' : Db) (t : Ticket)
    → Reaches db db'
    → IsLinked db
    → row t.id db'.tickets ≡ some t
    → count (is_active_on t.id) db'.assignments ≡ bit (in_progress t.status)
Reaches-in_progress db db' t r v found = ground (arith, (Reaches-IsLinked db db' r v).held t.id)

-- After any sequence of operations on linked tables, an employee has one active assignment at most.
pub Reaches-one_client :
    (db db' : Db) (e : ℕ)
    → Reaches db db'
    → IsLinked db
    → count (is_active_of e) db'.assignments ≤ 1
Reaches-one_client db db' e r v = (Reaches-IsLinked db db' r v).single e

-- After any sequence of operations on linked tables, two tickets that hold slots at the same desk, of the same site and direction, do not overlap in time.
pub Reaches-IsDisjoint : (db db' : Db) → Reaches db db' → IsLinked db → IsDisjoint db'.tickets
Reaches-IsDisjoint db db' r v = (Reaches-IsLinked db db' r v).apart
