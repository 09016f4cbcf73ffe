-- ===== src/Queue/Tests.antt =====
-- Runs of the service on a small site: one manager with a client, and one client who waits.
use ticket_system.Base.{
  inl, inr, row, ◌==◌, refl, ◌≡◌, ◌≤◌, ℕ, true, false, [], ◌∷◌, none, some, arith, count, is_some,
  List,
}
use ticket_system.Domain.{
  booked, Desk, Employee, Ticket, Assignment, TicketStatus, in_service, checked_in, reserved, rf,
  Role, ticket_keyed, employee_keyed,
}
use ticket_system.Rules.{complete, start, next_ticket_status}
use ticket_system.Queue.Store.{Db, Env, is_ok, is_active_on, is_active_of}
use ticket_system.Queue.Assign.{is_candidate, load, assign_next, pick_ticket}
use ticket_system.Queue.Assign.Pick.{pick_ticket-none, candidates, IsPick, pick_ticket-IsPick}
use ticket_system.Queue.Staff.{SessionUser, act_on}
use ticket_system.Queue.Sweep.{dispatch_all}
use ticket_system.Queue.Holds.{Holds}
use ticket_system.Queue.Desks.{seat_employee}
use ticket_system.Queue.Desks.Alone.{sits}
use ticket_system.Queue.Desks.Taken.{seat_employee-sits}
use ticket_system.Queue.Sweep.{mark_missed_appointments}
use ticket_system.Queue.Sweep.Kept.{mark_missed_appointments-can_check_in}
use ticket_system.Rules.{can_check_in, check_in_window}
use ticket_system.Queue.Sweep.Missed.{is_due_row, mark_missed_appointments-is_due_row}
use ticket_system.Queue.Linked.{IsLinked}
use ticket_system.Queue.Linked.Total.{assign_next-is_ok, dispatch_all-is_ok}
use ticket_system.Queue.Linked.Closing.{act_on_closing, act_on-next_ticket_status}
use ticket_system.Queue.Steps.{Reaches, step, run, act, check_in}
use ticket_system.Queue.Steps
use ticket_system.Queue.Steps.Reach.{
  Reaches-IsDisjoint, run-IsLinked, Reaches-in_progress, Reaches-one_client,
}
use ticket_system.Dispatch.{limit_one}
use ticket_system.Booking.Overlap.{clashes_sym, clashes, IsDisjoint}

abbrev pub ticket_of : ℕ → TicketStatus → Ticket
ticket_of i s = record {
  id = i;
  number = [];
  access_token_hash = 100;
  lookup_code_hash = none;
  status = s;
  call_attempts = 1;
  priority = 1;
  site = 1;
  service_type = 1;
  country = some rf;
  full_name = none;
  phone = none;
  departure_date = none;
  arrival_date = none;
  personal_data_consent_at = none;
  scheduled_at = some 3600000;
  checked_in_at = none;
  duration_minutes = 20;
  reserved_desk = some 3;
  client_notice = none;
  created_at = 5;
}

abbrev pub ann : Employee
ann = record {
  id = 4;
  oidc_subject = 7;
  display_name = [];
  role = Role.employee;
  status = reserved;
  site = some 1;
  desk = some 3;
  country = none;
  service_type_ids = [];
}

abbrev pub served : Assignment
served = record {
  id = 6;
  ticket = 5;
  employee = 4;
  desk = some 3;
  active = true;
  assigned_at = 10;
  called_at = some 11;
  started_at = none;
  completed_at = none;
}

abbrev pub one_desk : Desk
one_desk = record {
  id = 3;
  label = [];
  display_number = some 1;
  country = rf;
  active = true;
  created_at = 1;
  site = 1;
}

abbrev pub office : List Ticket → List Assignment → Db
office ts rows = record {
  sites = [];
  services = [];
  desks = one_desk ∷ [];
  employees = ann ∷ [];
  tickets = ts;
  assignments = rows;
  blocked_slots = [];
  events = [];
  audits = [];
  notified = [];
  next_id = 20;
}

-- A client who comes after the first one.
abbrev pub next_client : Ticket
next_client = record (ticket_of 8 checked_in) { scheduled_at = some 4800000 }

-- A client in service and one who waits.
abbrev pub working : Db
working = office (ticket_of 5 in_service ∷ next_client ∷ []) (served ∷ [])

-- A client who waits for a free manager.
abbrev pub waiting_room : Db
waiting_room = office (ticket_of 8 checked_in ∷ []) []

abbrev pub calm : Env
calm = record { now = 3600000; locked = λ _. false; updated_at = λ i. i }

abbrev pub ann_user : SessionUser
ann_user = record { subject = 7; display_name = []; is_admin = false }

pub one-IsDisjoint : (a : Ticket) → IsDisjoint (a ∷ [])
one-IsDisjoint a t u (inl e) (inl f) apart = absurd (apart cc)
one-IsDisjoint a t u (inr i) j apart = elim i [ ]
one-IsDisjoint a t u (inl e) (inr j) apart = elim j [ ]

two-IsDisjoint : (a b : Ticket) → clashes a b ≡ false → IsDisjoint (a ∷ b ∷ [])
two-IsDisjoint a b h t u (inl e) (inl f) apart = absurd (apart cc)
two-IsDisjoint a b h t u (inl e) (inr (inl f)) apart = cc
two-IsDisjoint a b h t u (inr (inl e)) (inl f) apart = cc (clashes_sym a b h)
two-IsDisjoint a b h t u (inr (inl e)) (inr (inl f)) apart = absurd (apart cc)
two-IsDisjoint a b h t u (inr (inr i)) j apart = elim i [ ]
two-IsDisjoint a b h t u (inl e) (inr (inr j)) apart = elim j [ ]
two-IsDisjoint a b h t u (inr (inl e)) (inr (inr j)) apart = elim j [ ]

pub working-IsLinked : IsLinked working
working-IsLinked = record {
  one_ticket = λ i. ground arith;
  one_assignment = λ i. ground arith;
  fresh_ticket = λ i h. ground arith;
  fresh_assignment = λ i h. ground arith;
  held = λ i. ground arith;
  single = λ e. ground arith;
  apart = two-IsDisjoint (ticket_of 5 in_service) next_client refl;
}

waiting_room-IsLinked : IsLinked waiting_room
waiting_room-IsLinked = record {
  one_ticket = λ i. ground arith;
  one_assignment = λ i. omega arith;
  fresh_ticket = λ i h. ground arith;
  fresh_assignment = λ i h. refl;
  held = λ i. ground arith;
  single = λ e. omega arith;
  apart = one-IsDisjoint (ticket_of 8 checked_in);
}

run-IsLinked_example : IsLinked (run calm (act ann_user 6 complete) working)
run-IsLinked_example = run-IsLinked calm (act ann_user 6 complete) working working-IsLinked

Reaches-in_progress_example : count (is_active_on 8) working.assignments ≡ 0
Reaches-in_progress_example =
    Reaches-in_progress working working next_client Steps.start working-IsLinked refl

Reaches-one_client_example :
    count (is_active_of 4) (run calm (act ann_user 6 complete) working).assignments ≤ 1
Reaches-one_client_example =
    Reaches-one_client working (run calm (act ann_user 6 complete) working) 4
      (step Steps.start calm (act ann_user 6 complete)) working-IsLinked

Reaches-IsDisjoint_example : IsDisjoint (run calm (act ann_user 6 complete) working).tickets
Reaches-IsDisjoint_example =
    Reaches-IsDisjoint working (run calm (act ann_user 6 complete) working)
      (step Steps.start calm (act ann_user 6 complete)) working-IsLinked

assign_next-is_ok_example : is_ok (assign_next calm (load waiting_room ann) waiting_room) ≡ true
assign_next-is_ok_example =
    assign_next-is_ok calm (load waiting_room ann) waiting_room waiting_room-IsLinked

dispatch_all-is_ok_example : is_ok (dispatch_all calm (ann ∷ []) waiting_room).1 ≡ true
dispatch_all-is_ok_example = dispatch_all-is_ok calm (ann ∷ []) waiting_room waiting_room-IsLinked

act_on_closing_example : Holds (λ r. r.0.1 ≡ none) (act_on calm ann 7 6 complete working)
act_on_closing_example = act_on_closing calm ann 7 6 complete working working-IsLinked refl

act_on-next_ticket_status_example :
    is_ok (act_on calm ann 7 6 start working) ≡ is_some (next_ticket_status in_service start true)
act_on-next_ticket_status_example =
    act_on-next_ticket_status calm ann 7 6 start working served (ticket_of 5 in_service)
      working-IsLinked refl refl

picks :
    pick_ticket calm (load waiting_room ann) rf 3 waiting_room.tickets
    ≡ some (ticket_of 8 checked_in)
unfolding pick_ticket is_candidate limit_one
picks = refl

pick_ticket-IsPick_example :
    IsPick calm (load waiting_room ann) rf 3 waiting_room.tickets (ticket_of 8 checked_in)
pick_ticket-IsPick_example =
    pick_ticket-IsPick calm (load waiting_room ann) rf 3 waiting_room.tickets
      (ticket_of 8 checked_in) picks

pick_ticket-none_example : candidates calm (load waiting_room ann) rf 3 [] ≡ []
unfolding pick_ticket limit_one
pick_ticket-none_example = pick_ticket-none calm (load waiting_room ann) rf 3 [] refl

seat_employee-sits_example :
    Holds (λ r. sits 4 3 r.1 ≡ (4 == 4)) (seat_employee calm 7 4 (some 3) waiting_room)
seat_employee-sits_example = seat_employee-sits calm 7 4 3 4 waiting_room

-- An hour after its time the appointment is due.
abbrev late : Env
late = record { now = 9000000; locked = λ _. false; updated_at = λ i. i }

mark_missed_appointments-is_due_row_example :
    is_due_row late.now (row 8 (mark_missed_appointments late waiting_room).tickets) ≡ false
mark_missed_appointments-is_due_row_example =
    mark_missed_appointments-is_due_row late 8 waiting_room (omega arith)

was_due : is_due_row late.now (row 8 waiting_room.tickets) ≡ true
was_due = refl

-- Five minutes before the slot.
abbrev early : Env
early = record { now = 3300000; locked = λ _. false; updated_at = λ i. i }

abbrev morning_room : Db
morning_room = office (ticket_of 8 booked ∷ []) []

may_check_in : can_check_in booked (some 3600000) 20 early.now ≡ true
unfolding can_check_in check_in_window
may_check_in = refl

mark_missed_appointments-can_check_in_example :
    row 8 (mark_missed_appointments early morning_room).tickets ≡ some (ticket_of 8 booked)
mark_missed_appointments-can_check_in_example =
    mark_missed_appointments-can_check_in early (ticket_of 8 booked) morning_room refl (omega arith)
      may_check_in
