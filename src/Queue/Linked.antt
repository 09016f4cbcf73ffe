-- ===== src/Queue/Linked.antt =====
-- What ties the tables `ticket` and `assignment` together, and the four ways in which the
-- operations of queue.service.ts change them.
pub mod Hand
pub mod Release
pub mod Client
pub mod Staff
pub mod Action
pub mod Desks
pub mod Sweep
pub mod Timer
pub mod Access
pub mod Total
pub mod Reschedule
pub mod Closing
pub mod Office
pub mod Purge
use ticket_system.Base.{
  ◌≢◌, In, inr, inl, Option-cases, find-count, ℕ, ◌+◌, ◌≤◌, ◌≡◌, Bool, true, false, List, [], ◌∷◌,
  ◌++◌, Option, none, some, arith, ◌==◌, bit, find, count, put, row, copies, copies-put, count-put,
  row-put, find-row, find-passes, find-none-count, count-append,
}
use ticket_system.Domain.{
  TicketStatus, assigned, called, in_service, includes, Ticket, Assignment, ticket_keyed,
  assignment_keyed,
}
use ticket_system.Queue.Store.{Db, is_active_on, is_active_of}
use ticket_system.Booking.Overlap.{
  IsDisjoint, place, holding, clashes, clashes-place, row-In, put-IsDisjoint,
}

-- A manager has the client: `MANAGER_IN_PROGRESS_STATUSES`.
abbrev pub in_progress : TicketStatus → Bool
in_progress s = includes (called ∷ assigned ∷ in_service ∷ []) s

pub in_progress-holding : (s : TicketStatus) → in_progress s ≡ true → holding s ≡ true
in_progress-holding s h = ground arith

abbrev pub busy : Option Ticket → ℕ
busy none = 0
busy (some t) = bit (in_progress t.status)

-- Rows have distinct keys below `next`; a ticket has one active assignment while a manager has the
-- client, and none otherwise; an employee has one active assignment at most; and no two bookings of
-- a desk overlap.
pub record Links (tickets : List Ticket) (assignments : List Assignment) (next : ℕ) : Type 0 where
  pub one_ticket : (i : ℕ) → copies i tickets ≤ 1
  pub one_assignment : (i : ℕ) → copies i assignments ≤ 1
  pub fresh_ticket : (i : ℕ) → next ≤ i → copies i tickets ≡ 0
  pub fresh_assignment : (i : ℕ) → next ≤ i → copies i assignments ≡ 0
  pub held : (i : ℕ) → count (is_active_on i) assignments ≡ busy (row i tickets)
  pub single : (e : ℕ) → count (is_active_of e) assignments ≤ 1
  pub apart : IsDisjoint tickets

abbrev pub IsLinked : Db → Type 0
IsLinked db = Links db.tickets db.assignments db.next_id

module _ {ts : List Ticket} {rows : List Assignment} {n : ℕ} (v : Links ts rows n) where
  -- The booking of a ticket that stays where it is, and does not come back to life, meets no other.
  pub same_place :
      (t t' : Ticket)
      → row t.id ts ≡ some t
      → t'.id ≡ t.id
      → place t' ≡ place t
      → (holding t'.status ≡ true → holding t.status ≡ true)
      → (u : Ticket) → In u ts
      → t'.id ≢ u.id
      → clashes t' u ≡ false
  same_place t t' found same stands lives u i other =
      clashes-place t t' u stands lives (v.apart t u (row-In t.id t ts found) i (λ e. other cc))

  -- The number of a row is drawn for another table.
  pub grow : Links ts rows (n + 1)
  grow = record {
    one_ticket = v.one_ticket;
    one_assignment = v.one_assignment;
    fresh_ticket = λ i h. v.fresh_ticket i (omega arith);
    fresh_assignment = λ i h. v.fresh_assignment i (omega arith);
    held = v.held;
    single = v.single;
    apart = v.apart;
  }

  -- A ticket is rewritten and stays with its manager, or without one.
  pub write_ticket :
      (t t' : Ticket)
      → row t.id ts ≡ some t
      → t'.id ≡ t.id
      → in_progress t'.status ≡ in_progress t.status
      → ((u : Ticket) → In u ts → t'.id ≢ u.id → clashes t' u ≡ false)
      → Links (put t' ts) rows n
  write_ticket t t' found same stays free = record {
    one_ticket = λ i. omega (arith, copies-put i t' ts, v.one_ticket i);
    one_assignment = v.one_assignment;
    fresh_ticket = λ i h. omega (arith, copies-put i t' ts, v.fresh_ticket i h);
    fresh_assignment = v.fresh_assignment;
    held = λ i. ground (arith, row-put i t' ts, v.held i);
    single = v.single;
    apart = put-IsDisjoint t' ts v.apart free;
  }

  -- The same where the booking stays.
  pub keep_ticket :
      (t t' : Ticket)
      → row t.id ts ≡ some t
      → t'.id ≡ t.id
      → place t' ≡ place t
      → (holding t'.status ≡ true → holding t.status ≡ true)
      → in_progress t'.status ≡ in_progress t.status
      → Links (put t' ts) rows n
  keep_ticket t t' found same stands lives stays =
      write_ticket t t' found same stays (same_place t t' found same stands lives)

  -- Times of an assignment are rewritten.
  pub keep_assignment :
      (a a' : Assignment)
      → row a.id rows ≡ some a
      → a'.id ≡ a.id
      → a'.ticket ≡ a.ticket
      → a'.employee ≡ a.employee
      → a'.active ≡ a.active
      → Links ts (put a' rows) n
  keep_assignment a a' found same on by act = record {
    one_ticket = v.one_ticket;
    one_assignment = λ i. omega (arith, copies-put i a' rows, v.one_assignment i);
    fresh_ticket = v.fresh_ticket;
    fresh_assignment = λ i h. omega (arith, copies-put i a' rows, v.fresh_assignment i h);
    held = λ i. ground (arith, count-put (is_active_on i) a' a rows, v.held i);
    single = λ e. ground (arith, count-put (is_active_of e) a' a rows, v.single e);
    apart = v.apart;
  }

  -- A row that any query finds is the row under its key.
  pub assignment_row :
      (p : Assignment → Bool) (a : Assignment) → find p rows ≡ some a → row a.id rows ≡ some a
  assignment_row p a has = find-row p a rows (v.one_assignment a.id) has

  pub ticket_row : (p : Ticket → Bool) (t : Ticket) → find p ts ≡ some t → row t.id ts ≡ some t
  ticket_row p t has = find-row p t ts (v.one_ticket t.id) has

  -- The ticket of an active assignment is with its manager.
  pub held_in_progress :
      (t : Ticket) (a : Assignment)
      → row t.id ts ≡ some t
      → row a.id rows ≡ some a
      → is_active_on t.id a ≡ true
      → in_progress t.status ≡ true
  held_in_progress t a found has on =
      ground (arith, v.held t.id, find-count (λ b. b.id == a.id) (is_active_on t.id) rows a has on)

  closes_held :
      (t t' : Ticket) (a a' : Assignment) (i : ℕ)
      → row t.id ts ≡ some t
      → t'.id ≡ t.id
      → in_progress t'.status ≡ false
      → row a.id rows ≡ some a
      → is_active_on t.id a ≡ true
      → a'.id ≡ a.id
      → a'.active ≡ false
      → count (is_active_on i) (put a' rows) ≡ busy (row i (put t' ts))
  closes_held t t' a a' i found same out has on key closed =
      ground (arith, count-put (is_active_on i) a' a rows, row-put i t' ts, v.held i)

  closes_single :
      (a a' : Assignment) (e : ℕ)
      → row a.id rows ≡ some a
      → a'.id ≡ a.id
      → a'.active ≡ false
      → count (is_active_of e) (put a' rows) ≤ 1
  closes_single a a' e found key closed =
      ground (arith, count-put (is_active_of e) a' a rows, v.single e)

  -- A manager lets go of a client: the ticket leaves the progress and its assignment is closed.
  pub finish :
      (t t' : Ticket) (a a' : Assignment)
      → row t.id ts ≡ some t
      → t'.id ≡ t.id
      → place t' ≡ place t
      → in_progress t'.status ≡ false
      → row a.id rows ≡ some a
      → is_active_on t.id a ≡ true
      → a'.id ≡ a.id
      → a'.active ≡ false
      → Links (put t' ts) (put a' rows) n
  finish t t' a a' found same stands out has on key closed = record {
    one_ticket = λ i. omega (arith, copies-put i t' ts, v.one_ticket i);
    one_assignment = λ i. omega (arith, copies-put i a' rows, v.one_assignment i);
    fresh_ticket = λ i h. omega (arith, copies-put i t' ts, v.fresh_ticket i h);
    fresh_assignment = λ i h. omega (arith, copies-put i a' rows, v.fresh_assignment i h);
    held = λ i. closes_held t t' a a' i found same out has on key closed;
    single = λ e. closes_single a a' e has key closed;
    apart = put-IsDisjoint t' ts v.apart (
        same_place t t' found same stands
          λ h. in_progress-holding t.status (held_in_progress t a found has on));
  }

  -- Where no assignment is active on a ticket, no manager has it.
  pub not_held :
      (t : Ticket)
      → row t.id ts ≡ some t
      → find (is_active_on t.id) rows ≡ none
      → in_progress t.status ≡ false
  not_held t found free = ground (arith, v.held t.id, find-none-count (is_active_on t.id) rows free)

  -- A manager takes a waiting client: the ticket comes into progress under a new assignment.
  pub begin :
      (t t' : Ticket) (a : Assignment)
      → row t.id ts ≡ some t
      → t'.id ≡ t.id
      → place t' ≡ place t
      → holding t.status ≡ true
      → in_progress t.status ≡ false
      → in_progress t'.status ≡ true
      → a.id ≡ n
      → a.active ≡ true
      → a.ticket ≡ t.id
      → find (is_active_of a.employee) rows ≡ none
      → Links (put t' ts) (rows ++ a ∷ []) (n + 1)
  begin t t' a found same stands lives waits goes key act on free = record {
    one_ticket = λ i. omega (arith, copies-put i t' ts, v.one_ticket i);
    one_assignment = λ i. ground (
      arith,
      count-append (λ (b : Assignment). b.id == i) rows (a ∷ []),
      v.one_assignment i,
      v.fresh_assignment i,
    );
    fresh_ticket = λ i h. ground (arith, copies-put i t' ts, v.fresh_ticket i);
    fresh_assignment = λ i h.
        ground
          (arith, count-append (λ (b : Assignment). b.id == i) rows (a ∷ []), v.fresh_assignment i);
    held =
        λ i. ground (arith, count-append (is_active_on i) rows (a ∷ []), row-put i t' ts, v.held i);
    single = λ e. ground (
      arith,
      count-append (is_active_of e) rows (a ∷ []),
      v.single e,
      find-none-count (is_active_of a.employee) rows free,
    );
    apart = put-IsDisjoint t' ts v.apart (same_place t t' found same stands λ h. lives);
  }

  -- And a ticket that no manager has is without an active assignment.
  pub free_of_waiting :
      (t : Ticket)
      → row t.id ts ≡ some t
      → in_progress t.status ≡ false
      → find (is_active_on t.id) rows ≡ none
  free_of_waiting t found waits = elim (Option-cases (find (is_active_on t.id) rows)) [
    | inl free ↦ free
    | inr (a, has) ↦ absurd (
        ground (
          arith,
          v.held t.id,
          find-count (is_active_on t.id) (is_active_on t.id) rows a has,
          find-passes (is_active_on t.id) rows a has,
        ))
  ]
