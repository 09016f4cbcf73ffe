-- ===== src/Lib.antt =====
-- The ticket system: an electronic queue in which clients book a slot or come without one, check
-- in, and are handed to managers at desks.
--
-- The program's parts and the files that model them. Paths are from the repository's root.
--
-- Base: lists measured by native numbers, Boolean tests, and tables. A table is a list of rows
--   under numbers that stand for uuids; `row` reads a key and `put` is `save` of a row that is
--   there.
-- Domain: apps/api/src/domain/entities.ts. A record for each table, a data type for each
--   enumeration of strings. Dates are milliseconds since the epoch.
-- Rules: apps/api/src/queue/queue.rules.ts, all of it: `nextTicketStatus`, `canCancel`,
--   `canReleaseOnBreak`, `blocksBreak`, the windows for a check-in and for a missed appointment.
-- Dispatch: apps/api/src/queue/queue-dispatch.ts, all of it: the order in which waiting tickets
--   are handed out (`applyQueueDispatchOrder`), the manager's list, the direction of an
--   employee.
-- Presentation: apps/api/src/queue/ticket-presentation.ts: labels and progress that a client
--   sees, columns of the board, the statuses that a manager may set by hand.
-- Booking: apps/api/src/queue/booking.service.ts: the times of slots, `busyDeskIds` with
--   `heldDeskIds` of rate-limit.service.ts, `blockedDeskIds`, `isSlotFree`, `reserveDesk`,
--   `assertSlotAvailable`, and `listAvailableSlots` in Booking.Available. The calendar of the
--   runtime is a record of functions, and what `listHolds` returns an argument.
-- RateLimit: apps/api/src/queue/rate-limit.service.ts: holds of slots and the limit of tickets
--   of a client, over the commands of Redis as a record of functions. RateLimit.Laws states what
--   the commands do, and RateLimit.Memory is a server for which the laws hold.
-- Texts: what the code asks of strings, as lists of UTF-16 code units.
-- Board: apps/api/src/queue/queue.display.ts and `getPublicBoard` of queue.service.ts.
-- Person: apps/api/src/queue/person-input.ts, all of it: names, telephone numbers, dates of
--   travel.
-- Form: apps/client-web/src/person.ts and phone.ts: the page's checks of a person and its
--   writing of telephone numbers.
-- Queue: apps/api/src/queue/queue.service.ts, as functions on the tables that may fail.
--   Queue.Store has the tables, the exceptions, `event` and `audit`, and transactions: an
--   exception gives the tables as they were before. Queue.Assign has `assignNext` and
--   `assignSpecificTicket`; Queue.Manager `checkInByHash`, `markNoShow`, `cancelTicketByHash`;
--   Queue.Staff `ensureEmployee`, `setTicketStatus`, `assignmentAction`; Queue.Desks
--   `assignEmployeeDesk`, `assignSelfDesk`, `setEmployeeStatus` and what releases a client;
--   Queue.Admin `updateEmployeeCountry` and `deleteDesk`; Queue.Sweep `markMissedAppointments`,
--   `expireCalls`, `recoverBreakAssignments`, `dispatchAvailable`. Queue.Reschedule has
--   `rescheduleTicket`, Queue.WalkIn `createWalkInTicket`, Queue.Book `holdSlot`, `refreshHold`,
--   `createTicket`, Queue.Steps makes a step relation of all of them. Queue.Own has
--   `listEmployeeDesks`, `getQueueSummary` and why nobody waits. Queue.Linked states how the
--   tables `ticket` and `assignment` belong together.
-- Controller: the routes of apps/api/src/queue/queue.controller.ts for the ticket of a session,
--   as functions of a visit and of a world (session, tables, Redis). Controller.Asks says which
--   operation of Queue.Steps a request asks for, and which token the session has afterwards.
--
-- A method is a function of the environment (the clock, the rows that other transactions lock
-- and that `SKIP LOCKED` passes over, the column `updatedAt`), its arguments and the tables. A
-- method with `dataSource.transaction` is the body passed to `transaction`; long methods are cut
-- into the steps of their body. Transactions run one after the other: the row locks that the
-- methods take serialise those that meet. Loops run over lists that were read before, by
-- recursion on the list, so no fuel is needed; the loop over the minutes of a day has as much
-- fuel as a day has minutes, which is more than its rounds, and the digits of a number as much
-- as the number and one, which Queue.WalkIn.Numbers shows to be enough; the sweeps read a row
-- again before they change it, as the code does. A query by a relation is read as the filter of
-- its `where`, and rows stay in the order of the table. The text of a message in an exception,
-- and the data of an event beyond what names the change, are not kept. The constraint of the
-- database on foreign keys is modelled where the code may meet it.
--
-- Not modelled: the metrics, which are aggregates of SQL, and the lists of tickets that the
-- staff sees; authentication, the routes of the staff, the notifications and the pages of the
-- web clients. They are input and output, or rest on frameworks. The row locks of a query that
-- joins other tables (`rescheduleTicket`, `recoverBreakAssignments`) are taken to succeed: what
-- the database answers to such a lock is outside of the source.
pub mod Base
pub mod Domain
pub mod Texts
pub mod Booking
pub mod RateLimit
pub mod Board
pub mod Person
pub mod Form
pub mod Rules
pub mod Presentation
pub mod Dispatch
pub mod Queue
pub mod Controller
