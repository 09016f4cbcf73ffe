-- ===== src/Queue.antt =====
-- The queue of tickets: apps/api/src/queue/queue.service.ts. Its parts are the children.
pub mod Store
pub mod Linked
pub mod Assign
pub mod Holds
pub mod Manager
pub mod Staff
pub mod Desks
pub mod Admin
pub mod Sweep
pub mod WalkIn
pub mod Book
pub mod Office
pub mod Retention
pub mod Views
pub mod Own
pub mod Reschedule
pub mod Steps
pub mod Tests
