-- ===== src/Judge.antt =====
-- modules/judge: the service that keeps the recent points of each counter and raises alarm events.
pub mod LinkedList
pub mod Func
pub mod Events
pub mod Rules
pub mod Check
pub mod History
