-- ===== src/Query/Laws.antt =====
-- What the result of a query says: when it completes, what was checked before, and what is sent.
pub mod Completed
pub mod Isolation
pub mod Accepted
pub mod Ids
pub mod Shape
pub mod Completes
