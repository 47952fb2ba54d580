-- ===== src/Threads.antt =====
-- Requests that run at the same time: the methods of the coordinator, step by step, beside the
-- handlers that hold the global lock.
pub mod Lock
pub mod Plan
pub mod System
pub mod Local
pub mod Invariant
pub mod Serial
pub mod Twice
pub mod Promise
pub mod Orders
pub mod Rank
pub mod Waiting
pub mod Finish
