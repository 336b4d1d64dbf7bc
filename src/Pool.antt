-- ===== src/Pool.antt =====
-- internal/pool/pool.go: the bounded resource pool, one function per critical section.
-- A resource is the number of its creation; a waiter's channel is a number too, and `mail` holds
-- the grants that were sent on channels and not yet received. The head of `idle` is the end of the
-- Go slice, where resources are parked and taken.
pub mod Defs
pub mod System
pub mod Grants
pub mod Runs
pub mod Invariant
pub mod Custody
pub mod Fairness
pub mod Close
pub mod Examples
