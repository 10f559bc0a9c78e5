-- ===== src/Outbox/Invariant.antt =====
-- Every operation on the outbox keeps its rows well formed, and moves each row along its life cycle.
pub mod Updates
pub mod Claims
pub mod Requests
