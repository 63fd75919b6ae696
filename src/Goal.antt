-- ===== src/Goal.antt =====
-- The data contracts of the goal runtime, rust/ovca-types/src/goal_runtime.rs.
pub mod Ids
pub mod Policy
pub mod Task
pub mod Evidence
pub mod Run
pub mod Transition
