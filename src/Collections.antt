-- ===== src/Collections.antt =====
-- The ordered collections of the standard library that the runtime keeps its state in.
pub mod Order
pub mod BTreeMap
pub mod BTreeSet
pub mod Slice
pub mod Equality
