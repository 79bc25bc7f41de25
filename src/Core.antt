-- ===== src/Core.antt =====
-- The shared types of crates/orch-core/src: task states, tasks, and the clock they are stamped by.
pub mod State
pub mod Time
pub mod Seconds
pub mod Task
pub mod Event
pub mod Words
