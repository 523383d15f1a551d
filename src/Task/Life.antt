-- ===== src/Task/Life.antt =====
-- The life of the tasks under the calls of os/src/task and os/src/syscall/process.rs: a step for each call,
-- what holds after any steps from the first process on, and what follows for scheduling and waiting.
pub mod Counts
pub mod Returns
pub mod Sound
pub mod Birth
pub mod Death
pub mod Reaping
pub mod Identifiers
pub mod Creation
pub mod Steps
pub mod Reach
pub mod Dispatch
pub mod Waiting
pub mod Calls
pub mod Tests
