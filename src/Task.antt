-- ===== src/Task.antt =====
-- os/src/task: identifiers and kernel stacks, the ready queue, and the tasks.
pub mod Id
pub mod Manager
pub mod Kernel
pub mod Process
pub mod Wait
pub mod Calls
pub mod Mmap
pub mod Life
pub mod Tcb
