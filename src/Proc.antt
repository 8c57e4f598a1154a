-- ===== src/Proc.antt =====
-- kernel/proc.c and the scheduling part of kernel/trap.c.
pub mod Types
pub mod Mlfq
pub mod Table
pub mod Select
pub mod Switch
pub mod Starvation
pub mod Sleepers
pub mod Wait
mod Tests
