-- ===== src/Sched.antt =====
-- private/P4/xv6-public: the process table of the kernel and its priority scheduler.
pub mod Table
pub mod Select
pub mod Clock
pub mod Life
pub mod Boot
pub mod Family
mod Tests
