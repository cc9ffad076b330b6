-- ===== src/Kernel.antt =====
-- private/P2/initial-xv6/src: parts of the xv6 kernel that the projects build on.
pub mod Pipe
pub mod Cache
pub mod Log
mod Tests
