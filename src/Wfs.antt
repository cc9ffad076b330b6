-- ===== src/Wfs.antt =====
-- private/P7: the log-structured file system.
pub mod Fsck
pub mod Disk
pub mod Ops
pub mod Names
pub mod Layout
pub mod Valid
pub mod Lookup
pub mod Directory
pub mod Create
pub mod Write
pub mod Unlink
mod Tests
