-- ===== src/Processes.antt =====
-- The package at the repository's root: the times and the memory of a process.
pub mod CpuTime
pub mod Stat
pub mod Status
pub mod Startup
pub mod Platform
pub mod Linux
pub mod Darwin
pub mod FreeBsd
