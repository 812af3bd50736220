-- ===== src/Cgrouplimits.antt =====
-- The package in cgrouplimits/: the limits and the usage of the process's cgroups and of the host.
pub mod MemStat
pub mod CpuStat
pub mod HostMemInfo
pub mod HostVmStat
pub mod MemLimit
pub mod CpuLimit
pub mod Search
pub mod MemUsage
pub mod Host
pub mod CpuUsage
pub mod Platform
pub mod Cpu
pub mod Memory
