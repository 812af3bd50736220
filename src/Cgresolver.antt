-- ===== src/Cgresolver.antt =====
-- The package in cgresolver/: which cgroup a process is in, and where that cgroup is mounted.
pub mod Mountinfo
pub mod CgPath
pub mod ProcCgroup
