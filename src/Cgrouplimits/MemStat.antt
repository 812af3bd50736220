-- ===== src/Cgrouplimits/MemStat.antt =====
-- The structs for memory.stat, memory.events and memory.oom_control in cgrouplimits/cgroup_linux.go.
use procstats.Base.{List, [], ◌∷◌}
use procstats.Pparser.Types.{int64, Field, tagged, unknown_fields}

-- `cg1MemoryStatContents`
abbrev pub cg1_memory_stat_contents : List Field
cg1_memory_stat_contents =
    tagged "Cache" "cache" int64
    ∷ tagged "RSS" "rss" int64
    ∷ tagged "RSSHuge" "rss_huge" int64
    ∷ tagged "Shmem" "shmem" int64
    ∷ tagged "MappedFile" "mapped_file" int64
    ∷ tagged "Dirty" "dirty" int64
    ∷ tagged "Writeback" "writeback" int64
    ∷ tagged "WorkingsetRefaultAnon" "workingset_refault_anon" int64
    ∷ tagged "WorkingsetRefaultFile" "workingset_refault_file" int64
    ∷ tagged "Swap" "swap" int64
    ∷ tagged "PgpgIn" "pgpgin" int64
    ∷ tagged "PgpgOut" "pgpgout" int64
    ∷ tagged "Pgfault" "pgfault" int64
    ∷ tagged "Pgmajfault" "pgmajfault" int64
    ∷ tagged "InactiveAnon" "inactive_anon" int64
    ∷ tagged "ActiveAnon" "active_anon" int64
    ∷ tagged "InactiveFile" "inactive_file" int64
    ∷ tagged "ActiveFile" "active_file" int64
    ∷ tagged "Unevictable" "unevictable" int64
    ∷ tagged "HierarchicalMemoryLimit" "hierarchical_memory_limit" int64
    ∷ tagged "HierarchicalMemswLimit" "hierarchical_memsw_limit" int64
    ∷ tagged "TotalCache" "total_cache" int64
    ∷ tagged "TotalRSS" "total_rss" int64
    ∷ tagged "TotalRSSHuge" "total_rss_huge" int64
    ∷ tagged "TotalShmem" "total_shmem" int64
    ∷ tagged "TotalMappedFile" "total_mapped_file" int64
    ∷ tagged "TotalDirty" "total_dirty" int64
    ∷ tagged "TotalWriteback" "total_writeback" int64
    ∷ tagged "TotalWorkingsetRefaultAnon" "total_workingset_refault_anon" int64
    ∷ tagged "TotalWorkingsetRefaultFile" "total_workingset_refault_file" int64
    ∷ tagged "TotalSwap" "total_swap" int64
    ∷ tagged "TotalPgpgIn" "total_pgpgin" int64
    ∷ tagged "TotalPgpgOut" "total_pgpgout" int64
    ∷ tagged "TotalPgFault" "total_pgfault" int64
    ∷ tagged "TotalPgMajFault" "total_pgmajfault" int64
    ∷ tagged "TotalInactiveAnon" "total_inactive_anon" int64
    ∷ tagged "TotalActiveAnon" "total_active_anon" int64
    ∷ tagged "TotalInactiveFile" "total_inactive_file" int64
    ∷ tagged "TotalActiveFile" "total_active_file" int64
    ∷ tagged "TotalUnevictable" "total_unevictable" int64
    ∷ unknown_fields int64
    ∷ []

-- `cg2MemoryStatContents`
abbrev pub cg2_memory_stat_contents : List Field
cg2_memory_stat_contents =
    tagged "Anon" "anon" int64
    ∷ tagged "File" "file" int64
    ∷ tagged "Kernel" "kernel" int64
    ∷ tagged "KernelStack" "kernel_stack" int64
    ∷ tagged "Pagetables" "pagetables" int64
    ∷ tagged "SecondaryPagetables" "sec_pagetables" int64
    ∷ tagged "PerCPU" "percpu" int64
    ∷ tagged "Sock" "sock" int64
    ∷ tagged "VMAlloc" "vmalloc" int64
    ∷ tagged "Shmem" "shmem" int64
    ∷ tagged "Zswap" "zswap" int64
    ∷ tagged "Zswapped" "zswapped" int64
    ∷ tagged "FileMapped" "file_mapped" int64
    ∷ tagged "FileDirty" "file_dirty" int64
    ∷ tagged "FileWriteback" "file_writeback" int64
    ∷ tagged "SwapCached" "swapcached" int64
    ∷ tagged "AnonTHP" "anon_thp" int64
    ∷ tagged "FileTHP" "file_thp" int64
    ∷ tagged "ShmemTHP" "shmem_thp" int64
    ∷ tagged "InactiveAnon" "inactive_anon" int64
    ∷ tagged "ActiveAnon" "active_anon" int64
    ∷ tagged "InactiveFile" "inactive_file" int64
    ∷ tagged "ActiveFile" "active_file" int64
    ∷ tagged "Unevictable" "unevictable" int64
    ∷ tagged "SlabReclaimable" "slab_reclaimable" int64
    ∷ tagged "SlabUnreclaimable" "slab_unreclaimable" int64
    ∷ tagged "SlabTotal" "slab" int64
    ∷ tagged "WorkingsetRefaultAnon" "workingset_refault_anon" int64
    ∷ tagged "WorkingsetRefaultFile" "workingset_refault_file" int64
    ∷ tagged "WorkingsetActivateAnon" "workingset_activate_anon" int64
    ∷ tagged "WorkingsetActivateFile" "workingset_activate_file" int64
    ∷ tagged "WorkingsetRestoreAnon" "workingset_restore_anon" int64
    ∷ tagged "WorkingsetRestoreFile" "workingset_restore_file" int64
    ∷ tagged "WorkingsetNodeReclaim" "workingset_nodereclaim" int64
    ∷ tagged "PgScan" "pgscan" int64
    ∷ tagged "PgSteal" "pgsteal" int64
    ∷ tagged "PgScanKswapd" "pgscan_kswapd" int64
    ∷ tagged "PgscanDirect" "pgscan_direct" int64
    ∷ tagged "PgstealKswapd" "pgsteal_kswapd" int64
    ∷ tagged "PgstealDirect" "pgsteal_direct" int64
    ∷ tagged "PgFault" "pgfault" int64
    ∷ tagged "PgMajFault" "pgmajfault" int64
    ∷ tagged "PgRefill" "pgrefill" int64
    ∷ tagged "PgActivate" "pgactivate" int64
    ∷ tagged "PgDeactivate" "pgdeactivate" int64
    ∷ tagged "PgLazyFree" "pglazyfree" int64
    ∷ tagged "PgLazyFreed" "pglazyfreed" int64
    ∷ tagged "ZswpIn" "zswpin" int64
    ∷ tagged "ZswpOut" "zswpout" int64
    ∷ tagged "ThpFaultAlloc" "thp_fault_alloc" int64
    ∷ tagged "ThpCollapseAlloc" "thp_collapse_alloc" int64
    ∷ unknown_fields int64
    ∷ []

-- `cg2MemEvents`
abbrev pub cg2_mem_events : List Field
cg2_mem_events =
    tagged "Low" "low" int64
    ∷ tagged "High" "high" int64
    ∷ tagged "Max" "max" int64
    ∷ tagged "OOMs" "oom" int64
    ∷ tagged "OOMKills" "oom_kill" int64
    ∷ tagged "OOMGroupKill" "oom_group_kill" int64
    ∷ unknown_fields int64
    ∷ []

-- `memCgroupOOMControl`
abbrev pub mem_cgroup_oom_control : List Field
mem_cgroup_oom_control =
    tagged "OomKillDisable" "oom_kill_disable" int64
    ∷ tagged "UnderOom" "under_oom" int64
    ∷ tagged "OomKill" "oom_kill" int64
    ∷ unknown_fields int64
    ∷ []
