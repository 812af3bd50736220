-- ===== src/Cgrouplimits/HostVmStat.antt =====
-- The struct for /proc/vmstat in cgrouplimits/host_linux.go.
use procstats.Base.{List, [], ◌∷◌}
use procstats.Pparser.Types.{int64, Field, tagged, unknown_fields}

-- `hostVMStat`
abbrev pub host_vm_stat : List Field
host_vm_stat =
    tagged "NrFreePages" "nr_free_pages" int64
    ∷ tagged "NrZoneInactiveAnon" "nr_zone_inactive_anon" int64
    ∷ tagged "NrZoneActiveAnon" "nr_zone_active_anon" int64
    ∷ tagged "NrZoneInactiveFile" "nr_zone_inactive_file" int64
    ∷ tagged "NrZoneActiveFile" "nr_zone_active_file" int64
    ∷ tagged "NrZoneUnevictable" "nr_zone_unevictable" int64
    ∷ tagged "NrZoneWritePending" "nr_zone_write_pending" int64
    ∷ tagged "NrMlock" "nr_mlock" int64
    ∷ tagged "NrPageTablePages" "nr_page_table_pages" int64
    ∷ tagged "NrKernelStack" "nr_kernel_stack" int64
    ∷ tagged "NrBounce" "nr_bounce" int64
    ∷ tagged "NrZspages" "nr_zspages" int64
    ∷ tagged "NrFreeCma" "nr_free_cma" int64
    ∷ tagged "NumaHit" "numa_hit" int64
    ∷ tagged "NumaMiss" "numa_miss" int64
    ∷ tagged "NumaForeign" "numa_foreign" int64
    ∷ tagged "NumaInterleave" "numa_interleave" int64
    ∷ tagged "NumaLocal" "numa_local" int64
    ∷ tagged "NumaOther" "numa_other" int64
    ∷ tagged "NrInactiveAnon" "nr_inactive_anon" int64
    ∷ tagged "NrActiveAnon" "nr_active_anon" int64
    ∷ tagged "NrInactiveFile" "nr_inactive_file" int64
    ∷ tagged "NrActiveFile" "nr_active_file" int64
    ∷ tagged "NrUnevictable" "nr_unevictable" int64
    ∷ tagged "NrSlabReclaimable" "nr_slab_reclaimable" int64
    ∷ tagged "NrSlabUnreclaimable" "nr_slab_unreclaimable" int64
    ∷ tagged "NrIsolatedAnon" "nr_isolated_anon" int64
    ∷ tagged "NrIsolatedFile" "nr_isolated_file" int64
    ∷ tagged "WorkingsetNodes" "workingset_nodes" int64
    ∷ tagged "WorkingsetRefault" "workingset_refault" int64
    ∷ tagged "WorkingsetActivate" "workingset_activate" int64
    ∷ tagged "WorkingsetRestore" "workingset_restore" int64
    ∷ tagged "WorkingsetNodereclaim" "workingset_nodereclaim" int64
    ∷ tagged "NrAnonPages" "nr_anon_pages" int64
    ∷ tagged "NrMapped" "nr_mapped" int64
    ∷ tagged "NrFilePages" "nr_file_pages" int64
    ∷ tagged "NrDirty" "nr_dirty" int64
    ∷ tagged "NrWriteback" "nr_writeback" int64
    ∷ tagged "NrWritebackTemp" "nr_writeback_temp" int64
    ∷ tagged "NrShmem" "nr_shmem" int64
    ∷ tagged "NrShmemHugepages" "nr_shmem_hugepages" int64
    ∷ tagged "NrShmemPmdmapped" "nr_shmem_pmdmapped" int64
    ∷ tagged "NrAnonTransparentHugepages" "nr_anon_transparent_hugepages" int64
    ∷ tagged "NrUnstable" "nr_unstable" int64
    ∷ tagged "NrVmscanWrite" "nr_vmscan_write" int64
    ∷ tagged "NrVmscanImmediateReclaim" "nr_vmscan_immediate_reclaim" int64
    ∷ tagged "NrDirtied" "nr_dirtied" int64
    ∷ tagged "NrWritten" "nr_written" int64
    ∷ tagged "NrKernelMiscReclaimable" "nr_kernel_misc_reclaimable" int64
    ∷ tagged "NrDirtyThreshold" "nr_dirty_threshold" int64
    ∷ tagged "NrDirtyBackgroundThreshold" "nr_dirty_background_threshold" int64
    ∷ tagged "Pgpgin" "pgpgin" int64
    ∷ tagged "Pgpgout" "pgpgout" int64
    ∷ tagged "Pswpin" "pswpin" int64
    ∷ tagged "Pswpout" "pswpout" int64
    ∷ tagged "PgallocDma" "pgalloc_dma" int64
    ∷ tagged "PgallocDma32" "pgalloc_dma32" int64
    ∷ tagged "PgallocNormal" "pgalloc_normal" int64
    ∷ tagged "PgallocMovable" "pgalloc_movable" int64
    ∷ tagged "AllocstallDma" "allocstall_dma" int64
    ∷ tagged "AllocstallDma32" "allocstall_dma32" int64
    ∷ tagged "AllocstallNormal" "allocstall_normal" int64
    ∷ tagged "AllocstallMovable" "allocstall_movable" int64
    ∷ tagged "PgskipDma" "pgskip_dma" int64
    ∷ tagged "PgskipDma32" "pgskip_dma32" int64
    ∷ tagged "PgskipNormal" "pgskip_normal" int64
    ∷ tagged "PgskipMovable" "pgskip_movable" int64
    ∷ tagged "Pgfree" "pgfree" int64
    ∷ tagged "Pgactivate" "pgactivate" int64
    ∷ tagged "Pgdeactivate" "pgdeactivate" int64
    ∷ tagged "Pglazyfree" "pglazyfree" int64
    ∷ tagged "Pgfault" "pgfault" int64
    ∷ tagged "Pgmajfault" "pgmajfault" int64
    ∷ tagged "Pglazyfreed" "pglazyfreed" int64
    ∷ tagged "Pgrefill" "pgrefill" int64
    ∷ tagged "PgstealKswapd" "pgsteal_kswapd" int64
    ∷ tagged "PgstealDirect" "pgsteal_direct" int64
    ∷ tagged "PgscanKswapd" "pgscan_kswapd" int64
    ∷ tagged "PgscanDirect" "pgscan_direct" int64
    ∷ tagged "PgscanDirectThrottle" "pgscan_direct_throttle" int64
    ∷ tagged "ZoneReclaimFailed" "zone_reclaim_failed" int64
    ∷ tagged "Pginodesteal" "pginodesteal" int64
    ∷ tagged "SlabsScanned" "slabs_scanned" int64
    ∷ tagged "KswapdInodesteal" "kswapd_inodesteal" int64
    ∷ tagged "KswapdLowWmarkHitQuickly" "kswapd_low_wmark_hit_quickly" int64
    ∷ tagged "KswapdHighWmarkHitQuickly" "kswapd_high_wmark_hit_quickly" int64
    ∷ tagged "Pageoutrun" "pageoutrun" int64
    ∷ tagged "Pgrotated" "pgrotated" int64
    ∷ tagged "DropPagecache" "drop_pagecache" int64
    ∷ tagged "DropSlab" "drop_slab" int64
    ∷ tagged "OomKill" "oom_kill" int64
    ∷ tagged "NumaPteUpdates" "numa_pte_updates" int64
    ∷ tagged "NumaHugePteUpdates" "numa_huge_pte_updates" int64
    ∷ tagged "NumaHintFaults" "numa_hint_faults" int64
    ∷ tagged "NumaHintFaultsLocal" "numa_hint_faults_local" int64
    ∷ tagged "NumaPagesMigrated" "numa_pages_migrated" int64
    ∷ tagged "PgmigrateSuccess" "pgmigrate_success" int64
    ∷ tagged "PgmigrateFail" "pgmigrate_fail" int64
    ∷ tagged "CompactMigrateScanned" "compact_migrate_scanned" int64
    ∷ tagged "CompactFreeScanned" "compact_free_scanned" int64
    ∷ tagged "CompactIsolated" "compact_isolated" int64
    ∷ tagged "CompactStall" "compact_stall" int64
    ∷ tagged "CompactFail" "compact_fail" int64
    ∷ tagged "CompactSuccess" "compact_success" int64
    ∷ tagged "CompactDaemonWake" "compact_daemon_wake" int64
    ∷ tagged "CompactDaemonMigrateScanned" "compact_daemon_migrate_scanned" int64
    ∷ tagged "CompactDaemonFreeScanned" "compact_daemon_free_scanned" int64
    ∷ tagged "HtlbBuddyAllocSuccess" "htlb_buddy_alloc_success" int64
    ∷ tagged "HtlbBuddyAllocFail" "htlb_buddy_alloc_fail" int64
    ∷ tagged "UnevictablePgsCulled" "unevictable_pgs_culled" int64
    ∷ tagged "UnevictablePgsScanned" "unevictable_pgs_scanned" int64
    ∷ tagged "UnevictablePgsRescued" "unevictable_pgs_rescued" int64
    ∷ tagged "UnevictablePgsMlocked" "unevictable_pgs_mlocked" int64
    ∷ tagged "UnevictablePgsMunlocked" "unevictable_pgs_munlocked" int64
    ∷ tagged "UnevictablePgsCleared" "unevictable_pgs_cleared" int64
    ∷ tagged "UnevictablePgsStranded" "unevictable_pgs_stranded" int64
    ∷ tagged "ThpFaultAlloc" "thp_fault_alloc" int64
    ∷ tagged "ThpFaultFallback" "thp_fault_fallback" int64
    ∷ tagged "ThpCollapseAlloc" "thp_collapse_alloc" int64
    ∷ tagged "ThpCollapseAllocFailed" "thp_collapse_alloc_failed" int64
    ∷ tagged "ThpFileAlloc" "thp_file_alloc" int64
    ∷ tagged "ThpFileMapped" "thp_file_mapped" int64
    ∷ tagged "ThpSplitPage" "thp_split_page" int64
    ∷ tagged "ThpSplitPageFailed" "thp_split_page_failed" int64
    ∷ tagged "ThpDeferredSplitPage" "thp_deferred_split_page" int64
    ∷ tagged "ThpSplitPmd" "thp_split_pmd" int64
    ∷ tagged "ThpSplitPud" "thp_split_pud" int64
    ∷ tagged "ThpZeroPageAlloc" "thp_zero_page_alloc" int64
    ∷ tagged "ThpZeroPageAllocFailed" "thp_zero_page_alloc_failed" int64
    ∷ tagged "ThpSwpout" "thp_swpout" int64
    ∷ tagged "ThpSwpoutFallback" "thp_swpout_fallback" int64
    ∷ tagged "BalloonInflate" "balloon_inflate" int64
    ∷ tagged "BalloonDeflate" "balloon_deflate" int64
    ∷ tagged "BalloonMigrate" "balloon_migrate" int64
    ∷ tagged "NrTlbRemoteFlush" "nr_tlb_remote_flush" int64
    ∷ tagged "NrTlbRemoteFlushReceived" "nr_tlb_remote_flush_received" int64
    ∷ tagged "NrTlbLocalFlushAll" "nr_tlb_local_flush_all" int64
    ∷ tagged "NrTlbLocalFlushOne" "nr_tlb_local_flush_one" int64
    ∷ tagged "VmacacheFindCalls" "vmacache_find_calls" int64
    ∷ tagged "VmacacheFindHits" "vmacache_find_hits" int64
    ∷ tagged "SwapRa" "swap_ra" int64
    ∷ tagged "SwapRaHit" "swap_ra_hit" int64
    ∷ unknown_fields int64
    ∷ []
