-- ===== src/Cgrouplimits/HostMemInfo.antt =====
-- The struct for /proc/meminfo in cgrouplimits/host_linux.go.
use procstats.Base.{List, [], ◌∷◌}
use procstats.Pparser.Types.{int64, Field, tagged, untagged, unknown_fields}

-- `hostMemInfo`
abbrev pub host_mem_info : List Field
host_mem_info =
    untagged "MemTotal" int64
    ∷ untagged "MemFree" int64
    ∷ untagged "MemAvailable" int64
    ∷ untagged "Buffers" int64
    ∷ untagged "Cached" int64
    ∷ untagged "SwapCached" int64
    ∷ untagged "Active" int64
    ∷ untagged "Inactive" int64
    ∷ tagged "ActiveAnon" "Active(anon)" int64
    ∷ tagged "InactiveAnon" "Inactive(anon)" int64
    ∷ tagged "ActiveFile" "Active(file)" int64
    ∷ tagged "InactiveFile" "Inactive(file)" int64
    ∷ untagged "Unevictable" int64
    ∷ untagged "Mlocked" int64
    ∷ untagged "SwapTotal" int64
    ∷ untagged "SwapFree" int64
    ∷ untagged "Dirty" int64
    ∷ untagged "Writeback" int64
    ∷ untagged "AnonPages" int64
    ∷ untagged "Mapped" int64
    ∷ untagged "Shmem" int64
    ∷ untagged "KReclaimable" int64
    ∷ untagged "Slab" int64
    ∷ untagged "SReclaimable" int64
    ∷ untagged "SUnreclaim" int64
    ∷ untagged "KernelStack" int64
    ∷ untagged "PageTables" int64
    ∷ tagged "NFSUnstable" "NFS_Unstable" int64
    ∷ untagged "Bounce" int64
    ∷ untagged "WritebackTmp" int64
    ∷ untagged "CommitLimit" int64
    ∷ tagged "CommittedAS" "Committed_AS" int64
    ∷ untagged "VmallocTotal" int64
    ∷ untagged "VmallocUsed" int64
    ∷ untagged "VmallocChunk" int64
    ∷ untagged "Percpu" int64
    ∷ untagged "HardwareCorrupted" int64
    ∷ untagged "AnonHugePages" int64
    ∷ untagged "ShmemHugePages" int64
    ∷ untagged "ShmemPmdMapped" int64
    ∷ untagged "CmaTotal" int64
    ∷ untagged "CmaFree" int64
    ∷ tagged "HugePagesTotal" "HugePages_Total" int64
    ∷ tagged "HugePagesFree" "HugePages_Free" int64
    ∷ tagged "HugePagesRsvd" "HugePages_Rsvd" int64
    ∷ tagged "HugePagesSurp" "HugePages_Surp" int64
    ∷ untagged "Hugepagesize" int64
    ∷ untagged "Hugetlb" int64
    ∷ untagged "DirectMap4k" int64
    ∷ untagged "DirectMap2M" int64
    ∷ untagged "DirectMap1G" int64
    ∷ unknown_fields int64
    ∷ []
