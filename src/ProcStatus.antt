-- ===== src/ProcStatus.antt =====
-- The struct for /proc/<pid>/status in proc_pid_status_linux.go.
use procstats.Base.{List, [], ◌∷◌}
use procstats.Pparser.Types.{string, int64, uint8, uint64, Field, tagged, untagged, unknown_fields}

-- `ProcPidStatus`
abbrev pub proc_pid_status : List Field
proc_pid_status =
    untagged "Name" string
    ∷ untagged "Umask" uint8
    ∷ untagged "State" string
    ∷ untagged "Tgid" uint64
    ∷ untagged "Ngid" uint64
    ∷ untagged "Pid" uint64
    ∷ untagged "PPid" uint64
    ∷ untagged "TracerPid" uint64
    ∷ tagged "UID" "Uid" string
    ∷ tagged "GID" "Gid" string
    ∷ untagged "FDSize" int64
    ∷ untagged "Groups" string
    ∷ untagged "NStgid" uint64
    ∷ untagged "NSpid" uint64
    ∷ untagged "NSpgid" uint64
    ∷ untagged "NSsid" uint64
    ∷ tagged "VMPeak" "VmPeak" int64
    ∷ tagged "VMSize" "VmSize" int64
    ∷ tagged "VMLck" "VmLck" int64
    ∷ tagged "VMPin" "VmPin" int64
    ∷ tagged "VMHWM" "VmHWM" int64
    ∷ tagged "VMRSS" "VmRSS" int64
    ∷ untagged "RssAnon" int64
    ∷ untagged "RssFile" int64
    ∷ untagged "RssShmem" int64
    ∷ tagged "VMData" "VmData" int64
    ∷ tagged "VMStk" "VmStk" int64
    ∷ tagged "VMExe" "VmExe" int64
    ∷ tagged "VMLib" "VmLib" int64
    ∷ tagged "VMPTE" "VmPTE" int64
    ∷ tagged "VMSwap" "VmSwap" int64
    ∷ untagged "HugetlbPages" int64
    ∷ untagged "CoreDumping" int64
    ∷ untagged "Threads" int64
    ∷ untagged "SigQ" string
    ∷ untagged "SigPnd" string
    ∷ untagged "ShdPnd" string
    ∷ untagged "SigBlk" string
    ∷ untagged "SigIgn" string
    ∷ untagged "SigCgt" string
    ∷ untagged "CapInh" string
    ∷ untagged "CapPrm" string
    ∷ untagged "CapEff" string
    ∷ untagged "CapBnd" string
    ∷ untagged "CapAmb" string
    ∷ untagged "NoNewPrivs" string
    ∷ untagged "Seccomp" string
    ∷ tagged "SpeculationStoreBypass" "Speculation_Store_Bypass" string
    ∷ tagged "CpusAllowed" "Cpus_allowed" string
    ∷ tagged "CpusAllowedList" "Cpus_allowed_list" string
    ∷ tagged "MemsAllowed" "Mems_allowed" string
    ∷ tagged "MemsAllowedList" "Mems_allowed_list" string
    ∷ tagged "VoluntaryCtxtSwitches" "voluntary_ctxt_switches" int64
    ∷ tagged "NonvoluntaryCtxtSwitches" "nonvoluntary_ctxt_switches" int64
    ∷ unknown_fields string
    ∷ []
