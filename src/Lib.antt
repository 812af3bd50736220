-- ===== src/Lib.antt =====
-- procstats reads what Linux tells of processes, control groups and the host, and reports times,
-- memory and limits. This library models its core and proves it correct.
--
-- Parts, and the file that models each:
--   Base, Go           shared types and lemmas; Go's strings, strconv and filepath on byte lists;
--                      files as a function of the path (Go.Files), float64 as a parameter (Go.Float)
--   Pparser            pparser/proc_human_parser.go: the parser of key-value files into structs.
--                      Types are struct types and values, Index is fieldIndex and
--                      NewLineKVFileParser, Setters are the setters, Parse is Parse, Fields is what
--                      callers do with a struct; proofs in Typed. Dict reads a file as a
--                      dictionary from names to values, without structs and index: Dict.Lines is
--                      that reading, Dict.Refine relates Parse to it, Dict.Rows and Dict.Render print files
--   Cgresolver         cgresolver/: Mountinfo is mountinfo_parse.go, with proofs in its children;
--                      CgPath is Parent of cg_path.go and the loop over a cgroup's ancestors.
--                      ProcCgroup is proc_cgroup.go, its children Table (/proc/cgroups) and Resolve
--                      (subsystemPath of cg_path.go and the readers of files); proofs in the
--                      other children, where Lines and Cgroups print the files and Composed puts
--                      the three parsers together
--   Cgrouplimits       cgrouplimits/: the structs that the parser fills; MemLimit is readIntValFile and
--                      GetCgroupMemoryLimit of cgroup_linux.go, CpuLimit is
--                      GetCgroupCPULimit, MemUsage is GetCgroupMemoryStats, CpuUsage is
--                      GetCgroupCPUStats, Host is host_linux.go; Search is what their loops over
--                      statistics share. Platform is the interface that these fill on Linux, and
--                      cgroup_darwin.go and host_null.go elsewhere; its clients are Cpu, which is CPU
--                      and CPUStat (cpu.go), and Memory, which is MemStats (memory.go); proofs in
--                      their children, where IntFile, Kernel and Rendered describe the files of the
--                      kernel for each of them
--   Processes          pstats.go and proc_stats_linux.go: CpuTime, Stat (times and resident memory),
--                      Startup (init and its goroutine); Status is proc_pid_status_linux.go.
--                      Platform is the functions of pstats.go over an interface that Linux, Darwin
--                      (proc_stats_darwin.go) and FreeBsd (proc_stats_bsd.go, proc_stats_null.go) fill
--   ProcStatus         the struct of proc_pid_status_linux.go
--   Tests              theorems at concrete inputs, and tests
--
-- Strings and byte slices are lists of bytes. Errors are values that name the place in the code; their
-- texts are not modelled. A struct is the list of its fields' values, which is how the parser sees it
-- through reflect; int64 and uint64 are integers with wrap-around written out, and int has 64 bits.
-- The parser writes its struct in place, so an error result carries the struct as it was left.
--
-- Fuel: the loop of unOctalEscape gets one round more than its input has bytes, and the loop over
-- ancestors takes its fuel as an argument, for limits and statistics one more than the bytes of the
-- path; theorems below say that this is enough. The goroutine of init may run for ever, so that its
-- rounds are counted by fuel.
--
-- The files are a snapshot: they do not change while a call runs, but for the goroutine of init, which
-- has one snapshot for each round. The clock tick, the page size, the number of CPUs, the writing of
-- a file and, elsewhere than on Linux, what the kernel tells of a process are parameters.
--
-- Not modelled: texts of errors; sleeping and the ticker of the goroutine; the cgo bindings of
-- sysconf, one call of the C library each, whose value is the clock tick.
pub mod Base
pub mod Cgresolver
pub mod Cgrouplimits
pub mod Go
pub mod Pparser
pub mod ProcStatus
pub mod Processes
pub mod Tests
