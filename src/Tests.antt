-- ===== src/Tests.antt =====
-- The theorems at concrete inputs, and tests of the definitions against values of the Go tests.
mod Resolver
mod Parser
mod Limits
mod Times
mod Files
mod Stats
mod Startup
mod Hierarchies
mod V1Stats
mod V1Cpu
mod Status
mod Unified
mod UnifiedMemory
mod UnifiedCpu
