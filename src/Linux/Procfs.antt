-- ===== src/Linux/Procfs.antt =====
-- src/linux/procfs: the parsers of /proc.
pub mod Cmdline
pub mod InodeResolver
pub mod Reader
pub mod Users
pub mod Processes
pub mod SocketFdTarget
pub mod Stat
pub mod CpuStat
pub mod Metrics
pub mod Memory
pub mod Status
mod Tests
