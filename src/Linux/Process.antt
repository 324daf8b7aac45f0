-- ===== src/Linux/Process.antt =====
-- src/linux/process: signals, by process handles or by kill(2).
pub mod Kernel
pub mod PidFd
pub mod SignalProvider
