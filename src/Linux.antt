-- ===== src/Linux.antt =====
-- src/linux: what is read from the kernel and from systemd.
pub mod Errno
pub mod Procfs
pub mod Process
pub mod Systemd
