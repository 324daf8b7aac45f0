-- ===== src/Cli.antt =====
-- src/cli: the command line.
pub mod Texts
pub mod Print
pub mod Records
pub mod Json
pub mod App
