-- ===== src/Linux/Systemd.antt =====
-- src/linux/systemd: journal fields, and the service manager behind sd-bus.
pub mod JournalFields
pub mod SdBus
pub mod Messages
pub mod Units
pub mod ServiceProvider
pub mod References
pub mod SdJournal
pub mod JournalEntries
pub mod JournalProvider
pub mod Example
mod Tests
