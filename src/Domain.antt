-- ===== src/Domain.antt =====
-- include/lx/domain: the values that the services exchange. `pid_t` and `int` are `ℤ`, the unsigned
-- types are `ℕ`, and texts are lists of bytes.
mod Outcome
mod Resources
mod Requests
pub use Outcome.*
pub use Resources.*
pub use Requests.*
