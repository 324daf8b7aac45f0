-- ===== src/Application/PortService.antt =====
-- src/application/PortService.cpp: the sockets of a port with their owners, and the release of a port.
-- `Plan` compares release plans, `Inspect` lists ports, `Prepare` makes a plan and `Release` carries it
-- out. `clock` and `pid_order` stand for the C++ library: the clocks, and the order, which C++ leaves
-- open, in which an `unordered_set<pid_t>` is walked after these values were inserted.
pub mod Plan
pub mod Inspect
pub mod Prepare
pub mod Release
pub mod ManagedStop
pub mod Owners
pub mod Quiet
pub mod Signals
pub mod Safety
pub mod Deadline
pub mod Calls
mod Tests
use lx.Contracts.{SocketProvider, SocketOwnerResolver, Clock}
use lx.Application.ProcessService.{ProcessService}
use lx.Base.{Option, ℕ, List, ℤ}
use lx.Application.ServiceService.{ServiceService}

pub record PortService (W : Type 0) : Type 0 where
  pub socket_provider : SocketProvider W
  pub owner_resolver : SocketOwnerResolver W
  pub process_service : ProcessService W
  pub service_service : Option (ServiceService W)
  pub grace_period : ℕ
  pub clock : Clock W
  pub pid_order : List ℤ → List ℤ
