-- ===== src/Contracts.antt =====
-- include/lx/contracts: the interfaces between the services and the system, over a type `W` of states
-- of the world. A call sees the world as it is then and leaves another: two calls with the same
-- arguments may answer differently.
use lx.Base.{ℕ, ℤ, Bool, List, Option, Bytes}
use lx.Domain.{
  Result, Void, Observation, ProcessInfo, ProcessSignal, SignalDelivery, SignalCapabilities,
  SocketInfo, SocketQuery, SocketOwnership, ServiceInfo, LogQuery, JournalEntry,
  SystemMetricsSample, ProcessCpuSample,
}

pub record ProcessProvider (W : Type 0) : Type 0 where
  pub get : ℤ → W → Result (Observation ProcessInfo) × W
  pub list : W → Result (Observation (List ProcessInfo)) × W

-- `wait_for_exit` takes milliseconds.
pub record SignalProvider (W : Type 0) : Type 0 where
  pub send : ℤ → ProcessSignal → W → Result SignalDelivery × W
  pub wait_for_exit : ℤ → ℕ → W → Result Bool × W
  pub capabilities : W → SignalCapabilities × W

pub record ServiceProvider (W : Type 0) : Type 0 where
  pub probe : W → Result Void × W
  pub list : W → Result (Observation (List ServiceInfo)) × W
  pub get : Bytes → W → Result (Observation ServiceInfo) × W
  pub unit_by_pid : ℤ → W → Result (Option Bytes) × W
  pub start : Bytes → W → Result Void × W
  pub stop : Bytes → W → Result Void × W
  pub restart : Bytes → W → Result Void × W

pub record SocketProvider (W : Type 0) : Type 0 where
  pub query : SocketQuery → W → Result (Observation (List SocketInfo)) × W

pub record SocketOwnerResolver (W : Type 0) : Type 0 where
  pub resolve : List ℕ → W → Result (Observation SocketOwnership) × W

-- `std::chrono::steady_clock` in nanoseconds, and `std::this_thread::sleep_for` in milliseconds.
pub record Clock (W : Type 0) : Type 0 where
  pub now : W → ℕ × W
  pub sleep_for : ℕ → W → Void × W

pub record SystemMetricsProvider (W : Type 0) : Type 0 where
  pub sample : W → Result SystemMetricsSample × W

pub record ProcessMetricsProvider (W : Type 0) : Type 0 where
  pub sample : W → Result (List ProcessCpuSample) × W

-- The sink of `follow` takes an entry, and the other function says whether to stop.
pub record JournalProvider (W : Type 0) : Type 0 where
  pub probe : W → Result Void × W
  pub query : LogQuery → W → Result (Observation (List JournalEntry)) × W
  pub follow :
      LogQuery
      → (Observation JournalEntry → W → Result Void × W)
      → (W → Bool × W)
      → W
      → Result Void × W
