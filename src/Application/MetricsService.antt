-- ===== src/Application/MetricsService.antt =====
-- src/application/MetricsService.cpp and StatusService.cpp: the load between two samples. A percentage
-- is the exact quotient that the program computes as a double.
pub mod Percentages
mod Tests
use lx.Base.{
  some, none, [], ◌∷◌, nat_Eq, list_Eq, int_Eq, option_Eq, ℤ, ℕ, Bool, Option, if◌then◌else◌, List,
  leb, ltb, ◌==◌, ◌-◌, not, ◌||◌, ◌&&◌, ◌*◌,
}
use lx.Domain.{
  success, failure, CpuTimes, MetricsSnapshot, SystemMetricsSample, Fraction, MetricsView,
  HostStatus, ProcessCpuSample, Void,
}
use lx.Exec.{◌>>=◌, ◌>>◌, Action, ask, observe, pure}
use lx.Contracts.{SystemMetricsProvider, ProcessMetricsProvider}

-- `max<uint32_t>(1, count)`
unfoldable pub at_least_one_cpu : ℕ → ℕ
at_least_one_cpu count = if ltb 1 count then count else 1

-- `std::clamp(value, 0.0, maximum)`
unfoldable pub clamp : Fraction → ℕ → Fraction
clamp value maximum =
    if ltb (maximum * value.denominator) value.numerator
    then record { numerator = maximum; denominator = 1 }
    else value

unfoldable pub memory_used : SystemMetricsSample → ℕ
memory_used system =
    if leb system.memory_available_bytes system.memory_total_bytes
    then system.memory_total_bytes - system.memory_available_bytes
    else 0

-- The test of the outer `if`: time has passed, and the idle time did not go back.
unfoldable pub comparable : CpuTimes → CpuTimes → Bool
comparable previous current =
    ltb previous.total_ticks current.total_ticks && leb previous.idle_ticks current.idle_ticks

unfoldable pub host_percent : CpuTimes → CpuTimes → Option Fraction
unfolding comparable clamp
host_percent previous current =
    let total = current.total_ticks - previous.total_ticks in
    let idle = current.idle_ticks - previous.idle_ticks in
    if comparable previous current && leb idle total
    then some (clamp (record { numerator = 100 * (total - idle); denominator = total }) 100)
    else none

unfoldable pub later_or :
    Option ProcessCpuSample → Option ProcessCpuSample → Option ProcessCpuSample
later_or (some later) sample = some later
later_or none sample = sample

-- `old.find(pid)`; of two samples of a PID the later counts
unfoldable pub old_sample : ℤ → List ProcessCpuSample → Option ProcessCpuSample
unfolding later_or
old_sample pid [] = none
old_sample pid (p ∷ rest) = later_or (old_sample pid rest) (if p.pid == pid then some p else none)

unfoldable pub process_percent :
    ℕ → ℕ → ProcessCpuSample → Option ProcessCpuSample → Option Fraction
unfolding clamp
process_percent total cpus process none = none
process_percent total cpus process (some found) =
    if not (found.start_time_ticks == process.start_time_ticks)
      || ltb process.cpu_time_ticks found.cpu_time_ticks
    then none
    else some (
        clamp
          (record {
            numerator = 100 * (process.cpu_time_ticks - found.cpu_time_ticks) * cpus;
            denominator = total;
          })
          (100 * cpus))

-- `processCpuPercent[pid] = value`
unfoldable pub assign : ℤ → Fraction → List (ℤ × Fraction) → List (ℤ × Fraction)
assign pid value [] = (pid, value) ∷ []
assign pid value ((p, v) ∷ rest) =
    let more = assign pid value rest in if p == pid then (p, value) ∷ rest else (p, v) ∷ more

unfoldable pub assign_some : ℤ → Option Fraction → List (ℤ × Fraction) → List (ℤ × Fraction)
assign_some pid none percents = percents
assign_some pid (some value) percents = assign pid value percents

-- the loop over the processes of the current sample
unfoldable pub process_percents :
    ℕ
    → ℕ
    → List ProcessCpuSample
    → List ProcessCpuSample
    → List (ℤ × Fraction)
    → List (ℤ × Fraction)
unfolding assign_some
process_percents total cpus old [] percents = percents
process_percents total cpus old (p ∷ rest) percents =
    process_percents total cpus old rest
      (assign_some p.pid (process_percent total cpus p (old_sample p.pid old)) percents)

unfoldable pub compare : MetricsSnapshot → MetricsSnapshot → MetricsView
compare previous current =
    let before = previous.system.cpu in
    let after = current.system.cpu in
    record {
      host = record {
        hostname = current.system.hostname;
        cpu_percent = host_percent before after;
        memory_total_bytes = current.system.memory_total_bytes;
        memory_used_bytes = memory_used current.system;
        uptime = current.system.uptime;
      };
      process_cpu_percent =
          if comparable before after
          then process_percents (after.total_ticks - before.total_ticks)
              (at_least_one_cpu current.system.logical_cpu_count) previous.processes
              current.processes []
          else [];
    }

-- `waiter` waits for a number of milliseconds.
pub record MetricsService (W : Type 0) : Type 0 where
  pub system : SystemMetricsProvider W
  pub processes : ProcessMetricsProvider W
  pub waiter : ℕ → W → Void × W

module _ {W : Type 0} (self : MetricsService W) where
  unfoldable pub capture : Action W MetricsSnapshot
  capture = do
    system ← ask self.system.sample
    processes ← ask self.processes.sample
    pure (record { system = system; processes = processes })

  unfoldable pub measure : ℕ → Action W MetricsView
  measure interval = do
    previous ← capture
    observe (self.waiter interval)
    current ← capture
    pure (compare previous current)

  -- `StatusService::get`
  unfoldable pub host_status : ℕ → Action W HostStatus
  host_status interval = do measured ← measure interval; pure measured.host
