-- ===== src/Application/DashboardService.antt =====
-- src/application/DashboardService.cpp: the snapshots of the dashboard. What cannot be read is kept
-- from the last snapshot and marked stale.
pub mod Sections
pub mod Drafts
pub mod Kept
mod Tests
use lx.Base.{
  some, none, [], ◌∷◌, true, false, nat_Eq, list_Eq, int_Eq, option_Eq, List, Option, ℕ, ℤ, Bool,
  ◌++◌, map, if◌then◌else◌, leb, ◌==◌, ◌+◌,
}
use lx.Domain.{
  success, failure, MetricsView, Result, HostStatus, Observation, Fraction, ProcessInfo, Warning,
  MetricsSnapshot, ServiceInfo, PortInfo, warning_from, any_process, any_socket,
}
use lx.Application.ProcessService
use lx.Application.ProcessService.{ProcessService}
use lx.Application.PortService.Inspect
use lx.Application.PortService.{PortService}
use lx.Application.ServiceService
use lx.Application.ServiceService.{ServiceService}
use lx.Exec.{◌>>=◌, ◌>>◌, Action, observe, attempt, pure}
use lx.Application.MetricsService.{MetricsService, compare, capture}

pub record DashboardSnapshot : Type 0 where
  pub host : HostStatus
  pub processes : List ProcessInfo
  pub ports : List PortInfo
  pub services : List ServiceInfo
  pub host_stale : Bool
  pub processes_stale : Bool
  pub ports_stale : Bool
  pub services_stale : Bool
  pub warnings : List Warning
  pub captured_at : ℤ

abbrev pub empty_snapshot : DashboardSnapshot
empty_snapshot = record {
  host = record {
    hostname = [];
    cpu_percent = none;
    memory_total_bytes = 0;
    memory_used_bytes = 0;
    uptime = 0;
  };
  processes = [];
  ports = [];
  services = [];
  host_stale = false;
  processes_stale = false;
  ports_stale = false;
  services_stale = false;
  warnings = [];
  captured_at = ℤ.pos 0;
}

-- The fields of the service that a refresh changes; times of the steady clock are nanoseconds.
pub record State : Type 0 where
  pub previous : Option DashboardSnapshot
  pub previous_metrics : Option MetricsSnapshot
  pub services_refreshed_at : Option ℕ

abbrev pub value_or {ℓ} : {A : Type ℓ} → A → Option A → A
value_or default none = default
value_or default (some a) = a

-- `processCpuPercent.find(pid)`
unfoldable pub percent_of : ℤ → List (ℤ × Fraction) → Option Fraction
percent_of pid [] = none
percent_of pid ((p, value) ∷ rest) = if p == pid then some value else percent_of pid rest

unfoldable pub attach_cpu : MetricsView → List ProcessInfo → List ProcessInfo
attach_cpu view processes =
    map (λ (p : ProcessInfo). record p { cpu_percent = percent_of p.pid view.process_cpu_percent })
      processes

-- `if (metricsView) attachCpu(…)`
unfoldable pub attach_if : Option MetricsView → List ProcessInfo → List ProcessInfo
attach_if none processes = processes
attach_if (some view) processes = attach_cpu view processes

unfoldable pub add_warnings : List Warning → DashboardSnapshot → DashboardSnapshot
add_warnings more next = record next { warnings = next.warnings ++ more }

-- the metrics: the view of them, and the snapshot
unfoldable pub view_of : Option MetricsSnapshot → Result MetricsSnapshot → Option MetricsView
view_of previous (failure e) = none
view_of previous (success metrics) = some (compare (value_or metrics previous) metrics)

unfoldable pub put_host :
    Option MetricsSnapshot → Result MetricsSnapshot → DashboardSnapshot → DashboardSnapshot
unfolding add_warnings
put_host previous (success metrics) next = record next {
  host = (compare (value_or metrics previous) metrics).host;
  host_stale = false;
}
put_host previous (failure e) next =
    add_warnings (warning_from e ∷ []) (record next { host_stale = true })

unfoldable pub metrics_after :
    Option MetricsSnapshot → Result MetricsSnapshot → Option MetricsSnapshot
metrics_after previous (failure e) = previous
metrics_after previous (success metrics) = some metrics

unfoldable pub put_processes :
    Option MetricsView
    → Result (Observation (List ProcessInfo))
    → DashboardSnapshot
    → DashboardSnapshot
unfolding add_warnings
put_processes view (success processes) next =
    add_warnings processes.warnings
      (record next { processes = attach_if view processes.value; processes_stale = false })
put_processes view (failure e) next =
    add_warnings (warning_from e ∷ []) (record next { processes_stale = true })

unfoldable pub put_ports :
    Result (Observation (List PortInfo)) → DashboardSnapshot → DashboardSnapshot
unfolding add_warnings
put_ports (success ports) next =
    add_warnings ports.warnings (record next { ports = ports.value; ports_stale = false })
put_ports (failure e) next = add_warnings (warning_from e ∷ []) (record next { ports_stale = true })

unfoldable pub put_services :
    Result (Observation (List ServiceInfo)) → DashboardSnapshot → DashboardSnapshot
unfolding add_warnings
put_services (success services) next =
    add_warnings services.warnings
      (record next { services = services.value; services_stale = false })
put_services (failure e) next =
    add_warnings (warning_from e ∷ []) (record next { services_stale = true })

unfoldable pub refreshed_at : ℕ → Option ℕ → Result (Observation (List ServiceInfo)) → Option ℕ
refreshed_at now before (success services) = some now
refreshed_at now before (failure e) = before

abbrev pub service_interval : ℕ
service_interval = 3000000000

unfoldable pub refresh_services : ℕ → Option ℕ → Bool
refresh_services now none = true
refresh_services now (some at) = leb (at + service_interval) now

pub record DashboardService (W : Type 0) : Type 0 where
  pub metrics : MetricsService W
  pub processes : ProcessService W
  pub ports : PortService W
  pub services : ServiceService W
  pub system_now : W → ℤ × W

unfoldable pub finished : State → DashboardSnapshot → DashboardSnapshot × State
finished state next = (next, record state { previous = some next })

-- the snapshot that the sections are put into
unfoldable pub first_draft : State → ℤ → DashboardSnapshot
first_draft state captured = record (value_or empty_snapshot state.previous) {
  warnings = [];
  captured_at = captured;
}

module _ {W : Type 0} (self : DashboardService W) where
  -- the services, if it is time, and the end of the method
  unfoldable pub finish :
      ℕ → State → DashboardSnapshot → Bool → Action W (DashboardSnapshot × State)
  unfolding finished
  finish now state next true = do
    services ← attempt (ServiceService.list self.services)
    pure (
        finished
          (record state {
            services_refreshed_at = refreshed_at now state.services_refreshed_at services;
          })
          (put_services services next))
  finish now state next false = pure (finished state next)

  unfoldable pub refresh_at : State → ℕ → Action W (DashboardSnapshot × State)
  refresh_at state now = do
    captured ← observe self.system_now
    metrics ← attempt (capture self.metrics)
    processes ← attempt (ProcessService.list self.processes any_process)
    ports ← attempt (Inspect.inspect self.ports any_socket)
    finish now (record state { previous_metrics = metrics_after state.previous_metrics metrics })
        (put_ports ports (
          put_processes (view_of state.previous_metrics metrics) processes
            (put_host state.previous_metrics metrics (first_draft state captured))))
        (refresh_services now state.services_refreshed_at)
