-- ===== src/Application/DashboardService/Drafts.antt =====
-- The snapshot of DashboardService.cpp before the services are put into it.
use lx.Base.{refl, true, false, List, Bool, ℕ, Option, ◌≡◌, ◌++◌, ℤ}
use lx.Application.DashboardService.{
  DashboardService, put_processes, put_ports, State, add_warnings, put_host, DashboardSnapshot,
  metrics_after, attach_if, first_draft, value_or, view_of, empty_snapshot, put_services,
}
use lx.Domain.{
  Result, Observation, PortInfo, success, MetricsSnapshot, MetricsView, failure, ProcessInfo,
  ServiceInfo,
}
use lx.Application.DashboardService.Sections.{
  IsSection, fresh, section_kept, IsRead, same, said, metrics_said, host_kept, host_measured,
}

-- what a section holds after an answer, and whether it is stale
unfoldable pub picked :
    {A : Type 0} → (List A → List A) → List A → Result (Observation (List A)) → List A
picked shown old (success o) = shown o.value
picked shown old (failure e) = old

unfoldable pub is_failure : {A : Type 0} → Result A → Bool
is_failure (success a) = false
is_failure (failure e) = true

pub picked-IsSection :
    {A : Type 0} (shown : List A → List A) (old : List A) (r : Result (Observation (List A)))
    → IsSection shown old (picked shown old r) (is_failure r) r
unfolding picked is_failure
picked-IsSection shown old (success o) = fresh o refl refl
picked-IsSection shown old (failure e) = section_kept e refl refl

put_processes_eq :
    (view : Option MetricsView) (r : Result (Observation (List ProcessInfo)))
    (next : DashboardSnapshot)
    → put_processes view r next ≡ record next {
      processes = picked (attach_if view) next.processes r;
      processes_stale = is_failure r;
      warnings = next.warnings ++ said r;
    }
unfolding put_processes add_warnings picked is_failure
put_processes_eq view (success o) next = refl
put_processes_eq view (failure e) next = refl

put_ports_eq :
    (r : Result (Observation (List PortInfo))) (next : DashboardSnapshot)
    → put_ports r next ≡ record next {
      ports = picked same next.ports r;
      ports_stale = is_failure r;
      warnings = next.warnings ++ said r;
    }
unfolding put_ports add_warnings picked is_failure
put_ports_eq (success o) next = refl
put_ports_eq (failure e) next = refl

pub put_services_eq :
    (r : Result (Observation (List ServiceInfo))) (next : DashboardSnapshot)
    → put_services r next ≡ record next {
      services = picked same next.services r;
      services_stale = is_failure r;
      warnings = next.warnings ++ said r;
    }
unfolding put_services add_warnings picked is_failure
put_services_eq (success o) next = refl
put_services_eq (failure e) next = refl

-- What `finish` is given: the three sections, the services as they were, and the warnings so far.
pub record IsDraft {W : Type 0} (self : DashboardService W) (state : State) (now : ℕ)
    (metrics : Result MetricsSnapshot) (processes : Result (Observation (List ProcessInfo)))
    (ports : Result (Observation (List PortInfo))) (next : DashboardSnapshot) : Type 0 where
  pub answered :
      IsRead self state now metrics processes ports next
        (metrics_after state.previous_metrics metrics)
  pub services : next.services ≡ (value_or empty_snapshot state.previous).services
  pub services_stale : next.services_stale ≡ (value_or empty_snapshot state.previous).services_stale
  pub warnings : next.warnings ≡ (metrics_said metrics ++ said processes) ++ said ports

module _ {W : Type 0} (self : DashboardService W) (state : State) (now : ℕ) where
  pub drafts-IsDraft :
      (captured : ℤ) (metrics : Result MetricsSnapshot)
      (processes : Result (Observation (List ProcessInfo)))
      (ports : Result (Observation (List PortInfo)))
      → IsDraft self state now metrics processes ports (
          put_ports ports (
            put_processes
              (view_of state.previous_metrics metrics)
              processes
              (put_host state.previous_metrics metrics (first_draft state captured))))
  unfolding put_host metrics_after first_draft add_warnings
  drafts-IsDraft captured (success m) processes ports =
      let view = view_of state.previous_metrics (success m) in
      rw (put_processes_eq view processes, put_ports_eq ports)
        (record {
          answered = record {
            host = host_measured m refl refl refl;
            processes = picked-IsSection (attach_if view) _ processes;
            ports = picked-IsSection same _ ports;
          };
          services = refl;
          services_stale = refl;
          warnings = refl;
        })
  drafts-IsDraft captured (failure e) processes ports =
      let view = view_of state.previous_metrics (failure e) in
      rw (put_processes_eq view processes, put_ports_eq ports)
        (record {
          answered = record {
            host = host_kept e refl refl refl;
            processes = picked-IsSection (attach_if view) _ processes;
            ports = picked-IsSection same _ ports;
          };
          services = refl;
          services_stale = refl;
          warnings = refl;
        })
