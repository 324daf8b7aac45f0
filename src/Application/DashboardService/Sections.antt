-- ===== src/Application/DashboardService/Sections.antt =====
-- What each section of a refresh is, from the answer that was read for it, DashboardService.cpp.
use lx.Application.ProcessService
use lx.Application.PortService.Inspect
use lx.Application.ServiceService
use lx.Base.{some, none, true, false, [], ℕ, List, Bool, Option, ◌≡◌, ◌+◌, ◌<◌, ◌≤◌, ◌∷◌, ◌⊎◌, ◌++◌}
use lx.Domain.{
  Result, MetricsSnapshot, Observation, HostStatus, ServiceInfo, Warning, success, ProcessInfo,
  Error, failure, warning_from, any_process, PortInfo, any_socket,
}
use lx.Application.DashboardService.{
  State, DashboardService, DashboardSnapshot, value_or, empty_snapshot, attach_if, view_of,
}
use lx.Exec.{Action, Machine}
use lx.Application.MetricsService.{capture, compare}

-- An answer that the action gave, at the machine where the refresh asked for it.
abbrev pub IsAnswer : {W A : Type 0} → Action W A → Result A → Type 0
IsAnswer {W} act r = (n : Machine W) × ((act n).0 ≡ r)

-- the host, and the metrics that the next refresh compares with
pub data IsHost (state : State) (host : HostStatus) (stale : Bool) (after : Option MetricsSnapshot)
    : Result MetricsSnapshot → Type 0 where
  host_measured :
      (read : MetricsSnapshot)
      → host ≡ (compare (value_or read state.previous_metrics) read).host
      → stale ≡ false
      → after ≡ some read
      → IsHost state host stale after (success read)
  host_kept :
      (e : Error)
      → host ≡ (value_or empty_snapshot state.previous).host
      → stale ≡ true
      → after ≡ state.previous_metrics
      → IsHost state host stale after (failure e)

-- A section is fresh with what was read, or stale with what it was before.
pub data IsSection {A : Type 0} (shown : List A → List A) (old new : List A) (stale : Bool)
    : Result (Observation (List A)) → Type 0 where
  fresh :
      (o : Observation (List A))
      → new ≡ shown o.value
      → stale ≡ false
      → IsSection shown old new stale (success o)
  section_kept : (e : Error) → new ≡ old → stale ≡ true → IsSection shown old new stale (failure e)

abbrev pub same : {A : Type 0} → List A → List A
same xs = xs

-- Services were never read, or three seconds (in nanoseconds) or more before `now`.
pub data IsDue (now : ℕ) : Option ℕ → Type 0 where
  never : IsDue now none
  past : (at : ℕ) → at + 3000000000 ≤ now → IsDue now (some at)

pub data IsRecent (now : ℕ) : Option ℕ → Type 0 where
  recent : (at : ℕ) → now < at + 3000000000 → IsRecent now (some at)

-- the warnings of an answer: what came with it, or why it failed
abbrev pub said : {A : Type 0} → Result (Observation A) → List Warning
said (success o) = o.warnings
said (failure e) = warning_from e ∷ []

abbrev pub metrics_said : Result MetricsSnapshot → List Warning
metrics_said (success read) = []
metrics_said (failure e) = warning_from e ∷ []

-- The services: read where that is due, and else what they and their mark were.
module _ {W : Type 0} (self : DashboardService W) (state : State) (now : ℕ) where
  pub data IsServices (new : List ServiceInfo) (stale : Bool) (after : Option ℕ)
      : List Warning → Type 0 where
    services_read :
        (r : Result (Observation (List ServiceInfo)))
        → IsDue now state.services_refreshed_at
        → IsAnswer (ServiceService.list self.services) r
        → IsSection same (value_or empty_snapshot state.previous).services new stale r
        → ((stale ≡ false) × (after ≡ some now))
          ⊎ ((stale ≡ true) × (after ≡ state.services_refreshed_at))
        → IsServices new stale after (said r)
    services_kept :
        IsRecent now state.services_refreshed_at
        → new ≡ (value_or empty_snapshot state.previous).services
        → stale ≡ (value_or empty_snapshot state.previous).services_stale
        → after ≡ state.services_refreshed_at
        → IsServices new stale after []

  -- The three sections that each refresh reads, out of the answers to it.
  pub record IsRead (measures : Result MetricsSnapshot)
      (running : Result (Observation (List ProcessInfo)))
      (listening : Result (Observation (List PortInfo))) (next : DashboardSnapshot)
      (after : Option MetricsSnapshot) : Type 0 where
    pub host : IsHost state next.host next.host_stale after measures
    pub processes :
        IsSection
          (attach_if (view_of state.previous_metrics measures))
          (value_or empty_snapshot state.previous).processes
          next.processes
          next.processes_stale
          running
    pub ports :
        IsSection same
          (value_or empty_snapshot state.previous).ports
          next.ports
          next.ports_stale
          listening

  pub record IsRefresh (next : DashboardSnapshot) (state' : State) : Type 0 where
    pub metrics_answer : Result MetricsSnapshot
    pub metrics_asked : IsAnswer (capture self.metrics) metrics_answer
    pub processes_answer : Result (Observation (List ProcessInfo))
    pub processes_asked : IsAnswer (ProcessService.list self.processes any_process) processes_answer
    pub ports_answer : Result (Observation (List PortInfo))
    pub ports_asked : IsAnswer (Inspect.inspect self.ports any_socket) ports_answer
    pub answered : IsRead metrics_answer processes_answer ports_answer next state'.previous_metrics
    pub services_said : List Warning
    pub services :
        IsServices next.services next.services_stale state'.services_refreshed_at services_said
    pub warnings :
        next.warnings
        ≡ ((metrics_said metrics_answer ++ said processes_answer) ++ said ports_answer)
          ++ services_said
    pub remembered : state'.previous ≡ some next
