-- ===== src/Application/InspectService.antt =====
-- src/application/InspectService.cpp: a resource with what is related to it. The graph that the code
-- fills is passed from step to step.
pub mod Logs
pub mod Roots
pub mod Rooted
pub mod Silent
mod Tests
use lx.Base.{
  some, none, [], ◌∷◌, true, false, nat_Eq, list_Eq, int_Eq, option_Eq, List, Option, ℤ, ℕ, Bytes,
  Bool, ◌++◌, drop, if◌then◌else◌, not, keep, is_nil, length, int_ltb, contains, any_of, map, ◌-◌,
  ◌&&◌, ◌==◌, text, list_ltb, ltb,
}
use lx.Domain.{
  success, failure, port_target, process_target, service_target, LogQuery, PortInfo, ResourceTarget,
  Result, ServiceInfo, JournalEntry, ProcessInfo, Error, Observation, Warning, any_socket,
  warning_from, make_error, any_process, any_log, not_found,
}
use lx.Application.ProcessService
use lx.Application.ProcessService.{ProcessService}
use lx.Application.PortService.Inspect
use lx.Application.PortService.{PortService}
use lx.Application.ServiceService
use lx.Application.ServiceService.{ServiceService}
use lx.Application.LogService
use lx.Application.LogService.{LogService}
use lx.Application.ResourceResolver
use lx.Application.ResourceResolver.{ResourceResolver}
use lx.Application.PortService.Prepare.{has_pid}
use lx.Exec.{◌>>=◌, ◌>>◌, Action, pure, attempt, fail}
use lx.Base.Sort.{sort, unique}
use lx.Base.Decimal.{to_string}

pub record ResourceGraph : Type 0 where
  pub root : ResourceTarget
  pub ports : List PortInfo
  pub processes : List ProcessInfo
  pub services : List ServiceInfo
  pub recent_logs : List JournalEntry
  pub warnings : List Warning

abbrev pub new_graph : ResourceTarget → ResourceGraph
new_graph target = record {
  root = target;
  ports = [];
  processes = [];
  services = [];
  recent_logs = [];
  warnings = [];
}

unfoldable pub append_warnings : List Warning → ResourceGraph → ResourceGraph
append_warnings warnings graph = record graph { warnings = graph.warnings ++ warnings }

unfoldable pub add_process : ProcessInfo → ResourceGraph → ResourceGraph
add_process process graph =
    if any_of (λ (value : ProcessInfo). value.pid == process.pid) graph.processes
    then graph
    else record graph { processes = graph.processes ++ process ∷ [] }

unfoldable pub add_service : ServiceInfo → ResourceGraph → ResourceGraph
add_service service graph =
    if any_of (λ (value : ServiceInfo). value.unit_name == service.unit_name) graph.services
    then graph
    else record graph { services = graph.services ++ service ∷ [] }

-- the body of the loop over the entries
unfoldable pub add_entry : JournalEntry → List JournalEntry → List JournalEntry
add_entry entry logs =
    if not (is_nil entry.cursor)
      && any_of (λ (value : JournalEntry). value.cursor == entry.cursor) logs
    then logs
    else logs ++ entry ∷ []

unfoldable pub add_entries : List JournalEntry → List JournalEntry → List JournalEntry
add_entries [] logs = logs
add_entries (entry ∷ rest) logs = add_entries rest (add_entry entry logs)

unfoldable pub put_logs : Result (Observation (List JournalEntry)) → ResourceGraph → ResourceGraph
put_logs (failure e) graph = append_warnings (warning_from e ∷ []) graph
put_logs (success logs) graph = record (append_warnings logs.warnings graph) {
  recent_logs = add_entries logs.value graph.recent_logs;
}

abbrev pub log_limit : ℕ
log_limit = 20

abbrev pub earlier : JournalEntry → JournalEntry → Bool
earlier left right = int_ltb left.timestamp right.timestamp

unfoldable pub finalize_logs : ResourceGraph → ResourceGraph
finalize_logs graph =
    let logs = sort earlier graph.recent_logs in
    record graph { recent_logs = drop (length logs - log_limit) logs }

unfoldable pub put_service : Result (Observation ServiceInfo) → ResourceGraph → ResourceGraph
put_service (success service) graph =
    add_service service.value (append_warnings service.warnings graph)
put_service (failure e) graph = append_warnings (warning_from e ∷ []) graph

-- the ports with a property, or a warning
unfoldable pub put_ports :
    (PortInfo → Bool) → Result (Observation (List PortInfo)) → ResourceGraph → ResourceGraph
put_ports related (success ports) graph = record (append_warnings ports.warnings graph) {
  ports = graph.ports ++ keep related ports.value;
}
put_ports related (failure e) graph = append_warnings (warning_from e ∷ []) graph

unfoldable pub put_processes :
    Result (Observation (List ProcessInfo)) → ResourceGraph → ResourceGraph
put_processes (success processes) graph = record (append_warnings processes.warnings graph) {
  processes = processes.value;
}
put_processes (failure e) graph = append_warnings (warning_from e ∷ []) graph

unfoldable pub pids_of : Result (Observation (List ProcessInfo)) → List ℤ
pids_of (success processes) = map (λ (p : ProcessInfo). p.pid) processes.value
pids_of (failure e) = []

unfoldable pub add_processes : List ProcessInfo → ResourceGraph → ResourceGraph
add_processes [] graph = graph
add_processes (process ∷ rest) graph = add_processes rest (add_process process graph)

abbrev pub owners_of_all : List PortInfo → List ProcessInfo
owners_of_all [] = []
owners_of_all (port ∷ rest) = port.owners ++ owners_of_all rest

-- the units of the owners, and the PIDs of those without one
unfoldable pub owner_units : List ProcessInfo → List Bytes
owner_units [] = []
owner_units (process ∷ rest) = elim process.systemd_unit [
  | none ↦ owner_units rest
  | some unit ↦ unit ∷ owner_units rest
]

unfoldable pub unmanaged_pids : List ProcessInfo → List ℤ
unmanaged_pids [] = []
unmanaged_pids (process ∷ rest) = elim process.systemd_unit [
  | none ↦ process.pid ∷ unmanaged_pids rest
  | some unit ↦ unmanaged_pids rest
]

unfoldable pub owned_by : ℤ → PortInfo → Bool
owned_by pid port = contains pid port.socket.owner_pids

unfoldable pub owned_by_any : List ℤ → PortInfo → Bool
owned_by_any pids port = any_of (λ pid. contains pid pids) port.socket.owner_pids

unfoldable pub no_socket : ℕ → Error
no_socket port =
    make_error not_found (text "No socket found for port " ++ to_string port)
      (text "inspect-service") (text "inspect port")

pub record InspectService (W : Type 0) : Type 0 where
  pub resolver : ResourceResolver W
  pub ports : PortService W
  pub processes : ProcessService W
  pub services : ServiceService W
  pub logs : LogService W

module _ {W : Type 0} (self : InspectService W) where
  unfoldable pub add_logs : LogQuery → ResourceGraph → Action W ResourceGraph
  add_logs query graph = do
    logs ← attempt (LogService.read self.logs (record query { limit = log_limit }))
    pure (put_logs logs graph)

  unfoldable pub add_unit : Bytes → ResourceGraph → Action W ResourceGraph
  add_unit unit graph = do
    service ← attempt (ServiceService.inspect self.services unit)
    pure (put_service service graph)

  unfoldable pub add_units : List Bytes → ResourceGraph → Action W ResourceGraph
  add_units [] graph = pure graph
  add_units (unit ∷ rest) graph = do
    with_unit ← add_unit unit graph
    with_logs ← add_logs (record any_log { unit = some unit }) with_unit
    add_units rest with_logs

  unfoldable pub add_pids : List ℤ → ResourceGraph → Action W ResourceGraph
  add_pids [] graph = pure graph
  add_pids (pid ∷ rest) graph = do
    with_logs ← add_logs (record any_log { pid = some pid }) graph
    add_pids rest with_logs

  unfoldable pub port_graph :
      ℕ → Observation (List PortInfo) → ResourceGraph → Action W ResourceGraph
  port_graph port ports graph =
      let owners = owners_of_all ports.value in
      if is_nil ports.value then fail (no_socket port) else do
        with_units ← add_units (unique (sort (list_ltb ltb) (owner_units owners))) (
            add_processes owners
              (record (append_warnings ports.warnings graph) { ports = ports.value }))
        add_pids (unique (sort int_ltb (unmanaged_pids owners))) with_units

  unfoldable pub unit_graph : Option Bytes → ResourceGraph → Action W ResourceGraph
  unit_graph none graph = pure graph
  unit_graph (some unit) graph = add_unit unit graph

  unfoldable pub process_graph : ℤ → ResourceGraph → Action W ResourceGraph
  process_graph pid graph = do
    process ← ProcessService.inspect self.processes pid
    with_service ←
        unit_graph process.value.systemd_unit
          (add_process process.value (append_warnings process.warnings graph))
    ports ← attempt (Inspect.inspect self.ports any_socket)
    add_logs (record any_log { pid = some pid }) (put_ports (owned_by pid) ports with_service)

  unfoldable pub service_graph : Bytes → ResourceGraph → Action W ResourceGraph
  service_graph unit graph = do
    service ← ServiceService.inspect self.services unit
    processes ←
        attempt
          (ProcessService.list self.processes (record any_process { systemd_unit = some unit }))
    ports ← attempt (Inspect.inspect self.ports any_socket)
    add_logs (record any_log { unit = some unit })
        (put_ports (owned_by_any (pids_of processes)) ports (
          put_processes processes
            (add_service service.value (append_warnings service.warnings graph))))

  unfoldable pub root_graph : ResourceTarget → ResourceGraph → Action W ResourceGraph
  root_graph (port_target port) graph = do
    ports ← Inspect.inspect self.ports (record any_socket { local_port = some port })
    port_graph port ports graph
  root_graph (process_target pid) graph = process_graph pid graph
  root_graph (service_target unit) graph = service_graph unit graph

  unfoldable pub inspect_target : ResourceTarget → Action W ResourceGraph
  inspect_target target = do
    graph ← root_graph target (new_graph target)
    pure (finalize_logs graph)

  unfoldable pub inspect : Bytes → Action W ResourceGraph
  inspect expression = do
    target ← ResourceResolver.resolve self.resolver expression
    inspect_target target
