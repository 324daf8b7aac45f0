-- ===== src/Cli/App/Reads.antt =====
-- CliApp::run: the commands that read.
use lx.Application.DoctorService
use lx.Application.ProcessService
use lx.Application.ServiceService
use lx.Application.InspectService
use lx.Application.FindService
use lx.Application.PortService.Inspect
use lx.Cli.Json.Output
use mathlib.Core.Option
use lx.Base.{
  ◌∷◌, ◌==◌, ◌%◌, ◌^◌, some, none, nat_Eq, list_Eq, int_Eq, option_Eq, [], Bytes, List, ℕ, Bool,
  Option, if◌then◌else◌, text, is_some, ℤ, ◌||◌, is_nil, map, ◌&&◌, ◌++◌,
}
use lx.Cli.App.{
  Arguments, CliApp, Surroundings, answer, fail_with, unless_failed, Exit, cli_error, exited,
}
use lx.Exec.{◌>>=◌, Action, pure, attempt, ask}
use lx.Domain.{
  SocketQuery, ProcessQuery, Result, any_socket, MetricsView, Observation, Fraction, PortInfo, Void,
  ProcessInfo, failure, success, invalid_argument, unavailable, not_found,
}
use lx.Application.MetricsService.{MetricsService, measure, host_status}
use lx.Base.Decimal.{to_string}
use lx.Application.DoctorService.{DoctorService}
use lx.Application.ServiceService.{ServiceService}
use lx.Application.ProcessService.{ProcessService}
use lx.Application.FindService.{FindService}
use lx.Application.InspectService.{InspectService}
use lx.Cli.Records.{
  print_services, print_ports, print_resource_graph, print_service, print_find_result,
}
use lx.Cli.Print.{print_doctor_report, print_status, print_processes, print_process}

-- `attachCpu`: a process that the metrics do not know keeps what it has
unfoldable pub with_cpu : List (ℤ × Fraction) → ProcessInfo → ProcessInfo
with_cpu [] process = process
with_cpu ((pid, percent) ∷ rest) process =
    if pid == process.pid
    then record process { cpu_percent = some percent }
    else with_cpu rest process

unfoldable pub attach_process_cpu :
    Result MetricsView → Observation ProcessInfo → Observation ProcessInfo
unfolding with_cpu
attach_process_cpu (failure e) observed = observed
attach_process_cpu (success metrics) observed = record observed {
  value = with_cpu metrics.process_cpu_percent observed.value;
}

unfoldable pub attach_process_cpus :
    Result MetricsView → Observation (List ProcessInfo) → Observation (List ProcessInfo)
unfolding with_cpu
attach_process_cpus (failure e) observed = observed
attach_process_cpus (success metrics) observed = record observed {
  value = map (with_cpu metrics.process_cpu_percent) observed.value;
}

-- the default of the `interval` of `StatusService`
abbrev pub interval : ℕ
interval = 250

abbrev pub process_query : Arguments → ProcessQuery
process_query args = record {
  name = args.process_name;
  user = args.process_user;
  systemd_unit = args.process_service;
}

abbrev pub socket_query : Arguments → SocketQuery
socket_query args = record any_socket { local_port = Option.map (λ n. n % 2 ^ 16) args.port_number }

abbrev pub port_operation : Arguments → Bytes
port_operation args = if is_some args.port_number then text "inspect" else text "list"

unfoldable pub port_text : Option ℕ → Bytes
port_text none = text "0"
port_text (some port) = to_string port

-- the operands of `lx process` without `stop` and `kill`
unfoldable pub has_filters : Arguments → Bool
has_filters args =
    is_some args.process_name || is_some args.process_user || is_some args.process_service

module _ {W : Type 0} (self : CliApp W) (around : Surroundings W) (args : Arguments) where
  open around use {console, format, json, times}

  unfoldable pub run_tui : Option (W → Result Void × W) → Action W Exit
  unfolding unless_failed fail_with
  run_tui none =
      fail_with around args (text "tui") (text "run")
        (cli_error unavailable (text "LX was built without terminal UI support") (text "tui"))
  run_tui (some runner) = do
    result ← attempt (ask runner)
    unless_failed around args (text "tui") (text "run") result (λ v. pure (exited 0))

  unfoldable pub run_doctor : Action W Exit
  unfolding answer
  run_doctor = do
    report ← DoctorService.inspect self.doctor_service
    answer around args (Output.doctor json report) (print_doctor_report format report)

  unfoldable pub run_status : Option (MetricsService W) → Action W Exit
  unfolding unless_failed fail_with answer
  run_status none =
      fail_with around args (text "status") (text "read")
        (cli_error unavailable (text "Status metrics are unavailable") (text "status"))
  run_status (some service) = do
    result ← attempt (host_status service interval)
    unless_failed around args (text "status") (text "read") result
        (λ status. answer around args (Output.status json status) (print_status format status))

  unfoldable pub run_inspect : Action W Exit
  unfolding unless_failed answer
  run_inspect = do
    result ← attempt (InspectService.inspect self.inspect_service args.inspect_expression)
    unless_failed around args (text "inspect") (text "inspect") result (λ graph.
        answer around args (Output.inspect json graph) (print_resource_graph format graph))

  unfoldable pub run_find : Action W Exit
  unfolding unless_failed answer
  run_find = do
    result ← attempt (FindService.find self.find_service args.find_query)
    unless_failed around args (text "find") (text "search") result
        (λ found. answer around args (Output.find json found) (print_find_result format found))

  -- `if (statusService_ != nullptr) { const auto metrics = statusService_->measure(); ... }`
  unfoldable pub measured :
      {A : Type 0} → Option (MetricsService W) → (Result MetricsView → A) → A → Action W A
  measured none attach observed = pure observed
  measured (some service) attach observed = do
    metrics ← attempt (measure service interval)
    pure (attach metrics)

  unfoldable pub list_processes : Action W Exit
  unfolding unless_failed answer measured attach_process_cpus
  list_processes = do
    result ← attempt (ProcessService.list self.process_service (process_query args))
    unless_failed around args (text "process") (text "list") result (λ listed. do
      observed ← measured self.status_service (λ metrics. attach_process_cpus metrics listed) listed
      answer around args (Output.processes json observed) (print_processes format observed))

  unfoldable pub inspect_process : ℤ → Action W Exit
  unfolding unless_failed answer measured attach_process_cpu
  inspect_process pid = do
    result ← attempt (ProcessService.inspect self.process_service pid)
    unless_failed around args (text "process") (text "inspect") result (λ found. do
      observed ← measured self.status_service (λ metrics. attach_process_cpu metrics found) found
      answer around args (Output.process json observed args.raw_command)
          (print_process format observed args.raw_command args.quiet))

  unfoldable pub read_process : Option ℤ → Action W Exit
  unfolding fail_with list_processes inspect_process has_filters
  read_process none =
      if args.raw_command
      then fail_with around args (text "process") (text "validate") (
          cli_error invalid_argument (text "--raw-command requires a process PID")
            (text "validate"))
      else list_processes
  read_process (some pid) =
      if has_filters args
      then fail_with around args (text "process") (text "validate") (
          cli_error invalid_argument (text "Process PID cannot be combined with list filters")
            (text "validate"))
      else inspect_process pid

  unfoldable pub list_services : Action W Exit
  unfolding unless_failed answer
  list_services = do
    result ← attempt (ServiceService.list self.service_service)
    unless_failed around args (text "service") (text "list") result
        (λ listed. answer around args (Output.services json listed) (print_services format listed))

  unfoldable pub inspect_service : Bytes → Action W Exit
  unfolding unless_failed answer
  inspect_service unit = do
    result ← attempt (ServiceService.inspect self.service_service unit)
    unless_failed around args (text "service") (text "inspect") result
        (λ found. answer around args (Output.service json found) (print_service format found))

  unfoldable pub show_ports : Observation (List PortInfo) → Action W Exit
  unfolding fail_with answer port_text
  show_ports found =
      if is_nil found.value && is_some args.port_number
      then fail_with around args (text "port") (text "inspect") (
          cli_error not_found (text "No socket found for port " ++ port_text args.port_number)
            (text "inspect"))
      else answer around args (Output.ports json found (port_operation args))
          (print_ports format found)

  unfoldable pub run_port : Action W Exit
  unfolding unless_failed show_ports
  run_port = do
    result ← attempt (Inspect.inspect self.port_service (socket_query args))
    unless_failed around args (text "port") (port_operation args) result show_ports
