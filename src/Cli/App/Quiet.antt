-- ===== src/Cli/App/Quiet.antt =====
-- CliApp::run: the commands that read send no signal and give no command.
use lx.Base.{
  some, none, true, false, Bool, nat_Eq, list_Eq, int_Eq, option_Eq, ℕ, Bytes, Option, ℤ, List,
}
use lx.Cli.App.{Arguments, CliApp, Surroundings}
use lx.Exec.{Call}
use lx.Application.MetricsService.{host_status, measure, capture, MetricsService}
use lx.Application.DoctorService.{DoctorService}
use lx.Application.ServiceService.{ServiceService}
use lx.Application.FindService.{find_lowered, FindService}
use lx.Exec.Moves.{Moves, extension, calls_rules}
use lx.Cli.App.Logs.{after_follow, read_since, run_log, read_log, follow_log}
use lx.Cli.App.Reads.{
  list_services, run_tui, read_process, run_port, run_status, measured, run_doctor, run_find,
  run_inspect, inspect_process, show_ports, list_processes, inspect_service,
}
use lx.Domain.{Observation, LogQuery, Result, MetricsView, Void, PortInfo, success, failure}
use lx.Cli.App.Silent.{text_rules}
use lx.Application.LogService.{follow}
use lx.Application.ResourceResolver.Silent.{service-inspect-Moves, list-Moves}
use lx.Application.PortService.Quiet.{port-inspect-Moves}
use lx.Application.ProcessService.Signals.{inspect-Moves}
use lx.Application.InspectService.Silent.{read-Moves, inspect_graph-Moves}
use lx.Application.DoctorService
use lx.Application.FindService
use lx.Application.ServiceService

module _ {W : Type 0} (P : Call → Type 0) where
  doctor-Moves : (service : DoctorService W) → Moves (extension P) (DoctorService.inspect service)
  unfolding DoctorService.inspect
  doctor-Moves service = search calls_rules depth 12

  capture-Moves : (service : MetricsService W) → Moves (extension P) (capture service)
  unfolding capture
  capture-Moves service = search calls_rules

  measure-Moves :
      (service : MetricsService W) (interval : ℕ) → Moves (extension P) (measure service interval)
  unfolding measure
  measure-Moves service interval = search (calls_rules, capture-Moves)

  host_status-Moves :
      (service : MetricsService W) (interval : ℕ)
      → Moves (extension P) (host_status service interval)
  unfolding host_status
  host_status-Moves service interval = search (calls_rules, measure-Moves)

  service-list-Moves :
      (service : ServiceService W) → Moves (extension P) (ServiceService.list service)
  unfolding ServiceService.list
  service-list-Moves service = search calls_rules

  find-Moves :
      (service : FindService W) (query : Bytes)
      → Moves (extension P) (FindService.find service query)
  unfolding FindService.find find_lowered
  find-Moves service query =
      search (calls_rules, service-list-Moves, list-Moves, port-inspect-Moves) depth 9

module _ {W : Type 0} (P : Call → Type 0) (self : CliApp W) (around : Surroundings W)
    (args : Arguments) where
  open around use {console, format, json, times}

  pub tui-Moves :
      (runner : Option (W → Result Void × W))
      → Moves (extension P) (run_tui self around args runner)
  unfolding run_tui
  tui-Moves none = search text_rules
  tui-Moves (some runner) = search text_rules

  pub status-Moves :
      (service : Option (MetricsService W))
      → Moves (extension P) (run_status self around args service)
  unfolding run_status
  status-Moves none = search text_rules
  status-Moves (some service) = search (text_rules, host_status-Moves)

  measured-Moves :
      {A : Type 0} (service : Option (MetricsService W)) (attach : Result MetricsView → A) (a : A)
      → Moves (extension P) (measured self around args service attach a)
  unfolding measured
  measured-Moves none attach a = search calls_rules
  measured-Moves (some service) attach a = search (calls_rules, measure-Moves)

  list_processes-Moves : Moves (extension P) (list_processes self around args)
  unfolding list_processes
  list_processes-Moves = search (text_rules, list-Moves, measured-Moves)

  inspect_process-Moves : (pid : ℤ) → Moves (extension P) (inspect_process self around args pid)
  unfolding inspect_process
  inspect_process-Moves pid = search (text_rules, inspect-Moves, measured-Moves)

  pub read_process-Moves :
      (pid : Option ℤ) → Moves (extension P) (read_process self around args pid)
  unfolding read_process
  read_process-Moves none = search (text_rules, list_processes-Moves)
  read_process-Moves (some pid) = search (text_rules, inspect_process-Moves)

  pub doctor_command-Moves : Moves (extension P) (run_doctor self around args)
  unfolding run_doctor
  doctor_command-Moves = search (text_rules, doctor-Moves)

  pub inspect_command-Moves : Moves (extension P) (run_inspect self around args)
  unfolding run_inspect
  inspect_command-Moves = search (text_rules, inspect_graph-Moves)

  pub find_command-Moves : Moves (extension P) (run_find self around args)
  unfolding run_find
  find_command-Moves = search (text_rules, find-Moves)

  pub list_services-Moves : Moves (extension P) (list_services self around args)
  unfolding list_services
  list_services-Moves = search (text_rules, service-list-Moves)

  pub inspect_service-Moves :
      (unit : Bytes) → Moves (extension P) (inspect_service self around args unit)
  unfolding inspect_service
  inspect_service-Moves unit = search (text_rules, service-inspect-Moves)

  show_ports-Moves :
      (found : Observation (List PortInfo))
      → Moves (extension P) (show_ports self around args found)
  unfolding show_ports
  show_ports-Moves found = search text_rules

  pub port-Moves : Moves (extension P) (run_port self around args)
  unfolding run_port
  port-Moves = search (text_rules, port-inspect-Moves, show_ports-Moves)

  read_since-Moves :
      (words : Option Bytes) → Moves (extension P) (read_since self around args words)
  unfolding read_since
  read_since-Moves none = search calls_rules
  read_since-Moves (some words) = search calls_rules

  after_follow-Moves :
      (thrown : Bool) (result : Result Void)
      → Moves (extension P) (after_follow self around args thrown result)
  unfolding after_follow
  after_follow-Moves true result = search calls_rules
  after_follow-Moves false (success v) = search calls_rules
  after_follow-Moves false (failure e) = search text_rules

  follow-Moves :
      (query : LogQuery) (installed : Option (ℤ × Bytes))
      → Moves (extension P) (follow_log self around args query installed)
  unfolding follow_log follow
  follow-Moves query (some (errno, words)) = search text_rules
  follow-Moves query none = search (text_rules, after_follow-Moves)

  read_log-Moves : (query : LogQuery) → Moves (extension P) (read_log self around args query)
  unfolding read_log
  read_log-Moves query = search (text_rules, read-Moves)

  pub log-Moves : Moves (extension P) (run_log self around args)
  unfolding run_log
  log-Moves = search (text_rules, read_since-Moves, follow-Moves, read_log-Moves)
