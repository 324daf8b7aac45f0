-- ===== src/Cli/Records.antt =====
-- CliApp.cpp: journal entries, services, ports, graphs and findings as text.
use lx.Base.{
  some, none, [], ◌∷◌, suc, nat_Eq, list_Eq, int_Eq, option_Eq, Bytes, text, ℕ, ℤ, if◌then◌else◌,
  ◌++◌, List, is_nil, ◌==◌, ◌/◌,
}
use lx.Domain.{
  tcp, udp, port_target, process_target, service_target, ResourceTarget, TransportProtocol,
  Endpoint, ServiceInfo, Observation, JournalEntry, PortInfo, ProcessInfo,
}
use lx.Application.FindService.{FindResult}
use lx.Application.InspectService.{ResourceGraph}
use lx.Cli.Print.{
  Format, Printed, all_texts, warning_lines, or_dash, each_text, section_of, new_line,
}
use lx.Base.Decimal.{to_string, negated}
use lx.Cli.Texts.{
  priority_text, owner_names, table_cell, shortened, owner_pids, owner_services, safe_log_text,
}
use lx.Application.ResourceResolver.{show_pid}
use mathlib.Core.Option

abbrev pub dash_if_empty : Bytes → Bytes
dash_if_empty value = if is_nil value then text "-" else value

unfoldable pub protocol_text : TransportProtocol → Bytes
protocol_text tcp = text "TCP"
protocol_text udp = text "UDP"

-- "address:port"
unfoldable pub endpoint_text : Endpoint → Bytes
endpoint_text endpoint = endpoint.address ++ (b':' ∷ to_string endpoint.port)

unfoldable pub root_line : ResourceTarget → Bytes
root_line (port_target port) = text "Port " ++ (to_string port ++ new_line)
root_line (process_target pid) = text "Process " ++ (show_pid pid ++ new_line)
root_line (service_target unit) = unit ++ new_line

module _ (format : Format) where
  unfoldable pub timestamp_text : ℕ → Bytes
  timestamp_text usec =
      if usec == 0 then text "-" else or_dash (format.local_time (ℤ.pos (usec / 1000000)))

  -- `to_time_t`: the seconds of a number of nanoseconds, rounded towards 0
  unfoldable pub log_timestamp : ℤ → Bytes
  log_timestamp (ℤ.pos n) = or_dash (format.local_time (ℤ.pos (n / 1000000000)))
  log_timestamp (ℤ.negsuc n) = or_dash (format.local_time (negated (suc n / 1000000000)))

  -- "unit[pid] command"
  unfoldable pub log_source : JournalEntry → Bytes
  log_source entry = all_texts (
      or_dash entry.systemd_unit
      ∷ elim entry.pid [
        | none ↦ []
        | some pid ↦ all_texts (text "[" ∷ show_pid pid ∷ text "]" ∷ [])
      ]
      ∷ elim entry.command [ none ↦ [] | some command ↦ b' ' ∷ shortened command 24 ]
      ∷ [])

  unfoldable pub journal_line : JournalEntry → Bytes
  journal_line entry = all_texts (
      log_timestamp entry.timestamp
      ∷ text " "
      ∷ format.left 7 (priority_text entry.priority)
      ∷ text " "
      ∷ shortened (log_source entry) 56
      ∷ text ": "
      ∷ safe_log_text entry.message
      ∷ new_line
      ∷ [])

  unfoldable pub print_journal_entry : Observation JournalEntry → Printed
  print_journal_entry observed = record {
    output = journal_line observed.value;
    diagnostics = warning_lines observed.warnings;
  }

  unfoldable pub print_journal_entries : Observation (List JournalEntry) → Printed
  print_journal_entries observed = record {
    output = each_text journal_line observed.value;
    diagnostics = warning_lines observed.warnings;
  }

  unfoldable pub service_line : ServiceInfo → Bytes
  service_line service = all_texts (
      table_cell service.unit_name 40
      ∷ text " "
      ∷ table_cell service.active_state 12
      ∷ text " "
      ∷ table_cell service.sub_state 16
      ∷ text " "
      ∷ table_cell (dash_if_empty service.unit_file_state) 16
      ∷ text " "
      ∷ or_dash (Option.map show_pid service.main_pid)
      ∷ new_line
      ∷ [])

  unfoldable pub print_services : Observation (List ServiceInfo) → Printed
  print_services observed = record {
    output = all_texts (
        table_cell (text "SERVICE") 40
        ∷ text " "
        ∷ table_cell (text "ACTIVE") 12
        ∷ text " "
        ∷ table_cell (text "SUB") 16
        ∷ text " "
        ∷ table_cell (text "ENABLED") 16
        ∷ text " MAIN PID\n"
        ∷ each_text service_line observed.value
        ∷ []);
    diagnostics = warning_lines observed.warnings;
  }

  unfoldable pub print_service : Observation ServiceInfo → Printed
  print_service observed =
      let service = observed.value in
      record {
        output = all_texts (
            service.unit_name
            ∷ text "\n\nDescription  "
            ∷ service.description
            ∷ text "\nLoad         "
            ∷ service.load_state
            ∷ text "\nActive       "
            ∷ service.active_state
            ∷ text "\nSub          "
            ∷ service.sub_state
            ∷ text "\nEnabled      "
            ∷ dash_if_empty service.unit_file_state
            ∷ text "\nMain PID     "
            ∷ or_dash (Option.map show_pid service.main_pid)
            ∷ text "\nSince        "
            ∷ timestamp_text service.active_enter_timestamp_usec
            ∷ new_line
            ∷ []);
        diagnostics = warning_lines observed.warnings;
      }

  unfoldable pub print_resource_graph : ResourceGraph → Printed
  print_resource_graph graph = record {
    output = all_texts (
        root_line graph.root
        ∷ section_of (text "\nPorts\n")
            (λ (port : PortInfo). all_texts (
              text "  "
              ∷ protocol_text port.socket.protocol
              ∷ text " "
              ∷ endpoint_text port.socket.local
              ∷ text " "
              ∷ format.left 10 port.socket.state
              ∷ text " PID "
              ∷ owner_pids port
              ∷ new_line
              ∷ []))
            graph.ports
        ∷ section_of (text "\nProcesses\n")
            (λ (process : ProcessInfo). all_texts (
              text "  "
              ∷ format.left 8 (show_pid process.pid)
              ∷ text " "
              ∷ format.left 24 (shortened process.name 24)
              ∷ text " "
              ∷ format.left 14 (shortened process.state 14)
              ∷ text " "
              ∷ process.user
              ∷ new_line
              ∷ []))
            graph.processes
        ∷ section_of (text "\nServices\n")
            (λ (service : ServiceInfo). all_texts (
              text "  "
              ∷ format.left 40 (shortened service.unit_name 40)
              ∷ text " "
              ∷ service.active_state
              ∷ text " / "
              ∷ service.sub_state
              ∷ new_line
              ∷ []))
            graph.services
        ∷ section_of (text "\nRecent logs\n") journal_line graph.recent_logs
        ∷ []);
    diagnostics = warning_lines graph.warnings;
  }

  -- the table of `lx port`
  unfoldable pub port_line : PortInfo → Bytes
  port_line port =
      let socket = port.socket in
      all_texts (
        format.left 6 (protocol_text socket.protocol)
        ∷ text " "
        ∷ format.left 40 socket.local.address
        ∷ text " "
        ∷ format.left 6 (to_string socket.local.port)
        ∷ text " "
        ∷ format.left 12 socket.state
        ∷ text " "
        ∷ format.left 7 (to_string socket.uid)
        ∷ text " "
        ∷ format.left 11 (to_string socket.inode)
        ∷ text " "
        ∷ format.left 16 (owner_names port)
        ∷ text " "
        ∷ format.left 12 (owner_pids port)
        ∷ text " "
        ∷ owner_services port
        ∷ new_line
        ∷ [])

  unfoldable pub print_ports : Observation (List PortInfo) → Printed
  print_ports observed = record {
    output =
        text
          "PROTO  ADDRESS                                  PORT   STATE        UID     INODE       PROCESS          PID          SERVICE\n"
        ++ each_text port_line observed.value;
    diagnostics = warning_lines observed.warnings;
  }

  unfoldable pub print_find_result : FindResult → Printed
  print_find_result result = record {
    output = all_texts (
        section_of (text "SERVICES\n")
          (λ (service : ServiceInfo). all_texts (text "  " ∷ service.unit_name ∷ new_line ∷ []))
          result.services
        ∷ section_of (text "\nPROCESSES\n")
            (λ (process : ProcessInfo). all_texts (
              text "  "
              ∷ format.left 8 (show_pid process.pid)
              ∷ text " "
              ∷ process.name
              ∷ new_line
              ∷ []))
            result.processes
        ∷ section_of (text "\nPORTS\n")
            (λ (port : PortInfo). all_texts (
              text "  "
              ∷ protocol_text port.socket.protocol
              ∷ text " "
              ∷ endpoint_text port.socket.local
              ∷ new_line
              ∷ []))
            result.ports
        ∷ section_of (text "\nEXECUTABLES\n")
            (λ executable. all_texts (text "  " ∷ executable ∷ new_line ∷ [])) result.executables
        ∷ []);
    diagnostics = warning_lines result.warnings;
  }
