-- ===== src/Cli/Json/Output.antt =====
-- The functions of JsonSerializer.cpp that the command line calls. `none` stands for the exception of
-- the library.
use lx.Base.{[], ◌∷◌, text, Option, Bytes, List, Bool, map}
use lx.Application.FindService.{FindResult}
use lx.Application.InspectService.{ResourceGraph}
use lx.Application.DoctorService.{DoctorReport, CapabilityCheck}
use lx.Cli.Json.{
  JsonLibrary, capability_name, envelope, journal_value, service_values, resource_target_value,
  cpu_value, natural, service_value, process_values, journal_values, process_value, schema_version,
  port_values, error_value,
}
use lx.Domain.{
  HostStatus, Observation, JournalEntry, ProcessInfo, ServiceInfo, Error, Warning, PortInfo,
}

module _ (json : JsonLibrary) where
  open json use {Json, text_value, number, array, object, dump}

  unfoldable pub error : Bytes → Bytes → Error → Option Bytes
  error command operation value = dump (
      object (
        (text "schema_version", natural json (schema_version json))
        ∷ (text "command", text_value command)
        ∷ (text "operation", text_value operation)
        ∷ (text "error", error_value json value)
        ∷ []))

  unfoldable pub empty_success : Bytes → Bytes → List Warning → Option Bytes
  empty_success command operation warnings = dump (envelope json command operation [] warnings)

  unfoldable pub process : Observation ProcessInfo → Bool → Option Bytes
  process value raw_command = dump (
      envelope json (text "process") (text "inspect")
        ((text "process", process_value json value.value raw_command) ∷ []) value.warnings)

  unfoldable pub processes : Observation (List ProcessInfo) → Option Bytes
  processes value = dump (
      envelope json (text "process") (text "list")
        ((text "processes", process_values json value.value) ∷ []) value.warnings)

  unfoldable pub ports : Observation (List PortInfo) → Bytes → Option Bytes
  ports value operation = dump (
      envelope json (text "port") operation ((text "ports", port_values json value.value) ∷ [])
        value.warnings)

  unfoldable pub service : Observation ServiceInfo → Option Bytes
  service value = dump (
      envelope json (text "service") (text "inspect")
        ((text "service", service_value json value.value) ∷ []) value.warnings)

  unfoldable pub services : Observation (List ServiceInfo) → Option Bytes
  services value = dump (
      envelope json (text "service") (text "list")
        ((text "services", service_values json value.value) ∷ []) value.warnings)

  unfoldable pub logs : Observation (List JournalEntry) → Option Bytes
  logs value = dump (
      envelope json (text "log") (text "read")
        ((text "entries", journal_values json value.value) ∷ []) value.warnings)

  unfoldable pub log_event : Observation JournalEntry → Option Bytes
  log_event value = dump (
      envelope json (text "log") (text "follow")
        ((text "entry", journal_value json value.value) ∷ []) value.warnings)

  unfoldable pub check_value : CapabilityCheck → Json
  check_value check = object (
      (text "name", text_value check.name)
      ∷ (text "status", text_value (capability_name check.status))
      ∷ (text "detail", text_value check.detail)
      ∷ [])

  unfoldable pub doctor : DoctorReport → Option Bytes
  doctor value = dump (
      envelope json (text "doctor") (text "inspect")
        ((text "checks", array (map check_value value.checks)) ∷ []) [])

  unfoldable pub inspect : ResourceGraph → Option Bytes
  inspect value = dump (
      envelope json (text "inspect") (text "inspect")
        ((text "root", resource_target_value json value.root)
          ∷ (text "ports", port_values json value.ports)
          ∷ (text "processes", process_values json value.processes)
          ∷ (text "services", service_values json value.services)
          ∷ (text "recent_logs", journal_values json value.recent_logs)
          ∷ [])
        value.warnings)

  unfoldable pub find : FindResult → Option Bytes
  find value = dump (
      envelope json (text "find") (text "search")
        ((text "services", service_values json value.services)
          ∷ (text "processes", process_values json value.processes)
          ∷ (text "ports", port_values json value.ports)
          ∷ (text "executables", array (map text_value value.executables))
          ∷ [])
        value.warnings)

  unfoldable pub status : HostStatus → Option Bytes
  status value = dump (
      envelope json (text "status") (text "read")
        ((
          text "status",
          object (
              (text "hostname", text_value value.hostname)
              ∷ (text "cpu_percent", cpu_value json value.cpu_percent)
              ∷ (text "memory_total_bytes", natural json value.memory_total_bytes)
              ∷ (text "memory_used_bytes", natural json value.memory_used_bytes)
              ∷ (text "uptime_milliseconds", natural json value.uptime)
              ∷ []),
        )
          ∷ [])
        [])
