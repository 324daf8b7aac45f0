-- ===== src/Cli/Json.antt =====
-- JsonSerializer.cpp: the output of `--json`. The JSON library is given to the model: it makes values
-- and writes them, or throws where a text is not UTF-8.
pub mod Output
pub mod Secrets
mod Tests
use lx.Base.{
  some, none, [], ◌∷◌, true, false, suc, nat_Eq, list_Eq, int_Eq, option_Eq, Bytes, Option, ℤ, List,
  Bool, ℕ, if◌then◌else◌, map, from, ◌/◌, text, ◌==◌, not, ◌&&◌, before, any_of, ◌++◌,
}
use lx.Domain.{
  protocol_Eq, family_Eq, tcp, ipv4, port_target, process_target, service_target, JournalEntry,
  Error, ErrorCode, Endpoint, SocketInfo, Warning, PortInfo, ServiceInfo, ResourceTarget,
  ProcessInfo, Fraction,
}
use lx.Application.FindService.{FindResult}
use lx.Application.InspectService.{ResourceGraph}
use lx.Application.DoctorService.{DoctorReport, CapabilityCheck, CapabilityStatus}
use lx.Cli.Texts.{secret_key, redacted}
use lx.Base.Decimal.{negated}
use mathlib.Core.Option

pub record JsonLibrary : Type 1 where
  pub Json : Type 0
  pub null : Json
  pub text_value : Bytes → Json
  pub number : ℤ → Json
  pub percent : Fraction → Json
  pub array : List Json → Json
  pub object : List (Bytes × Json) → Json
  pub dump : Json → Option Bytes

unfoldable pub error_code_name : ErrorCode → Bytes
error_code_name ErrorCode.invalid_argument = text "invalid_argument"
error_code_name ErrorCode.not_found = text "not_found"
error_code_name ErrorCode.permission_denied = text "permission_denied"
error_code_name ErrorCode.unsupported = text "unsupported"
error_code_name ErrorCode.unavailable = text "unavailable"
error_code_name ErrorCode.io_error = text "io_error"
error_code_name ErrorCode.protocol_error = text "protocol_error"
error_code_name ErrorCode.parse_error = text "parse_error"
error_code_name ErrorCode.operation_failed = text "operation_failed"
error_code_name ErrorCode.timeout = text "timeout"
error_code_name ErrorCode.conflict = text "conflict"
error_code_name ErrorCode.interrupted = text "interrupted"

unfoldable pub capability_name : CapabilityStatus → Bytes
capability_name CapabilityStatus.available = text "available"
capability_name CapabilityStatus.unavailable = text "unavailable"
capability_name CapabilityStatus.not_implemented = text "not_implemented"

-- The loop of `arguments` over the values, in which `redactNext` is set and used.
unfoldable pub argument_value : Bytes → Bytes
argument_value argument =
    let key = from (λ c. not (c == b'-')) (before (λ c. c == b'=') argument) in
    if secret_key key && any_of (λ c. c == b'=') argument
    then before (λ c. c == b'=') argument ++ (b'=' ∷ redacted)
    else argument

unfoldable pub asks_to_redact : Bytes → Bool
asks_to_redact argument =
    let key = from (λ c. not (c == b'-')) (before (λ c. c == b'=') argument) in
    secret_key key && not (any_of (λ c. c == b'=') argument)

unfoldable pub argument_values : Bool → List Bytes → List Bytes
argument_values redact_next [] = []
argument_values redact_next (argument ∷ rest) =
    let value = if redact_next then redacted else argument_value argument in
    let next = not redact_next && asks_to_redact argument in value ∷ argument_values next rest

unfoldable pub arguments : List Bytes → Bool → List Bytes
arguments source raw = if raw then source else argument_values false source

-- microseconds of a number of nanoseconds, rounded towards 0
unfoldable pub microseconds : ℤ → ℤ
microseconds (ℤ.pos n) = ℤ.pos (n / 1000)
microseconds (ℤ.negsuc n) = negated (suc n / 1000)

module _ (json : JsonLibrary) where
  open json use {Json, null, text_value, number, percent, array, object, dump}

  abbrev pub natural : ℕ → Json
  natural n = number (ℤ.pos n)

  unfoldable pub error_value : Error → Json
  error_value error = object (
      (text "code", text_value (error_code_name error.code))
      ∷ (text "message", text_value error.message)
      ∷ (text "system_error", number error.system_error)
      ∷ (text "component", text_value error.component)
      ∷ (text "operation", text_value error.operation)
      ∷ [])

  unfoldable pub warning_value : Warning → Json
  warning_value warning = object (
      (text "code", text_value (error_code_name warning.code))
      ∷ (text "message", text_value warning.message)
      ∷ (text "system_error", number warning.system_error)
      ∷ (text "component", text_value warning.component)
      ∷ (text "operation", text_value warning.operation)
      ∷ [])

  unfoldable pub warning_values : List Warning → Json
  warning_values warnings = array (map warning_value warnings)

  unfoldable pub optional_string : Option Bytes → Json
  optional_string none = null
  optional_string (some value) = text_value value

  unfoldable pub optional_pid : Option ℤ → Json
  optional_pid none = null
  optional_pid (some value) = number value

  unfoldable pub cpu_value : Option Fraction → Json
  cpu_value none = null
  cpu_value (some value) = percent value

  unfoldable pub process_value : ProcessInfo → Bool → Json
  process_value process raw = object (
      (text "pid", number process.pid)
      ∷ (text "ppid", number process.ppid)
      ∷ (text "name", text_value process.name)
      ∷ (text "state", text_value process.state)
      ∷ (text "uid", natural process.uid)
      ∷ (text "gid", natural process.gid)
      ∷ (text "user", text_value process.user)
      ∷ (text "executable", optional_string process.executable)
      ∷ (text "cwd", optional_string process.cwd)
      ∷ (text "argv", array (map text_value (arguments process.argv raw)))
      ∷ (text "rss_bytes", natural process.rss_bytes)
      ∷ (text "threads", natural process.threads)
      ∷ (text "cpu_percent", cpu_value process.cpu_percent)
      ∷ (text "systemd_unit", optional_string process.systemd_unit)
      ∷ [])

  unfoldable pub endpoint_value : Endpoint → Json
  endpoint_value endpoint =
      object
        ((text "address", text_value endpoint.address) ∷ (text "port", natural endpoint.port) ∷ [])

  unfoldable pub remote_value : Option Endpoint → Json
  remote_value none = null
  remote_value (some endpoint) = endpoint_value endpoint

  unfoldable pub socket_value : SocketInfo → Json
  socket_value socket = object (
      (text "protocol", text_value (if socket.protocol == tcp then text "tcp" else text "udp"))
      ∷ (text "family", text_value (if socket.family == ipv4 then text "ipv4" else text "ipv6"))
      ∷ (text "local", endpoint_value socket.local)
      ∷ (text "remote", remote_value socket.remote)
      ∷ (text "state", text_value socket.state)
      ∷ (text "uid", natural socket.uid)
      ∷ (text "inode", natural socket.inode)
      ∷ (text "owner_pids", array (map number socket.owner_pids))
      ∷ [])

  unfoldable pub process_values : List ProcessInfo → Json
  process_values source = array (map (λ process. process_value process false) source)

  unfoldable pub port_value : PortInfo → Json
  port_value port =
      object (
        (text "socket", socket_value port.socket)
        ∷ (text "owners", process_values port.owners)
        ∷ [])

  unfoldable pub service_value : ServiceInfo → Json
  service_value service = object (
      (text "unit_name", text_value service.unit_name)
      ∷ (text "description", text_value service.description)
      ∷ (text "load_state", text_value service.load_state)
      ∷ (text "active_state", text_value service.active_state)
      ∷ (text "sub_state", text_value service.sub_state)
      ∷ (text "unit_file_state", text_value service.unit_file_state)
      ∷ (text "main_pid", optional_pid service.main_pid)
      ∷ (text "active_enter_timestamp_usec", natural service.active_enter_timestamp_usec)
      ∷ [])

  unfoldable pub journal_value : JournalEntry → Json
  journal_value entry = object (
      (text "timestamp_unix_usec", number (microseconds entry.timestamp))
      ∷ (text "cursor", text_value entry.cursor)
      ∷ (text "systemd_unit", optional_string entry.systemd_unit)
      ∷ (text "pid", optional_pid entry.pid)
      ∷ (text "command", optional_string entry.command)
      ∷ (text "message", text_value entry.message)
      ∷ (text "priority", optional_pid (Option.map ℤ.pos entry.priority))
      ∷ [])

  unfoldable pub port_values : List PortInfo → Json
  port_values source = array (map port_value source)

  unfoldable pub service_values : List ServiceInfo → Json
  service_values source = array (map service_value source)

  unfoldable pub journal_values : List JournalEntry → Json
  journal_values source = array (map journal_value source)

  unfoldable pub resource_target_value : ResourceTarget → Json
  resource_target_value (port_target port) =
      object ((text "type", text_value (text "port")) ∷ (text "value", natural port) ∷ [])
  resource_target_value (process_target pid) =
      object ((text "type", text_value (text "pid")) ∷ (text "value", number pid) ∷ [])
  resource_target_value (service_target unit) =
      object ((text "type", text_value (text "service")) ∷ (text "value", text_value unit) ∷ [])

  abbrev pub schema_version : ℕ
  schema_version = 1

  unfoldable pub envelope : Bytes → Bytes → List (Bytes × Json) → List Warning → Json
  envelope command operation fields warnings = object (
      (text "schema_version", natural schema_version)
      ∷ (text "command", text_value command)
      ∷ (text "operation", text_value operation)
      ∷ (text "data", object fields)
      ∷ (text "warnings", warning_values warnings)
      ∷ [])
