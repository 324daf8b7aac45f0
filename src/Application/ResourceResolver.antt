-- ===== src/Application/ResourceResolver.antt =====
-- src/application/ResourceResolver.cpp: what an expression such as "port:80", "nginx" or "80" names.
pub mod Explicit
pub mod Silent
mod Tests
use lx.Application.PortService.{PortService}
use lx.Application.PortService.Inspect
use lx.Application.ProcessService.{ProcessService}
use lx.Application.ProcessService
use lx.Application.ServiceService.{ServiceService, normalize_unit}
use lx.Base.{
  suc, some, none, true, false, nat_Eq, list_Eq, int_Eq, option_Eq, [], List, ℕ, ℤ, Bytes, Option,
  Bool, ◌∷◌, ◌==◌, if◌then◌else◌, leb, not, ◌&&◌, text, is_nil, any_of, ◌++◌, ◌||◌, before, ltb,
  drop, from,
}
use lx.Exec.{◌>>=◌, Action, lift, attempt, fail, pure}
use lx.Domain.{
  ErrorCode, Result, ProcessInfo, Observation, Error, ResourceTarget, not_found, PortInfo,
  make_error, failure, ServiceInfo, any_process, success, process_target, port_target,
  invalid_argument, service_target, conflict, any_socket,
}
use lx.Base.Decimal.{parse_unsigned, to_string, max_u64, max_pid}
use lx.Application.ServiceService

-- `static_cast<bool>(result)` and the like: what a look at the system found
unfoldable pub found_process : Result (Observation ProcessInfo) → Bool
found_process (success process) = true
found_process (failure e) = false

unfoldable pub found_ports : Result (Observation (List PortInfo)) → Bool
found_ports (success ports) = not (is_nil ports.value)
found_ports (failure e) = false

unfoldable pub resolver_error : ErrorCode → Bytes → Bytes → Error
resolver_error code message operation = make_error code message (text "resource-resolver") operation

unfoldable pub positive_value : ℕ → Bytes → Bytes → Option ℕ → Result ℕ
unfolding resolver_error
positive_value maximum kind expression none = failure (
    resolver_error invalid_argument (text "Invalid " ++ (kind ++ (text ": " ++ expression)))
      (text "parse"))
positive_value maximum kind expression (some value) =
    if value == 0 || ltb maximum value
    then failure (
        resolver_error invalid_argument (text "Invalid " ++ (kind ++ (text ": " ++ expression)))
          (text "parse"))
    else success value

unfoldable pub positive_integer : Bytes → ℕ → Bytes → Result ℕ
unfolding positive_value
positive_integer expression maximum kind =
    positive_value maximum kind expression (parse_unsigned max_u64 expression)

unfoldable pub not_found_error : Bytes → Error
not_found_error expression =
    resolver_error not_found (text "No observable resource matched \"" ++ (expression ++ text "\""))
      (text "resolve")

unfoldable pub port_or_error : Result ℕ → Result ResourceTarget
port_or_error (success port) = success (port_target port)
port_or_error (failure e) = failure e

unfoldable pub pid_or_error : Result ℕ → Result ResourceTarget
pid_or_error (success pid) = success (process_target (ℤ.pos pid))
pid_or_error (failure e) = failure e

unfoldable pub service_or_error : Result Bytes → Result ResourceTarget
service_or_error (success unit) = success (service_target unit)
service_or_error (failure e) = failure e

unfoldable pub separator : ℕ → Bool
separator c = c == b':'

-- an expression with a colon, cut at the first
unfoldable pub resolve_prefix : Bytes → Bytes → Result ResourceTarget
resolve_prefix prefix value =
    if prefix == text "port"
    then port_or_error (positive_integer value 65535 (text "port"))
    else if prefix == text "pid"
    then pid_or_error (positive_integer value max_pid (text "PID"))
    else if prefix == text "service"
    then service_or_error (normalize_unit value)
    else failure (
        resolver_error invalid_argument
          (text "Unknown resource prefix \"" ++ (prefix ++ text "\"; use port:, pid:, or service:"))
          (text "resolve"))

-- what a number names, where the process exists and where the port is open
unfoldable pub resolve_found : Bytes → ℕ → Bool → Bool → Result ResourceTarget
resolve_found expression number process port =
    if process && port
    then failure (
        resolver_error conflict
          (text "Multiple resources matched \""
            ++ (expression
                ++ (text "\": port:" ++ (expression ++ (text " and pid:" ++ expression)))))
          (text "resolve"))
    else if port
    then success (port_target number)
    else if process
    then success (process_target (ℤ.pos number))
    else failure (not_found_error expression)

-- `stream << pid`
unfoldable pub show_pid : ℤ → Bytes
show_pid (ℤ.pos n) = to_string n
show_pid (ℤ.negsuc n) = b'-' ∷ to_string (suc n)

unfoldable pub pid_list : List ProcessInfo → Bytes
unfolding show_pid
pid_list [] = []
pid_list (process ∷ rest) = text " pid:" ++ (show_pid process.pid ++ pid_list rest)

-- what a process name names
unfoldable pub resolve_matches : Bytes → List ProcessInfo → Result ResourceTarget
resolve_matches expression [] = failure (not_found_error expression)
resolve_matches expression (process ∷ []) = success (process_target process.pid)
resolve_matches expression (process ∷ other ∷ rest) = failure (
    resolver_error conflict
      (text "Multiple processes matched \""
        ++ (expression ++ (text "\"; use" ++ pid_list (process ∷ other ∷ rest))))
      (text "resolve"))

pub record ResourceResolver (W : Type 0) : Type 0 where
  pub port_service : PortService W
  pub process_service : ProcessService W
  pub service_service : ServiceService W

module _ {W : Type 0} (self : ResourceResolver W) where
  open self use {port_service, process_service, service_service}

  unfoldable pub process_exists : ℕ → Action W Bool
  process_exists number =
      if leb number max_pid
      then (do
        process ← attempt (ProcessService.inspect process_service (ℤ.pos number))
        pure (found_process process))
      else pure false

  unfoldable pub port_exists : ℕ → Action W Bool
  port_exists number =
      if leb number 65535
      then (do
        ports ←
            attempt (Inspect.inspect port_service (record any_socket { local_port = some number }))
        pure (found_ports ports))
      else pure false

  unfoldable pub resolve_number : Bytes → ℕ → Action W ResourceTarget
  resolve_number expression number = do
    process ← process_exists number
    port ← port_exists number
    lift (resolve_found expression number process port)

  unfoldable pub resolve_process : Bytes → Action W ResourceTarget
  resolve_process expression = do
    processes ← ProcessService.list process_service (record any_process { name = some expression })
    lift (resolve_matches expression processes.value)

  unfoldable pub resolve_unless_service :
      Bytes → Result (Observation ServiceInfo) → Action W ResourceTarget
  resolve_unless_service expression (success service) =
      pure (service_target service.value.unit_name)
  resolve_unless_service expression (failure e) = resolve_process expression

  unfoldable pub resolve_name : Bytes → Action W ResourceTarget
  resolve_name expression = do
    service ← attempt (ServiceService.inspect service_service expression)
    resolve_unless_service expression service

  unfoldable pub resolve_plain : Bytes → Result ℕ → Action W ResourceTarget
  resolve_plain expression (success number) = resolve_number expression number
  resolve_plain expression (failure e) = resolve_name expression

  unfoldable pub resolve : Bytes → Action W ResourceTarget
  resolve expression =
      if expression == []
      then fail (
          resolver_error invalid_argument (text "Resource expression must not be empty")
            (text "resolve"))
      else if any_of separator expression
      then lift (resolve_prefix (before separator expression) (drop 1 (from separator expression)))
      else resolve_plain expression (positive_integer expression max_u64 (text "number"))
