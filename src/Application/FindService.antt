-- ===== src/Application/FindService.antt =====
-- src/application/FindService.cpp: the resources that a text is part of, and those related to them. Texts
-- are compared in lower case, in the C locale.
pub mod Texts
pub mod Matches
pub mod Found
mod Tests
use lx.Base.{
  some, none, [], ◌∷◌, true, false, nat_Eq, list_Eq, int_Eq, option_Eq, List, Bytes, Option, ℕ, map,
  Bool, ℤ, if◌then◌else◌, contains, keep, ◌||◌, leb, is_nil, ◌&&◌, any_of, starts_with, text, ◌+◌,
  ◌++◌, list_ltb, ltb,
}
use lx.Domain.{
  success, failure, Result, ProcessInfo, ErrorCode, ServiceInfo, Observation, Error, make_error,
  Warning, PortInfo, warning_from, any_process, not_found, any_socket, invalid_argument,
}
use lx.Application.ProcessService
use lx.Application.ProcessService.{ProcessService}
use lx.Application.PortService.Inspect
use lx.Application.PortService.{PortService}
use lx.Application.ServiceService
use lx.Application.ServiceService.{ServiceService}
use lx.Exec.{◌>>=◌, ◌>>◌, Action, attempt, fail, lift}
use lx.Base.Sort.{unique, sort}
use lx.Base.Decimal.{to_string}

-- `std::tolower`
unfoldable pub lower_byte : ℕ → ℕ
lower_byte c = if leb 65 c && leb c 90 then c + 32 else c

unfoldable pub lower : Bytes → Bytes
lower value = map lower_byte value

-- `value.find(needle) != npos`
unfoldable pub occurs : Bytes → Bytes → Bool
occurs needle [] = is_nil needle
occurs needle (c ∷ rest) = starts_with needle (c ∷ rest) || occurs needle rest

unfoldable pub contains_text : Bytes → Bytes → Bool
contains_text value needle = occurs needle (lower value)

unfoldable pub executable_matches : Option Bytes → Bytes → Bool
executable_matches none query = false
executable_matches (some path) query = contains_text path query

unfoldable pub process_matches : ProcessInfo → Bytes → Bool
process_matches process query =
    contains_text process.name query
    || contains_text process.user query
    || executable_matches process.executable query
    || any_of (λ argument. contains_text argument query) process.argv

unfoldable pub service_matches : Bytes → ServiceInfo → Bool
service_matches query service =
    contains_text service.unit_name query || contains_text service.description query

-- `process.systemdUnit && matchedUnits.count(*process.systemdUnit) != 0`; the set is a list
unfoldable pub in_units : List Bytes → Option Bytes → Bool
in_units units none = false
in_units units (some unit) = contains unit units

unfoldable pub process_found : Bytes → List Bytes → ProcessInfo → Bool
process_found query units process =
    process_matches process query || in_units units process.systemd_unit

unfoldable pub port_found : Bytes → List ℤ → List Bytes → PortInfo → Bool
port_found query pids units port =
    contains_text (to_string port.socket.local.port) query
    || any_of (λ pid. contains pid pids) port.socket.owner_pids
    || any_of (λ (owner : ProcessInfo). in_units units owner.systemd_unit) port.owners

-- the values and the warnings of a list that may fail
unfoldable pub listed : {A : Type 0} → Result (Observation (List A)) → List A
listed (success observed) = observed.value
listed (failure e) = []

unfoldable pub warnings_of : {A : Type 0} → Result (Observation A) → List Warning
warnings_of (success observed) = observed.warnings
warnings_of (failure e) = warning_from e ∷ []

-- `if (process.executable) executables.insert(*process.executable)`
unfoldable pub add_executable : Option Bytes → List Bytes → List Bytes
add_executable none executables = executables
add_executable (some path) executables = path ∷ executables

unfoldable pub executables_of : List ProcessInfo → List Bytes
unfolding add_executable
executables_of [] = []
executables_of (process ∷ rest) = add_executable process.executable (executables_of rest)

pub record FindResult : Type 0 where
  pub services : List ServiceInfo
  pub processes : List ProcessInfo
  pub ports : List PortInfo
  pub executables : List Bytes
  pub warnings : List Warning

unfoldable pub find_error : ErrorCode → Bytes → Error
find_error code message = make_error code message (text "find-service") (text "find")

unfoldable pub units_found : Bytes → Result (Observation (List ServiceInfo)) → List Bytes
units_found query services =
    map (λ (s : ServiceInfo). s.unit_name) (keep (service_matches query) (listed services))

unfoldable pub processes_found :
    Bytes
    → Result (Observation (List ServiceInfo))
    → Observation (List ProcessInfo)
    → List ProcessInfo
processes_found query services processes =
    keep (process_found query (units_found query services)) processes.value

unfoldable pub found_of :
    Bytes
    → Result (Observation (List ServiceInfo))
    → Observation (List ProcessInfo)
    → Result (Observation (List PortInfo))
    → FindResult
found_of query services processes ports =
    let found = processes_found query services processes in
    record {
      services = keep (service_matches query) (listed services);
      processes = found;
      ports =
          keep
            (port_found query (map (λ (p : ProcessInfo). p.pid) found) (units_found query services))
            (listed ports);
      executables = unique (sort (list_ltb ltb) (executables_of found));
      warnings = warnings_of services ++ (processes.warnings ++ warnings_of ports);
    }

-- the end of `find`
unfoldable pub not_empty : Bytes → FindResult → Result FindResult
not_empty query result =
    if is_nil result.services
      && is_nil result.processes
      && is_nil result.ports
      && is_nil result.executables
    then failure
        (find_error not_found (text "No observable resource matched \"" ++ (query ++ text "\"")))
    else success result

pub record FindService (W : Type 0) : Type 0 where
  pub ports : PortService W
  pub processes : ProcessService W
  pub services : ServiceService W

module _ {W : Type 0} (self : FindService W) where
  unfoldable pub find_lowered : Bytes → Bytes → Action W FindResult
  find_lowered query normalized = do
    services ← attempt (ServiceService.list self.services)
    processes ← ProcessService.list self.processes any_process
    ports ← attempt (Inspect.inspect self.ports any_socket)
    lift (not_empty query (found_of normalized services processes ports))

  unfoldable pub find : Bytes → Action W FindResult
  find query =
      if is_nil (lower query)
      then fail (find_error invalid_argument (text "Find query must not be empty"))
      else find_lowered query (lower query)
