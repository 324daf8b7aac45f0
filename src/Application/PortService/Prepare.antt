-- ===== src/Application/PortService/Prepare.antt =====
-- `prepareRelease`: the plan for the release of a port.
use lx.Application.PortService.Inspect.{inspect}
use lx.Base.{
  some, none, nat_Eq, list_Eq, int_Eq, option_Eq, List, ℕ, ℤ, Option, Bytes, ◌∷◌, Bool,
  if◌then◌else◌, ◌++◌, find_if, ◌==◌, int_ltb, text, [], is_nil,
}
use lx.Exec.{◌>>=◌, ◌>>◌, Action, fail, lift, pure}
use lx.Application.PortService.{PortService}
use lx.Domain.{
  ErrorCode, PortInfo, SocketQuery, Result, Observation, ProcessInfo, Void, any_socket,
  PortReleasePlan, Error, success, make_error, failure, not_found, permission_denied,
  invalid_argument,
}
use lx.Application.ProcessService.{ProcessService, validate_signal_target}
use lx.Base.Sort.{unique, sort}
use lx.Base.Decimal.{to_string}

unfoldable pub prepare_error : ErrorCode → Bytes → Error
prepare_error code message = make_error code message (text "port-service") (text "prepare release")

abbrev pub prepend : List ℤ → Result (List ℤ) → Result (List ℤ)
prepend pids (success more) = success (pids ++ more)
prepend pids (failure e) = failure e

-- the owners of all sockets, in their order; a socket with no known owner is refused
unfoldable pub collect_owners : List PortInfo → Result (List ℤ)
collect_owners [] = success []
collect_owners (port ∷ rest) =
    if is_nil port.socket.owner_pids
    then failure (
        prepare_error permission_denied
          (text "Cannot safely release the port because a socket owner is unresolved"))
    else prepend port.socket.owner_pids (collect_owners rest)

unfoldable pub has_pid : ℤ → ProcessInfo → Bool
has_pid pid process = process.pid == pid

-- the first process with the PID among the owners, socket by socket
unfoldable pub owner_process : ℤ → List PortInfo → Option ProcessInfo
owner_process pid [] = none
owner_process pid (port ∷ rest) = elim (find_if (has_pid pid) port.owners) [
  | some process ↦ some process
  | none ↦ owner_process pid rest
]

unfoldable pub unit_of : Option ProcessInfo → Option Bytes
unit_of none = none
unit_of (some process) = process.systemd_unit

-- one round over the owners: the unit that they share so far (`none` before the first), or a stop
unfoldable pub join_unit : Option Bytes → Option Bytes → Option Bytes
join_unit common none = none
join_unit none (some unit) = some unit
join_unit (some common) (some unit) = if common == unit then some common else none

-- The unit of all the processes, `none` where one has none or two differ.
unfoldable pub common_unit : List PortInfo → Option Bytes → List ℤ → Option Bytes
unfolding unit_of owner_process join_unit
common_unit ports common [] = common
common_unit ports common (pid ∷ rest) =
    elim (join_unit common (unit_of (owner_process pid ports))) [
      | none ↦ none
      | some unit ↦ common_unit ports (some unit) rest
    ]

unfoldable pub validate_all : {W : Type 0} → ProcessService W → List ℤ → Result Void
validate_all service [] = success tt
validate_all service (pid ∷ rest) = elim (validate_signal_target service pid) [
  | success v ↦ validate_all service rest
  | failure e ↦ failure e
]

abbrev pub port_query : ℕ → SocketQuery
port_query port = record any_socket { local_port = some port }

unfoldable pub sorted_owners : List ℤ → List ℤ
sorted_owners pids = unique (sort int_ltb pids)

unfoldable pub plan_of : ℕ → List PortInfo → List ℤ → PortReleasePlan
unfolding sorted_owners
plan_of port ports pids = record {
  local_port = port;
  ports = ports;
  owner_pids = sorted_owners pids;
  recommended_unit = common_unit ports none (sorted_owners pids);
}

module _ {W : Type 0} (self : PortService W) where
  -- the plan for the sockets that `inspect` found
  unfoldable pub plan_for : ℕ → Observation (List PortInfo) → Action W (Observation PortReleasePlan)
  plan_for port inspected =
      if is_nil inspected.value
      then fail (prepare_error not_found (text "No socket found for port " ++ to_string port))
      else do
        pids ← lift (collect_owners inspected.value)
        lift (validate_all self.process_service (plan_of port inspected.value pids).owner_pids)
        pure (record { value = plan_of port inspected.value pids; warnings = inspected.warnings })

  unfoldable pub prepare_release : ℕ → Action W (Observation PortReleasePlan)
  prepare_release port =
      if port == 0
      then fail (prepare_error invalid_argument (text "Port must be between 1 and 65535"))
      else do inspected ← inspect self (port_query port); plan_for port inspected
