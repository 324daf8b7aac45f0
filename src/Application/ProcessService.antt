-- ===== src/Application/ProcessService.antt =====
-- src/application/ProcessService.cpp: processes, their services, and signals.
pub mod Signals
pub mod Listing
mod Tests
use lx.Base.{
  zero, some, none, true, false, nat_Eq, list_Eq, int_Eq, option_Eq, Option, List, ℤ, ℕ, Bytes,
  Bool, ◌∷◌, if◌then◌else◌, not, option_eq, ◌||◌, positive, [], ◌==◌, ◌++◌, is_some, ◌&&◌, text,
}
use lx.Domain.{
  ProcessQuery, Result, ErrorCode, Observation, ProcessInfo, SignalDelivery, SignalCapabilities,
  ProcessSignal, Void, Warning, failure, code_eq, Error, success, make_error, unavailable,
  warning_from, not_found, invalid_argument, conflict,
}
use lx.Exec.{Action, pure, observe, fail, ◌>>=◌, ◌>>◌, ask, attempt, lift, perform, sends}
use lx.Contracts.{ProcessProvider, SignalProvider}
use lx.Application.ServiceService.{ServiceService, normalize_unit, unit_by_pid}
use lx.Base.Decimal.{parse_unsigned, max_u32}

pub record ProcessService (W : Type 0) : Type 0 where
  pub process_provider : ProcessProvider W
  pub signal_provider : SignalProvider W
  pub self_pid : ℤ
  pub service_service : Option (ServiceService W)

-- the errors of `unitByPid` that say only that a process has no service
unfoldable pub no_service : ErrorCode → Bool
no_service code = code_eq code unavailable || code_eq code not_found

unfoldable pub with_unit : Result (Option Bytes) → Observation ProcessInfo → Observation ProcessInfo
with_unit (success unit) observed = record observed {
  value = record observed.value { systemd_unit = unit };
}
with_unit (failure e) observed =
    if no_service e.code
    then observed
    else record observed { warnings = observed.warnings ++ warning_from e ∷ [] }

unfoldable pub with_service :
    {W : Type 0}
    → Option (ServiceService W)
    → ℤ
    → Observation ProcessInfo
    → Action W (Observation ProcessInfo)
with_service none pid observed = pure observed
with_service (some services) pid observed = do
  unit ← attempt (unit_by_pid services pid)
  pure (with_unit unit observed)

-- `query.name && query.name->empty()`
unfoldable pub is_empty : Option Bytes → Bool
is_empty none = false
is_empty (some []) = true
is_empty (some (c ∷ s)) = false

unfoldable pub list_error : ErrorCode → Bytes → Error
list_error code message = make_error code message (text "process-service") (text "list")

-- the unit that the processes must belong to, if the query names one
unfoldable pub query_unit :
    {W : Type 0} → Option (ServiceService W) → Option Bytes → Result (Option Bytes)
query_unit services none = success none
query_unit none (some unit) =
    failure (list_error unavailable (text "Service association is unavailable"))
query_unit (some services) (some unit) = elim (normalize_unit unit) [
  | success name ↦ success (some name)
  | failure e ↦ failure e
]

-- `query.user` read as a number
unfoldable pub requested_uid : Option Bytes → Option ℕ
requested_uid none = none
requested_uid (some user) = parse_unsigned max_u32 user

-- `query.name && process.name != *query.name`
unfoldable pub other_name : Option Bytes → ProcessInfo → Bool
other_name none process = false
other_name (some name) process = not (process.name == name)

unfoldable pub other_user : Option Bytes → ProcessInfo → Bool
unfolding requested_uid
other_user none process = false
other_user (some user) process =
    not (option_eq (requested_uid (some user)) (some process.uid)) && not (process.user == user)

-- `query.systemdUnit && process.systemdUnit != query.systemdUnit`
unfoldable pub other_unit : Option Bytes → ProcessInfo → Bool
other_unit none process = false
other_unit (some unit) process = not (option_eq process.systemd_unit (some unit))

-- a round's contribution to the matches and to the warnings
abbrev pub Round : Type 0
Round = List ProcessInfo × List Warning

unfoldable pub keep_unit : Option Bytes → ProcessInfo → List Warning → Round
keep_unit unit process warnings = (if other_unit unit process then [] else process ∷ [], warnings)

unfoldable pub after_unit : Option Bytes → ProcessInfo → Result (Option Bytes) → Result Round
after_unit unit process (success found) =
    success (keep_unit unit (record process { systemd_unit = found }) [])
after_unit unit process (failure e) =
    if is_some unit && code_eq e.code unavailable
    then failure e
    else if no_service e.code
    then success (keep_unit unit process [])
    else success (keep_unit unit process (warning_from e ∷ []))

module _ {W : Type 0} where
  unfoldable pub consider_unit :
      Option (ServiceService W) → Option Bytes → ProcessInfo → Action W Round
  consider_unit none unit process = pure (keep_unit unit process [])
  consider_unit (some services) unit process = do
    found ← attempt (unit_by_pid services process.pid)
    lift (after_unit unit process found)

  -- one round of the loop
  unfoldable pub consider : Option (ServiceService W) → ProcessQuery → ProcessInfo → Action W Round
  consider services query process =
      if other_name query.name process || other_user query.user process
      then pure ([], [])
      else consider_unit services query.systemd_unit process

  unfoldable pub collect :
      Option (ServiceService W)
      → ProcessQuery
      → List ProcessInfo
      → Observation (List ProcessInfo)
      → Action W (Observation (List ProcessInfo))
  collect services query [] found = pure found
  collect services query (process ∷ rest) found = do
    round ← consider services query process
    collect services query rest
        (record { value = found.value ++ round.0; warnings = found.warnings ++ round.1 })

module _ {W : Type 0} (self : ProcessService W) where
  open self use {process_provider, signal_provider, self_pid, service_service}

  unfoldable pub inspect : ℤ → Action W (Observation ProcessInfo)
  inspect pid =
      if positive pid
      then (do observed ← ask (process_provider.get pid); with_service service_service pid observed)
      else fail (
          make_error invalid_argument (text "PID must be greater than zero")
            (text "process-service") (text "inspect"))

  unfoldable pub list : ProcessQuery → Action W (Observation (List ProcessInfo))
  list query =
      if is_empty query.name
      then fail (list_error invalid_argument (text "Process name must not be empty"))
      else if is_empty query.user
      then fail (list_error invalid_argument (text "Process user must not be empty"))
      else do
        unit ← lift (query_unit service_service query.systemd_unit)
        observed ← ask process_provider.list
        collect service_service (record query { systemd_unit = unit }) observed.value
            (record { value = []; warnings = observed.warnings })

  unfoldable pub target_error : ErrorCode → Bytes → Result Void
  target_error code message =
      failure (make_error code message (text "process-service") (text "validate signal target"))

  unfoldable pub validate_signal_target : ℤ → Result Void
  unfolding target_error
  validate_signal_target pid =
      if not (positive pid)
      then target_error invalid_argument (text "PID must be greater than zero")
      else if pid == ℤ.pos 1
      then target_error conflict (text "Refusing to signal PID 1")
      else if pid == self_pid
      then target_error conflict (text "Refusing to signal the LX process")
      else success tt

  unfoldable pub signal : ℤ → ProcessSignal → Action W SignalDelivery
  signal pid process_signal = do
    lift (validate_signal_target pid)
    perform (sends pid process_signal) (signal_provider.send pid process_signal)

  unfoldable pub stop : ℤ → Action W SignalDelivery
  unfolding signal
  stop pid = signal pid ProcessSignal.terminate

  unfoldable pub kill : ℤ → Action W SignalDelivery
  unfolding signal
  kill pid = signal pid ProcessSignal.kill

  unfoldable pub wait_for_exit : ℤ → ℕ → Action W Bool
  wait_for_exit pid timeout = do
    lift (validate_signal_target pid)
    ask (signal_provider.wait_for_exit pid timeout)

  unfoldable pub signal_capabilities : Action W SignalCapabilities
  signal_capabilities = observe signal_provider.capabilities
