-- ===== src/Linux/Systemd/ServiceProvider.antt =====
-- SystemdServiceProvider.cpp: units by the calls and properties of the service manager.
mod Tests
use lx.Base.{
  some, none, inl, inr, Option, Bytes, List, [], zero, nat_Eq, list_Eq, int_Eq, option_Eq, ℕ, text,
  if◌then◌else◌, ℤ, ◌++◌, ltb, ◌==◌, negsuc, ◌^◌, ◌⊎◌, ◌∷◌, pos, ◌-◌,
}
use lx.Domain.{
  Error, ErrorCode, ServiceInfo, Result, make_error, Observation, protocol_error, Warning, success,
  Void, code_eq, warning_from, failure, not_found, invalid_argument,
}
use lx.Exec.{◌>>=◌, ◌>>◌, Action, pure, attempt, fail, observe, lift}
use lx.Linux.Systemd.SdBus.{
  SdBus, bus_error, with_reply, with_bus, BusFailure, text_argument, number_argument,
}
use lx.Linux.Systemd.Messages.{is_service, parse_list_units}
use lx.Linux.Systemd.JournalFields.{or_empty}
use lx.Linux.Systemd.Units.{
  string_property, text_or_fail, trivial_property, get_unit_path, unit_file_state, protocol_failure,
}

abbrev pub unit_interface : Bytes
unit_interface = text "org.freedesktop.systemd1.Unit"

abbrev pub service_interface : Bytes
service_interface = text "org.freedesktop.systemd1.Service"

abbrev pub set_file_state : Bytes → ServiceInfo → ServiceInfo
set_file_state state service = record service { unit_file_state = state }

-- `static_cast<pid_t>` of a number of 32 bits
unfoldable pub to_pid : ℕ → ℤ
to_pid n = if ltb n (2 ^ 31) then pos n else negsuc (2 ^ 32 - n - 1)

unfoldable pub set_main_pid : ℕ → ServiceInfo → ServiceInfo
set_main_pid pid service =
    if pid == 0 then service else record service { main_pid = some (to_pid pid) }

abbrev pub set_timestamp : ℕ → ServiceInfo → ServiceInfo
set_timestamp usec service = record service { active_enter_timestamp_usec = usec }

abbrev pub warn : Observation ServiceInfo → Error → Observation ServiceInfo
warn observed e = record observed { warnings = observed.warnings ++ warning_from e ∷ [] }

-- `if (value) ...; else observation.warnings.push_back(warningFrom(value.error()));`
unfoldable pub put_or_warn :
    {A : Type 0}
    → (A → ServiceInfo → ServiceInfo)
    → Result A
    → Observation ServiceInfo
    → Observation ServiceInfo
put_or_warn put (success a) observed = record observed { value = put a observed.value }
put_or_warn put (failure e) observed = warn observed e

-- in a list, a file state that is not found is no warning
unfoldable pub put_file_state : Result Bytes → Observation ServiceInfo → Observation ServiceInfo
put_file_state (success state) observed = record observed {
  value = set_file_state state observed.value;
}
put_file_state (failure e) observed = if code_eq e.code not_found then observed else warn observed e

-- `std::nullopt` where the error is NotFound
unfoldable pub none_if_missing : Error → Result (Option Bytes)
none_if_missing e = if code_eq e.code not_found then success none else failure e

unfoldable pub service_id : Result Bytes → Result (Option Bytes)
unfolding none_if_missing
service_id (success id) = if is_service id then success (some id) else success none
service_id (failure e) = none_if_missing e

module _ {W : Type 0} (bus : SdBus W) where
  open bus use {call_method, get_property, read_text}

  unfoldable pub control_unit : Bytes → Bytes → Bytes → Action W Void
  unfolding with_bus with_reply text_or_fail
  control_unit unit method operation = with_bus bus (λ connection. do
    called ←
        observe
          (call_method connection method (text_argument unit ∷ text_argument (text "replace") ∷ []))
    with_reply bus operation called (λ reply. do
      job ← observe (read_text reply (text "o"))
      path ←
          text_or_fail bus (protocol_failure (text "systemd returned no job object path") operation)
            job
      pure tt))

  unfoldable pub probe : Action W Void
  unfolding with_bus with_reply
  probe = with_bus bus (λ connection. do
    version ← observe (get_property connection (text "Version"))
    with_reply bus (text "probe") version (λ reply. pure tt))

  -- the main PID of a service in a list
  unfoldable pub list_main_pid :
      ℕ → Observation ServiceInfo → Result Bytes → Action W (Observation ServiceInfo)
  unfolding trivial_property put_or_warn set_main_pid
  list_main_pid connection observed (failure e) = pure (warn observed e)
  list_main_pid connection observed (success path) = do
    main_pid ← attempt (trivial_property bus connection path service_interface (text "MainPID"))
    pure (put_or_warn set_main_pid main_pid observed)

  unfoldable pub list_service : ℕ → ServiceInfo → List Warning → Action W (Observation ServiceInfo)
  unfolding unit_file_state get_unit_path put_file_state list_main_pid
  list_service connection service warnings = do
    file_state ← attempt (unit_file_state bus connection service.unit_name)
    path ← attempt (get_unit_path bus connection service.unit_name)
    list_main_pid connection
        (put_file_state file_state (record { value = service; warnings = warnings })) path

  unfoldable pub list_services :
      ℕ
      → List ServiceInfo
      → Observation (List ServiceInfo)
      → Action W (Observation (List ServiceInfo))
  unfolding list_service
  list_services connection [] listed = pure listed
  list_services connection (service ∷ rest) listed = do
    observed ← list_service connection service listed.warnings
    list_services connection rest
        (record { value = listed.value ++ observed.value ∷ []; warnings = observed.warnings })

  unfoldable pub listed_units :
      ℕ → Option (List ServiceInfo) → Action W (Option (Observation (List ServiceInfo)))
  unfolding list_services
  listed_units connection none = pure none
  listed_units connection (some services) = do
    listed ← list_services connection services (record { value = []; warnings = [] })
    pure (some listed)

  unfoldable pub list : ℕ → Action W (Option (Observation (List ServiceInfo)))
  unfolding with_bus with_reply parse_list_units listed_units
  list fuel = with_bus bus (λ connection. do
    called ← observe (call_method connection (text "ListUnits") [])
    with_reply bus (text "list services") called
        (λ reply. do parsed ← parse_list_units bus reply fuel; listed_units connection parsed))

  -- The four texts are all read before the first error is returned.
  unfoldable pub read_texts : ℕ → Bytes → Bytes → Action W ServiceInfo
  unfolding string_property
  read_texts connection unit path = do
    description ← attempt (string_property bus connection path unit_interface (text "Description"))
    load_state ← attempt (string_property bus connection path unit_interface (text "LoadState"))
    active_state ← attempt (string_property bus connection path unit_interface (text "ActiveState"))
    sub_state ← attempt (string_property bus connection path unit_interface (text "SubState"))
    description ← lift description
    load_state ← lift load_state
    active_state ← lift active_state
    sub_state ← lift sub_state
    pure (record {
      unit_name = unit;
      description = description;
      load_state = load_state;
      active_state = active_state;
      sub_state = sub_state;
      unit_file_state = [];
      main_pid = none;
      active_enter_timestamp_usec = 0;
    })

  unfoldable pub get : Bytes → Action W (Observation ServiceInfo)
  unfolding with_bus get_unit_path read_texts unit_file_state trivial_property put_or_warn
      set_main_pid
  get unit = with_bus bus (λ connection. do
    path ← get_unit_path bus connection unit
    service ← read_texts connection unit path
    file_state ← attempt (unit_file_state bus connection unit)
    main_pid ← attempt (trivial_property bus connection path service_interface (text "MainPID"))
    timestamp ←
        attempt (trivial_property bus connection path unit_interface (text "ActiveEnterTimestamp"))
    pure (
        put_or_warn set_timestamp timestamp (
          put_or_warn set_main_pid main_pid
            (put_or_warn set_file_state file_state (record { value = service; warnings = [] })))))

  unfoldable pub called_by_pid : ℕ → (BusFailure ⊎ ℕ) → Action W (Option Bytes)
  unfolding with_reply bus_error none_if_missing text_or_fail string_property service_id
  called_by_pid connection (inl e) = lift (none_if_missing (bus_error bus e (text "resolve PID")))
  called_by_pid connection (inr reply) = with_reply bus (text "resolve PID") (inr reply) (λ reply.
      do
        path ← observe (read_text reply (text "o"))
        path ←
            text_or_fail bus
              (protocol_failure (text "GetUnitByPID returned no object path") (text "resolve PID"))
              path
        id ← attempt (string_property bus connection path unit_interface (text "Id"))
        lift (service_id id))

  unfoldable pub unit_by_pid : ℤ → Action W (Option Bytes)
  unfolding with_bus called_by_pid
  unit_by_pid (negsuc n) = fail (
      make_error invalid_argument (text "PID must be greater than zero") (text "systemd")
        (text "resolve PID"))
  unit_by_pid (pos pid) =
      if pid == 0
      then fail (
          make_error invalid_argument (text "PID must be greater than zero") (text "systemd")
            (text "resolve PID"))
      else with_bus bus (λ connection. do
        called ← observe (call_method connection (text "GetUnitByPID") (number_argument pid ∷ []))
        called_by_pid connection called)

  unfoldable pub start : Bytes → Action W Void
  unfolding control_unit
  start unit = control_unit unit (text "StartUnit") (text "start service")

  unfoldable pub stop : Bytes → Action W Void
  unfolding control_unit
  stop unit = control_unit unit (text "StopUnit") (text "stop service")

  unfoldable pub restart : Bytes → Action W Void
  unfolding control_unit
  restart unit = control_unit unit (text "RestartUnit") (text "restart service")
