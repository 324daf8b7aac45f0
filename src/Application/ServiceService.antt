-- ===== src/Application/ServiceService.antt =====
-- src/application/ServiceService.cpp: unit names, and the calls of the service manager.
pub mod Names
pub mod Commands
pub mod Exact
mod Tests
use lx.Base.{
  ℕ, ◌-◌, ℤ, Bool, Bytes, text, List, [], ◌++◌, Option, none, some, length, drop, all_of, ltb, leb,
  ◌==◌, nat_Eq, list_Eq, ◌&&◌, ◌||◌, if◌then◌else◌, positive,
}
use lx.Domain.{
  Result, Void, success, failure, ErrorCode, invalid_argument, make_error, Observation, ServiceInfo,
}
use lx.Contracts.{ServiceProvider}
use lx.Exec.{Action, ask, perform, lift, fail, ◌>>=◌, starts, stops, restarts}

-- `std::isalnum` in the "C" locale.
unfoldable pub is_alnum : ℕ → Bool
is_alnum c = (leb b'0' c && leb c b'9') || (leb b'A' c && leb c b'Z') || (leb b'a' c && leb c b'z')

unfoldable pub valid_unit_character : ℕ → Bool
unfolding is_alnum
valid_unit_character c =
    is_alnum c || c == b':' || c == b'_' || c == b'-' || c == b'.' || c == b'@' || c == b'\\'

unfoldable pub invalid_unit : Bytes → Result Bytes
invalid_unit message =
    failure (make_error invalid_argument message (text "service") (text "validate unit"))

-- `suffix` of `normalizeUnit`
unfoldable pub service_suffix : Bytes
unfolding text
service_suffix = text ".service"

-- `value.size() >= suffix.size() && value.substr(value.size() - suffix.size()) == suffix`
unfoldable pub ends_with : Bytes → Bytes → Bool
ends_with suffix value =
    leb (length suffix) (length value) && drop (length value - length suffix) value == suffix

unfoldable pub normalize_unit : Bytes → Result Bytes
normalize_unit unit =
    if unit == []
    then invalid_unit (text "Service unit must not be empty")
    else if ltb 247 (length unit)
    then invalid_unit (text "Service unit name is too long")
    else if all_of valid_unit_character unit
    then (if ends_with service_suffix unit then success unit else success (unit ++ service_suffix))
    else invalid_unit (text "Service unit contains an invalid character")

pub record ServiceService (W : Type 0) : Type 0 where
  pub service_provider : ServiceProvider W

module _ {W : Type 0} (self : ServiceService W) where
  open self use {service_provider}

  unfoldable pub list : Action W (Observation (List ServiceInfo))
  list = ask service_provider.list

  unfoldable pub inspect : Bytes → Action W (Observation ServiceInfo)
  inspect unit = do normalized ← lift (normalize_unit unit); ask (service_provider.get normalized)

  unfoldable pub unit_by_pid : ℤ → Action W (Option Bytes)
  unit_by_pid pid =
      if positive pid
      then ask (service_provider.unit_by_pid pid)
      else fail (
          make_error invalid_argument (text "PID must be greater than zero") (text "service")
            (text "resolve PID"))

  unfoldable pub start : Bytes → Action W Void
  start unit = do
    normalized ← lift (normalize_unit unit)
    perform (starts normalized) (service_provider.start normalized)

  unfoldable pub stop : Bytes → Action W Void
  stop unit = do
    normalized ← lift (normalize_unit unit)
    perform (stops normalized) (service_provider.stop normalized)

  unfoldable pub restart : Bytes → Action W Void
  restart unit = do
    normalized ← lift (normalize_unit unit)
    perform (restarts normalized) (service_provider.restart normalized)
