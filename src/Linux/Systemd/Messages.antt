-- ===== src/Linux/Systemd/Messages.antt =====
-- SystemdMessageParser.cpp: the reply of ListUnits. Its loop takes fuel: `none` inside the result.
-- The reply of a call that succeeded is never null, so the check for a null message has no counterpart.
pub mod Listed
mod Tests
use lx.Base.{
  some, none, Option, Bytes, List, [], zero, suc, true, false, nat_Eq, list_Eq, int_Eq, option_Eq,
  Bool, ◌++◌, if◌then◌else◌, ℕ, ltb, text, ◌∷◌, length, ◌&&◌, drop, ◌-◌, ◌==◌,
}
use lx.Domain.{Error, ServiceInfo, make_error, protocol_error}
use lx.Exec.{◌>>=◌, Action, observe, fail, pure, ◌>>◌}
use lx.Linux.Systemd.SdBus.{SdBus, RawRecord}

unfoldable pub list_units_error : Bytes → Error
list_units_error message =
    make_error protocol_error message (text "systemd") (text "parse ListUnits")

-- `value.size() > suffix.size()` and it ends in the suffix
unfoldable pub is_service : Bytes → Bool
is_service value = ltb 8 (length value) && drop (length value - 8) value == text ".service"

-- `value == nullptr ? "" : value`
abbrev pub nonnull : Option Bytes → Bytes
nonnull none = []
nonnull (some value) = value

unfoldable pub service_from_unit_record : RawRecord → Option ServiceInfo
service_from_unit_record raw =
    if is_service (nonnull raw.name)
    then some (record {
      unit_name = nonnull raw.name;
      description = nonnull raw.description;
      load_state = nonnull raw.load_state;
      active_state = nonnull raw.active_state;
      sub_state = nonnull raw.sub_state;
      unit_file_state = [];
      main_pid = none;
      active_enter_timestamp_usec = 0;
    })
    else none

abbrev pub push_service : Option ServiceInfo → List ServiceInfo → List ServiceInfo
push_service none services = services
push_service (some service) services = services ++ service ∷ []

module _ {W : Type 0} (bus : SdBus W) (message : ℕ) where
  open bus use {enter_array, enter_struct, read_record, exit_container}

  -- behind the loop
  unfoldable pub end_units : List ServiceInfo → Action W (Option (List ServiceInfo))
  end_units services = do
    left ← observe (exit_container message)
    if left
        then pure (some services)
        else fail (list_units_error (text "Malformed ListUnits response"))

  -- one round, in which `next` is the loop from the next round on
  unfoldable pub read_unit :
      (List ServiceInfo → Action W (Option (List ServiceInfo)))
      → List ServiceInfo
      → Option RawRecord
      → Action W (Option (List ServiceInfo))
  read_unit next services none =
      fail (list_units_error (text "Unable to decode a ListUnits record"))
  read_unit next services (some raw) = do
    left ← observe (exit_container message)
    if left
        then next (push_service (service_from_unit_record raw) services)
        else fail (list_units_error (text "Malformed ListUnits unit record"))

  unfoldable pub entered_unit :
      (List ServiceInfo → Action W (Option (List ServiceInfo)))
      → List ServiceInfo
      → Option Bool
      → Action W (Option (List ServiceInfo))
  unfolding read_unit end_units
  entered_unit next services none = fail (list_units_error (text "Malformed ListUnits response"))
  entered_unit next services (some false) = end_units services
  entered_unit next services (some true) = do
    raw ← observe (read_record message)
    read_unit next services raw

  unfoldable pub read_units : ℕ → List ServiceInfo → Action W (Option (List ServiceInfo))
  unfolding entered_unit
  read_units zero services = pure none
  read_units (suc fuel) services = do
    entered ← observe (enter_struct message)
    entered_unit (read_units fuel) services entered

  unfoldable pub parse_list_units : ℕ → Action W (Option (List ServiceInfo))
  unfolding read_units
  parse_list_units fuel = do
    entered ← observe (enter_array message)
    if entered
        then read_units fuel []
        else fail (list_units_error (text "ListUnits response is not an array of units"))
