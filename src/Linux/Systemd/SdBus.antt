-- ===== src/Linux/Systemd/SdBus.antt =====
-- SdBus.cpp: connections and messages of sd-bus, which their owners release, and errors. The library is
-- given to the model.
use lx.Base.{
  some, none, inl, inr, Option, Bytes, ℕ, Bool, true, false, nat_Eq, list_Eq, int_Eq, option_Eq,
  text, ◌⊎◌, if◌then◌else◌, option_eq, ◌||◌, List, ◌++◌,
}
use lx.Domain.{
  Error, ErrorCode, Void, permission_denied, unavailable, timeout, not_found, operation_failed,
}
use lx.Exec.{◌>>=◌, ◌>>◌, Action, observe, fail, attempt, lift}
use lx.Linux.Errno.{Errno, System, denied}

-- `sd_bus_error` beside a negative status, as the number that it negates
pub record BusFailure : Type 0 where
  pub number : Errno
  pub name : Option Bytes
  pub message : Option Bytes

pub data Argument : Type 0 where
  text_argument : Bytes → Argument
  number_argument : ℕ → Argument

-- a record of ListUnits, in which a text may be a null pointer; the fields that are not used are left out
pub record RawRecord : Type 0 where
  pub name : Option Bytes
  pub description : Option Bytes
  pub load_state : Option Bytes
  pub active_state : Option Bytes
  pub sub_state : Option Bytes

-- The calls of the library: on a connection or a message, with the destination org.freedesktop.systemd1.
-- `call_method` calls a method of the manager; a property has the path and the interface of its object.
-- `read_text` reads a value of a type, and answers `none` for a negative status or a null pointer;
-- `enter_struct` says whether there is a further record, or has a negative status.
pub record SdBus (W : Type 0) : Type 0 where
  pub system : System
  pub strerror : Errno → Bytes
  pub access_denied : Bytes
  pub no_reply : Bytes
  pub service_unknown : Bytes
  pub name_has_no_owner : Bytes
  pub open_system : W → (Errno ⊎ ℕ) × W
  pub unref_bus : ℕ → W → Void × W
  pub unref_message : ℕ → W → Void × W
  pub call_method : ℕ → Bytes → List Argument → W → (BusFailure ⊎ ℕ) × W
  pub get_property : ℕ → Bytes → W → (BusFailure ⊎ ℕ) × W
  pub get_property_string : ℕ → Bytes → Bytes → Bytes → W → (BusFailure ⊎ Option Bytes) × W
  pub get_property_trivial : ℕ → Bytes → Bytes → Bytes → W → (BusFailure ⊎ ℕ) × W
  pub read_text : ℕ → Bytes → W → Option Bytes × W
  pub enter_array : ℕ → W → Bool × W
  pub enter_struct : ℕ → W → Option Bool × W
  pub read_record : ℕ → W → Option RawRecord × W
  pub exit_container : ℕ → W → Bool × W

unfoldable pub timed_out : Errno → Bool
timed_out Errno.etimedout = true
timed_out _ = false

unfoldable pub no_entry : Errno → Bool
no_entry Errno.enoent = true
no_entry _ = false

unfoldable pub disconnected : Errno → Bool
disconnected Errno.econnrefused = true
disconnected Errno.enotconn = true
disconnected _ = false

-- `sd_bus_error_has_name`
unfoldable pub has_name : BusFailure → Bytes → Bool
has_name bus_failure name = option_eq bus_failure.name (some name)

module _ {W : Type 0} (bus : SdBus W) where
  open bus use {
    system, strerror, access_denied, no_reply, service_unknown, name_has_no_owner, open_system,
    unref_bus, unref_message,
  }

  unfoldable pub open_error : Errno → Error
  open_error number = record {
    code = if denied number then permission_denied else unavailable;
    message = text "Unable to open the system bus: " ++ system.message number;
    system_error = system.number number;
    component = text "sd-bus";
    operation = text "open system bus";
  }

  unfoldable pub bus_code : BusFailure → ErrorCode
  bus_code e =
      if denied e.number || has_name e access_denied
      then permission_denied
      else if timed_out e.number || has_name e no_reply
      then timeout
      else if no_entry e.number
          || has_name e (text "org.freedesktop.systemd1.NoSuchUnit")
          || has_name e (text "org.freedesktop.systemd1.NoUnitForPID")
      then not_found
      else if disconnected e.number || has_name e service_unknown || has_name e name_has_no_owner
      then unavailable
      else operation_failed

  abbrev pub message_or : Bytes → Option Bytes → Bytes
  message_or words none = words
  message_or words (some message) = message

  unfoldable pub bus_error : BusFailure → Bytes → Error
  unfolding bus_code
  bus_error e operation = record {
    code = bus_code e;
    message = message_or (strerror e.number) e.message;
    system_error = system.number e.number;
    component = text "systemd";
    operation = operation;
  }

  -- the rest of a function that owns a connection, which its end releases
  unfoldable pub owning_bus : {A : Type 0} → (Errno ⊎ ℕ) → (ℕ → Action W A) → Action W A
  owning_bus (inl number) rest = fail (open_error number)
  owning_bus (inr connection) rest = do
    result ← attempt (rest connection)
    observe (unref_bus connection)
    lift result

  -- `SdBusConnection::openSystem`, and `if (!connection) return ...` in front of the rest
  unfoldable pub with_bus : {A : Type 0} → (ℕ → Action W A) → Action W A
  unfolding owning_bus
  with_bus rest = do opened ← observe open_system; owning_bus opened rest

  -- the rest of a function that owns a reply, behind `if (status < 0) return ...`
  unfoldable pub with_reply :
      {A : Type 0} → Bytes → (BusFailure ⊎ ℕ) → (ℕ → Action W A) → Action W A
  unfolding bus_error
  with_reply operation (inl e) rest = fail (bus_error e operation)
  with_reply operation (inr reply) rest = do
    result ← attempt (rest reply)
    observe (unref_message reply)
    lift result
