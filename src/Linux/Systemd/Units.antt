-- ===== src/Linux/Systemd/Units.antt =====
-- SystemdServiceProvider.cpp: the calls and properties of one unit.
use lx.Base.{
  some, none, inl, inr, Option, Bytes, [], nat_Eq, list_Eq, int_Eq, option_Eq, ℕ, text, ◌⊎◌, ◌∷◌,
}
use lx.Domain.{Error, make_error, protocol_error}
use lx.Exec.{◌>>=◌, Action, pure, fail, observe}
use lx.Linux.Systemd.SdBus.{SdBus, bus_error, with_reply, BusFailure, text_argument}
use lx.Linux.Systemd.Messages.{nonnull}

unfoldable pub protocol_failure : Bytes → Bytes → Error
protocol_failure message operation = make_error protocol_error message (text "systemd") operation

module _ {W : Type 0} (bus : SdBus W) where
  open bus use {call_method, get_property_string, get_property_trivial, read_text}

  unfoldable pub text_or_fail : Error → Option Bytes → Action W Bytes
  text_or_fail e none = fail e
  text_or_fail e (some value) = pure value

  unfoldable pub get_unit_path : ℕ → Bytes → Action W Bytes
  unfolding with_reply text_or_fail
  get_unit_path connection unit = do
    called ← observe (call_method connection (text "GetUnit") (text_argument unit ∷ []))
    with_reply bus (text "get unit") called (λ reply. do
      path ← observe (read_text reply (text "o"))
      text_or_fail (protocol_failure (text "GetUnit returned no object path") (text "get unit"))
          path)

  unfoldable pub string_value : (BusFailure ⊎ Option Bytes) → Action W Bytes
  unfolding bus_error
  string_value (inl e) = fail (bus_error bus e (text "read service property"))
  string_value (inr value) = pure (nonnull value)

  unfoldable pub string_property : ℕ → Bytes → Bytes → Bytes → Action W Bytes
  unfolding string_value
  string_property connection path interface property = do
    value ← observe (get_property_string connection path interface property)
    string_value value

  unfoldable pub number_value : (BusFailure ⊎ ℕ) → Action W ℕ
  unfolding bus_error
  number_value (inl e) = fail (bus_error bus e (text "read service property"))
  number_value (inr value) = pure value

  unfoldable pub trivial_property : ℕ → Bytes → Bytes → Bytes → Action W ℕ
  unfolding number_value
  trivial_property connection path interface property = do
    value ← observe (get_property_trivial connection path interface property)
    number_value value

  unfoldable pub unit_file_state : ℕ → Bytes → Action W Bytes
  unfolding with_reply text_or_fail
  unit_file_state connection unit = do
    called ← observe (call_method connection (text "GetUnitFileState") (text_argument unit ∷ []))
    with_reply bus (text "get unit file state") called (λ reply. do
      state ← observe (read_text reply (text "s"))
      text_or_fail
          (protocol_failure (text "GetUnitFileState returned no state")
            (text "get unit file state"))
          state)
