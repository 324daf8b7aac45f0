-- ===== src/Linux/Systemd/References/Units.antt =====
-- The calls and properties of one unit release what they open.
use lx.Base.{inl, inr, Bytes, List, ℕ, ◌⊎◌, some, none, nat_Eq, list_Eq, int_Eq, option_Eq, Option}
use lx.Linux.Systemd.SdBus.{SdBus, BusFailure}
use lx.Exec.Moves.{Moves, Moves-bind, moves_rules}
use lx.Exec.{observe}
use lx.Domain.{Error}
use lx.Linux.Systemd.Units.{
  string_property, unit_file_state, trivial_property, text_or_fail, get_unit_path, string_value,
  number_value,
}
use lx.Linux.Systemd.References.{Handle, IsCounted, keeping, reply-Moves, kept-Moves}

module _ {W : Type 0} (bus : SdBus W) (open_handles : W → List Handle)
    (counted : IsCounted bus open_handles) where
  pub read-Moves :
      (message : ℕ) (kind : Bytes)
      → Moves (keeping open_handles) (observe (bus.read_text message kind))
  read-Moves message kind = kept-Moves open_handles _ (counted.read_kept message kind)

  pub text_or_fail-Moves :
      (e : Error) (value : Option Bytes) → Moves (keeping open_handles) (text_or_fail bus e value)
  unfolding text_or_fail
  text_or_fail-Moves e none = search moves_rules
  text_or_fail-Moves e (some value) = search moves_rules

  pub get_unit_path-Moves :
      (connection : ℕ) (unit : Bytes)
      → Moves (keeping open_handles) (get_unit_path bus connection unit)
  unfolding get_unit_path
  get_unit_path-Moves connection unit =
      reply-Moves bus open_handles counted _ _ _ (counted.called connection _ _)
        (λ reply. search (moves_rules, read-Moves, text_or_fail-Moves))

  pub unit_file_state-Moves :
      (connection : ℕ) (unit : Bytes)
      → Moves (keeping open_handles) (unit_file_state bus connection unit)
  unfolding unit_file_state
  unit_file_state-Moves connection unit =
      reply-Moves bus open_handles counted _ _ _ (counted.called connection _ _)
        (λ reply. search (moves_rules, read-Moves, text_or_fail-Moves))

  string_value-Moves :
      (value : BusFailure ⊎ Option Bytes) → Moves (keeping open_handles) (string_value bus value)
  unfolding string_value
  string_value-Moves (inl e) = search moves_rules
  string_value-Moves (inr value) = search moves_rules

  pub string_property-Moves :
      (connection : ℕ) (path interface property : Bytes)
      → Moves (keeping open_handles) (string_property bus connection path interface property)
  unfolding string_property
  string_property-Moves connection path interface property =
      Moves-bind _ _ _
        (kept-Moves open_handles _ (counted.string_kept connection path interface property))
        string_value-Moves

  number_value-Moves :
      (value : BusFailure ⊎ ℕ) → Moves (keeping open_handles) (number_value bus value)
  unfolding number_value
  number_value-Moves (inl e) = search moves_rules
  number_value-Moves (inr value) = search moves_rules

  pub trivial_property-Moves :
      (connection : ℕ) (path interface property : Bytes)
      → Moves (keeping open_handles) (trivial_property bus connection path interface property)
  unfolding trivial_property
  trivial_property-Moves connection path interface property =
      Moves-bind _ _ _
        (kept-Moves open_handles _ (counted.trivial_kept connection path interface property))
        number_value-Moves
