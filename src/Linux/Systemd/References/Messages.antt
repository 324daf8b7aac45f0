-- ===== src/Linux/Systemd/References/Messages.antt =====
-- Reading the reply of ListUnits opens and releases nothing.
use lx.Base.{
  List, ℕ, zero, suc, some, none, true, false, nat_Eq, list_Eq, int_Eq, option_Eq, Option, Bool,
}
use lx.Linux.Systemd.SdBus.{SdBus, RawRecord}
use lx.Exec.Moves.{Moves, Moves-bind, moves_rules}
use lx.Exec.{observe, Action}
use lx.Domain.{ServiceInfo}
use lx.Linux.Systemd.Messages.{read_units, read_unit, parse_list_units, entered_unit, end_units}
use lx.Linux.Systemd.References.{Handle, IsCounted, keeping, kept-Moves}

module _ {W : Type 0} (bus : SdBus W) (open_handles : W → List Handle)
    (counted : IsCounted bus open_handles) where
  exit-Moves : (message : ℕ) → Moves (keeping open_handles) (observe (bus.exit_container message))
  exit-Moves message = kept-Moves open_handles _ (counted.exit_kept message)

  read_unit-Moves :
      (message : ℕ) (next : List ServiceInfo → Action W (Option (List ServiceInfo)))
      (services : List ServiceInfo) (raw : Option RawRecord)
      → ((more : List ServiceInfo) → Moves (keeping open_handles) (next more))
      → Moves (keeping open_handles) (read_unit bus message next services raw)
  unfolding read_unit
  read_unit-Moves message next services none h = search moves_rules
  read_unit-Moves message next services (some raw) h = search (moves_rules, exit-Moves, h)

  entered_unit-Moves :
      (message : ℕ) (next : List ServiceInfo → Action W (Option (List ServiceInfo)))
      (services : List ServiceInfo) (entered : Option Bool)
      → ((more : List ServiceInfo) → Moves (keeping open_handles) (next more))
      → Moves (keeping open_handles) (entered_unit bus message next services entered)
  unfolding entered_unit end_units
  entered_unit-Moves message next services none h = search moves_rules
  entered_unit-Moves message next services (some false) h = search (moves_rules, exit-Moves)
  entered_unit-Moves message next services (some true) h =
      Moves-bind _ _ _ (kept-Moves open_handles _ (counted.record_kept message))
        (λ raw. read_unit-Moves message next services raw h)

  read_units-Moves :
      (message fuel : ℕ) (services : List ServiceInfo)
      → Moves (keeping open_handles) (read_units bus message fuel services)
  unfolding read_units
  read_units-Moves message zero services = search moves_rules
  read_units-Moves message (suc fuel) services =
      Moves-bind _ _ _ (kept-Moves open_handles _ (counted.struct_kept message))
        (λ entered. entered_unit-Moves message _ services entered (read_units-Moves message fuel))

  pub parse_list_units-Moves :
      (message fuel : ℕ) → Moves (keeping open_handles) (parse_list_units bus message fuel)
  unfolding parse_list_units
  parse_list_units-Moves message fuel =
      Moves-bind _ _ _ (kept-Moves open_handles _ (counted.array_kept message))
        (λ entered. search (moves_rules, read_units-Moves))
