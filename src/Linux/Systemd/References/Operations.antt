-- ===== src/Linux/Systemd/References/Operations.antt =====
-- Every function of the provider releases what it opens.
use lx.Base.{
  Bytes, List, ℕ, ◌∷◌, some, none, nat_Eq, list_Eq, int_Eq, option_Eq, [], Option, ℤ, negsuc, pos,
  ◌==◌,
}
use lx.Linux.Systemd.SdBus.{SdBus}
use lx.Exec.Moves.{Moves, Moves-fail, Moves-bind, Moves-pure, moves_rules, Moves-if, Moves-lift}
use lx.Domain.{Observation, ServiceInfo, Result, failure, success}
use lx.Linux.Systemd.ServiceProvider.{
  list_services, listed_units, unit_by_pid, list, get, list_main_pid, probe, control_unit,
  list_service, read_texts, called_by_pid, start, stop, restart,
}
use lx.Linux.Systemd.References.{
  Handle, IsCounted, keeping, with_bus-Moves, reply-Moves, owned-Moves, message_handle, released,
}
use lx.Linux.Systemd.References.Units.{
  trivial_property-Moves, unit_file_state-Moves, get_unit_path-Moves, read-Moves,
  string_property-Moves, text_or_fail-Moves,
}
use lx.Linux.Systemd.References.Messages.{parse_list_units-Moves}

module _ {W : Type 0} (bus : SdBus W) (open_handles : W → List Handle)
    (counted : IsCounted bus open_handles) where
  control_unit-Moves :
      (unit method operation : Bytes)
      → Moves (keeping open_handles) (control_unit bus unit method operation)
  unfolding control_unit
  control_unit-Moves unit method operation =
      with_bus-Moves bus open_handles counted _ (λ connection.
        reply-Moves bus open_handles counted _ _ _ (counted.called connection _ _)
          (λ reply. search (moves_rules, read-Moves, text_or_fail-Moves)))

  probe-Moves : Moves (keeping open_handles) (probe bus)
  unfolding probe
  probe-Moves = with_bus-Moves bus open_handles counted _ (λ connection.
      reply-Moves bus open_handles counted _ _ _ (counted.got connection _)
        (λ reply. Moves-pure _ _))

  list_main_pid-Moves :
      (connection : ℕ) (observed : Observation ServiceInfo) (path : Result Bytes)
      → Moves (keeping open_handles) (list_main_pid bus connection observed path)
  unfolding list_main_pid
  list_main_pid-Moves connection observed (failure e) = search moves_rules
  list_main_pid-Moves connection observed (success path) =
      search (moves_rules, trivial_property-Moves)

  list_services-Moves :
      (connection : ℕ) (services : List ServiceInfo) (listed : Observation (List ServiceInfo))
      → Moves (keeping open_handles) (list_services bus connection services listed)
  unfolding list_services list_service
  list_services-Moves connection [] listed = search moves_rules
  list_services-Moves connection (service ∷ rest) listed =
      Moves-bind _ _ _
        (search (moves_rules, unit_file_state-Moves, get_unit_path-Moves, list_main_pid-Moves))
        (λ observed. list_services-Moves connection rest _)

  listed_units-Moves :
      (connection : ℕ) (parsed : Option (List ServiceInfo))
      → Moves (keeping open_handles) (listed_units bus connection parsed)
  unfolding listed_units
  listed_units-Moves connection none = search moves_rules
  listed_units-Moves connection (some services) = search (moves_rules, list_services-Moves)

  list-Moves : (fuel : ℕ) → Moves (keeping open_handles) (list bus fuel)
  unfolding list
  list-Moves fuel = with_bus-Moves bus open_handles counted _ (λ connection.
      reply-Moves bus open_handles counted _ _ _ (counted.called connection _ _)
        (λ reply. search (moves_rules, parse_list_units-Moves, listed_units-Moves)))

  get-Moves : (unit : Bytes) → Moves (keeping open_handles) (get bus unit)
  unfolding get read_texts
  get-Moves unit = with_bus-Moves bus open_handles counted _ (λ connection.
      search
        (
          moves_rules, get_unit_path-Moves, string_property-Moves, unit_file_state-Moves,
          trivial_property-Moves,
        )
        depth 20)

  unit_by_pid-Moves : (pid : ℤ) → Moves (keeping open_handles) (unit_by_pid bus pid)
  unfolding unit_by_pid called_by_pid
  unit_by_pid-Moves (negsuc n) = search moves_rules
  unit_by_pid-Moves (pos pid) = Moves-if _ (pid == 0) _ _ (Moves-fail _ _) (
      with_bus-Moves bus open_handles counted _ (λ connection.
        owned-Moves open_handles message_handle _ (called_by_pid bus connection)
          (counted.called connection _ _) (λ e. Moves-lift _ _)
          (λ reply m others e.
            released open_handles (message_handle reply) _ (bus.unref_message reply)
              (search (moves_rules, read-Moves, text_or_fail-Moves, string_property-Moves))
              (counted.released_message reply) m others e)))

  -- Whatever the library answers, as long as it counts references as documented: every function of the
  -- provider releases each connection and each reply that it opened, once and the latest first, on
  -- every branch, so that the same handles are open as before.
  pub operations-keeping :
      (unit : Bytes) (pid : ℤ) (fuel : ℕ)
      → Moves (keeping open_handles) (probe bus)
        × Moves (keeping open_handles) (list bus fuel)
        × Moves (keeping open_handles) (get bus unit)
        × Moves (keeping open_handles) (unit_by_pid bus pid)
        × Moves (keeping open_handles) (start bus unit)
        × Moves (keeping open_handles) (stop bus unit)
        × Moves (keeping open_handles) (restart bus unit)
  unfolding start stop restart
  operations-keeping unit pid fuel = (
    probe-Moves,
    list-Moves fuel,
    get-Moves unit,
    unit_by_pid-Moves pid,
    control_unit-Moves unit _ _,
    control_unit-Moves unit _ _,
    control_unit-Moves unit _ _,
  )
