-- ===== src/Application/ServiceService/Commands.antt =====
-- What reaches the service manager: only complete unit names.
use lx.Application.ServiceService.{
  ServiceService, start, stop, restart, normalize_unit, unit_by_pid,
}
use lx.Exec.{Call, sends, starts, stops, restarts}
use lx.Base.{Bytes, ◌≡◌, ℤ}
use lx.Exec.Moves.{Moves, extension, Moves-bind-lift, Moves-perform, calls_rules}
use lx.Domain.{success}
use lx.Application.ServiceService.Names.{normalize_unit-IsUnitName, IsUnitName}

-- A command for a complete unit name; no signal.
abbrev pub IsUnitCall : Call → Type 0
IsUnitCall (sends pid signal) = ⊥
IsUnitCall (starts unit) = IsUnitName unit
IsUnitCall (stops unit) = IsUnitName unit
IsUnitCall (restarts unit) = IsUnitName unit

module _ {W : Type 0} (self : ServiceService W) (unit : Bytes) where
  -- Whatever the unit and the outcome, the commands that `start`, `stop` and `restart` give to the
  -- service manager name complete units.
  pub commands-IsUnitCall :
      Moves (extension IsUnitCall) (start self unit)
      × Moves (extension IsUnitCall) (stop self unit)
      × Moves (extension IsUnitCall) (restart self unit)
  unfolding start stop restart
  commands-IsUnitCall = (
    Moves-bind-lift _ (normalize_unit unit) _
        (λ name h. Moves-perform _ _ _ (normalize_unit-IsUnitName unit name h).0),
    Moves-bind-lift _ (normalize_unit unit) _
        (λ name h. Moves-perform _ _ _ (normalize_unit-IsUnitName unit name h).0),
    Moves-bind-lift _ (normalize_unit unit) _
        (λ name h. Moves-perform _ _ _ (normalize_unit-IsUnitName unit name h).0),
  )

-- The commands for the complete name, for a property of that.
module _ {W : Type 0} (P : Call → Type 0) (self : ServiceService W) (unit : Bytes) where
  pub start-Moves :
      ((name : Bytes) → normalize_unit unit ≡ success name → P (starts name))
      → Moves (extension P) (start self unit)
  unfolding start
  start-Moves h = Moves-bind-lift _ _ _ (λ name e. Moves-perform _ _ _ (h name e))

  pub stop-Moves :
      ((name : Bytes) → normalize_unit unit ≡ success name → P (stops name))
      → Moves (extension P) (stop self unit)
  unfolding stop
  stop-Moves h = Moves-bind-lift _ _ _ (λ name e. Moves-perform _ _ _ (h name e))

  pub restart-Moves :
      ((name : Bytes) → normalize_unit unit ≡ success name → P (restarts name))
      → Moves (extension P) (restart self unit)
  unfolding restart
  restart-Moves h = Moves-bind-lift _ _ _ (λ name e. Moves-perform _ _ _ (h name e))

pub unit_by_pid-Moves :
    {W : Type 0} (P : Call → Type 0) (self : ServiceService W) (pid : ℤ)
    → Moves (extension P) (unit_by_pid self pid)
unfolding unit_by_pid
unit_by_pid-Moves P self pid = search calls_rules
