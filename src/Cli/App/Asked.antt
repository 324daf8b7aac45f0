-- ===== src/Cli/App/Asked.antt =====
-- CliApp::run: the command line does outside what it is asked to do, and no more.
pub mod Process
pub mod Service
pub mod Release
pub mod Run
use lx.Base.{
  some, true, false, ◌≡◌, Bytes, inl, ◌⊎◌, text, none, nat_Eq, list_Eq, int_Eq, option_Eq, Bool,
  is_nil, ◌||◌, Option, ◌==◌, list_eq_iff, arith, not, inr,
}
use lx.Cli.App.{Arguments, CliApp, Surroundings}
use lx.Exec.{Call, sends, starts, stops, restarts, ◌>>=◌, ◌>>◌}
use lx.Application.ServiceService.{normalize_unit}
use lx.Domain.{success, ProcessSignal}
use lx.Cli.App.Changes.{
  run_stop, run_kill, kill_confirmed, change_service, act_on, run_service_action, asks_first,
}
use lx.Exec.Moves.{Moves, extension, Moves-bind, Moves-attempt, Moves-weaken, Moves-cases}
use lx.Cli.App.Silent.{Consent, if_confirmed-Moves, text_rules}
use lx.Application.ProcessService.Signals.{
  IsSafeSignal, IsSafeTarget, inspect-Moves, signals-IsSafeSignal,
}
use lx.Cli.App.Run.{run_service}
use lx.Application.ServiceService.Commands.{start-Moves, stop-Moves, restart-Moves}
use lx.Cli.App.Quiet.{list_services-Moves, inspect_service-Moves}

-- what `CLI::IsMember` lets through, or no action
unfoldable pub is_action : Bytes → Bool
is_action action =
    is_nil action || action == text "start" || action == text "stop" || action == text "restart"

module _ {W : Type 0} (self : CliApp W) (around : Surroundings W) (args : Arguments) where
  open around use {console}

  -- `lx service` names the unit.
  abbrev pub IsNamed : Bytes → Bytes → Type 0
  IsNamed action name =
      (args.service ≡ true)
      × (args.service_action ≡ action)
      × ((unit : Bytes) × (args.service_unit ≡ some unit) × (normalize_unit unit ≡ success name))

  -- The call is a step of the command: SIGTERM to the process of `lx process stop`; SIGKILL to that of
  -- `lx process kill`, with consent; the action of `lx service` on its unit, with consent unless it is
  -- "start"; and for `lx port free`, with consent to each step, SIGTERM or the stop of a unit, and
  -- SIGKILL. Processes that are signalled are not 1 nor LX itself.
  abbrev pub IsAsked : Call → Type 0
  IsAsked (sends pid ProcessSignal.terminate) =
      ((args.stop_process ≡ true) × (pid ≡ args.stop_pid) × IsSafeTarget self.process_service pid)
      ⊎ ((args.free_port ≡ true)
          × Consent console args.confirm_release true
          × IsSafeTarget self.port_service.process_service pid)
  IsAsked (sends pid ProcessSignal.kill) =
      ((args.kill_process ≡ true)
        × (pid ≡ args.kill_pid)
        × Consent console args.confirm_kill false
        × IsSafeTarget self.process_service pid)
      ⊎ ((args.free_port ≡ true)
          × Consent console args.confirm_release false
          × IsSafeTarget self.port_service.process_service pid)
  IsAsked (starts name) = IsNamed (text "start") name
  IsAsked (stops name) =
      (IsNamed (text "stop") name × Consent console args.confirm_service_action false)
      ⊎ ((args.free_port ≡ true) × Consent console args.confirm_release true)
  IsAsked (restarts name) =
      IsNamed (text "restart") name × Consent console args.confirm_service_action false

  -- The call is a step of a command that may have text output alone.
  abbrev pub IsAskedInText : Call → Type 0
  IsAskedInText c = (args.json ≡ false) × IsAsked c
