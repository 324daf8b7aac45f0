-- ===== src/Cli/App.antt =====
-- CliApp.cpp: the program behind the command line. CLI11 reads the arguments; what it leaves in the
-- variables of `CliApp::run` is a record here.
pub mod Reads
pub mod Logs
pub mod Changes
pub mod Run
pub mod Silent
mod Quiet
pub mod Ends
pub mod Asked
mod Tests
use lx.Base.{◌++◌, some, none, Option, Bytes, ℤ, ℕ, Bool, text, if◌then◌else◌}
use lx.Domain.{Result, success, failure, Void, Error, ErrorCode, make_error}
use lx.Exec.{Action, pure, observe, ◌>>=◌, ◌>>◌}
use lx.Application.DoctorService.{DoctorService}
use lx.Application.ProcessService.{ProcessService}
use lx.Application.PortService.{PortService}
use lx.Application.ServiceService.{ServiceService}
use lx.Application.LogService.{LogService}
use lx.Application.LogService.Since.{TimeLibrary}
use lx.Application.InspectService.{InspectService}
use lx.Application.FindService.{FindService}
use lx.Application.MetricsService.{MetricsService}
use lx.Cli.Json.{JsonLibrary}
use lx.Cli.Json.Output.{error}
use lx.Cli.Print.{Format, Printed, new_line}
use lx.Cli.Texts.{consents, exit_code}

-- An option that was not given is `none`; the subcommands are flags. A subcommand of a subcommand
-- sets the flag of its parent too.
pub record Arguments : Type 0 where
  pub json : Bool
  pub quiet : Bool
  pub tui : Bool
  pub doctor : Bool
  pub status : Bool
  pub inspect : Bool
  pub find : Bool
  pub process : Bool
  pub stop_process : Bool
  pub kill_process : Bool
  pub service : Bool
  pub log : Bool
  pub port : Bool
  pub free_port : Bool
  pub process_pid : Option ℤ
  pub raw_command : Bool
  pub process_name : Option Bytes
  pub process_user : Option Bytes
  pub process_service : Option Bytes
  pub stop_pid : ℤ
  pub kill_pid : ℤ
  pub confirm_kill : Bool
  pub port_number : Option ℕ
  pub free_port_number : ℕ
  pub confirm_release : Bool
  pub service_unit : Option Bytes
  pub service_action : Bytes
  pub confirm_service_action : Bool
  pub log_unit : Option Bytes
  pub log_pid : Option ℤ
  pub log_lines : ℕ
  pub log_since : Option Bytes
  pub follow_log : Bool
  pub inspect_expression : Bytes
  pub find_query : Bytes

-- The streams of `run`, and SIGINT: `install` answers `none`, or errno and its text. An exception on its
-- way through code that does not catch it is part of the world: `throw` sets it off, and `thrown` says
-- whether there is one.
pub record Console (W : Type 0) : Type 0 where
  pub read_line : W → Option Bytes × W
  pub write : Bytes → W → Void × W
  pub write_error : Bytes → W → Void × W
  pub install : W → Option (ℤ × Bytes) × W
  pub requested : W → Bool × W
  pub restore : W → Void × W
  pub throw : W → Void × W
  pub thrown : W → Bool × W
  pub now : W → ℕ × W

-- the streams and the libraries; a bound for the rounds of `stopManagedService`
pub record Surroundings (W : Type 0) : Type 1 where
  pub console : Console W
  pub format : Format
  pub json : JsonLibrary
  pub times : TimeLibrary
  pub fuel : ℕ

-- `status_service` and `tui_runner` are pointers. A `StatusService` holds a `MetricsService` alone.
pub record CliApp (W : Type 0) : Type 0 where
  pub doctor_service : DoctorService W
  pub process_service : ProcessService W
  pub port_service : PortService W
  pub service_service : ServiceService W
  pub log_service : LogService W
  pub inspect_service : InspectService W
  pub find_service : FindService W
  pub status_service : Option (MetricsService W)
  pub tui_runner : Option (W → Result Void × W)

-- How `run` ends: with an exit code; by an exception of the JSON library, which it does not catch; with a
-- read of an optional that is empty; or, in the model only, because the rounds of `stopManagedService`
-- exceed the fuel.
pub data Exit : Type 0 where
  exited : ℕ → Exit
  exception undefined out_of_fuel : Exit

unfoldable pub cli_error : ErrorCode → Bytes → Bytes → Error
cli_error code message operation = make_error code message (text "cli") operation

module _ {W : Type 0} (around : Surroundings W) (args : Arguments) where
  open around use {console, json}

  unfoldable pub put : Bytes → Action W Void
  put words = observe (console.write words)

  -- `diagnostics << ...`
  unfoldable pub diagnose : Bytes → Action W Void
  diagnose words = if args.quiet then pure tt else observe (console.write_error words)

  -- `output << JsonSerializer::...(...) << '\n'`
  unfoldable pub emit : ℕ → Option Bytes → Action W Exit
  unfolding put
  emit code none = pure exception
  emit code (some words) = do put (words ++ new_line); pure (exited code)

  unfoldable pub fail_with : Bytes → Bytes → Error → Action W Exit
  unfolding emit
  fail_with command operation e =
      if args.json then emit (exit_code e.code) (error json command operation e) else do
        observe (console.write_error (e.message ++ new_line))
        pure (exited (exit_code e.code))

  -- `if (!result) return fail(command, operation, result.error());` in front of the rest
  unfoldable pub unless_failed :
      {A : Type 0} → Bytes → Bytes → Result A → (A → Action W Exit) → Action W Exit
  unfolding fail_with
  unless_failed command operation (success a) rest = rest a
  unless_failed command operation (failure e) rest = fail_with command operation e

  unfoldable pub show : Printed → Action W Exit
  unfolding put diagnose
  show printed = do put printed.output; diagnose printed.diagnostics; pure (exited 0)

  -- the answer of a command that reads
  unfoldable pub answer : Option Bytes → Printed → Action W Exit
  unfolding emit show
  answer words printed = if args.json then emit 0 words else show printed

  -- `if (!outputOptions.quiet) output << ...; return 0;`
  unfoldable pub note : Bytes → Action W Exit
  unfolding put
  note words = if args.quiet then pure (exited 0) else (do put words; pure (exited 0))

  unfoldable pub confirm : Bytes → Bool → Action W Bool
  unfolding put
  confirm prompt default_yes = do
    put prompt
    line ← observe console.read_line
    pure (consents default_yes line)

  -- `confirmed || confirm(...)` in front of the rest, which is a cancellation otherwise
  unfoldable pub if_confirmed : Bool → Bytes → Bool → Action W Exit → Action W Exit
  unfolding confirm note
  if_confirmed confirmed prompt default_yes rest = if confirmed then rest else do
    agreed ← confirm prompt default_yes
    if agreed then rest else note (text "Cancelled.\n")
