-- ===== src/Cli/App/Run.antt =====
-- CliApp::run, once CLI11 has read the arguments.
use lx.Base.{
  none, some, nat_Eq, list_Eq, int_Eq, option_Eq, Bytes, Bool, ◌||◌, if◌then◌else◌, ◌&&◌, text, not,
  is_nil, Option, ℕ, ◌==◌,
}
use lx.Cli.App.{Arguments, CliApp, Surroundings, fail_with, Exit, cli_error, exited, emit}
use lx.Exec.{Action, pure, ◌>>=◌, observe}
use lx.Cli.App.Reads.{
  list_services, run_tui, inspect_service, run_doctor, run_status, run_inspect, run_find,
  read_process, run_port,
}
use lx.Cli.App.Changes.{run_service_action, run_stop, run_kill, run_free_port}
use lx.Domain.{invalid_argument}
use lx.Cli.App.Logs.{run_log}
use lx.Cli.Json.Output.{error}

-- the commands that have no JSON output
unfoldable pub needs_text : Arguments → Bool
needs_text args =
    args.stop_process
    || args.kill_process
    || args.free_port
    || (args.service && not (is_nil args.service_action))
    || args.tui

abbrev pub command_name : Arguments → Bytes
command_name args =
    if args.free_port then text "port" else if args.service then text "service" else text "process"

-- `CLI::ParseError`: `get_exit_code`, `what`, and `app.exit`, which prints it
pub record ParseError (W : Type 0) : Type 0 where
  pub get_exit_code : ℕ
  pub what : Bytes
  pub exit : W → ℕ × W

module _ {W : Type 0} (self : CliApp W) (around : Surroundings W) (args : Arguments) where
  unfoldable pub run_service : Option Bytes → Action W Exit
  unfolding list_services inspect_service run_service_action
  run_service none = list_services self around args
  run_service (some unit) =
      if is_nil args.service_action
      then inspect_service self around args unit
      else run_service_action self around args unit

  unfoldable pub run_command : Action W Exit
  unfolding run_service
  run_command =
      if args.tui
      then run_tui self around args self.tui_runner
      else if args.doctor
      then run_doctor self around args
      else if args.status
      then run_status self around args self.status_service
      else if args.inspect
      then run_inspect self around args
      else if args.find
      then run_find self around args
      else if args.stop_process
      then run_stop self around args
      else if args.kill_process
      then run_kill self around args
      else if args.process
      then read_process self around args args.process_pid
      else if args.service
      then run_service args.service_unit
      else if args.log
      then run_log self around args
      else if args.free_port
      then run_free_port self around args
      else if args.port
      then run_port self around args
      else pure (exited 0)

  unfoldable pub run : Action W Exit
  unfolding run_command fail_with needs_text
  run =
      if args.json && needs_text args
      then fail_with around args (command_name args) (text "mutate") (
          cli_error invalid_argument (text "--json is only supported by read-only commands")
            (text "validate"))
      else run_command

  -- `--help` and `--version` are parse errors with exit code 0
  unfoldable pub parse_failed : ParseError W → Action W Exit
  unfolding emit
  parse_failed parse_error =
      if not (parse_error.get_exit_code == 0) && args.json
      then emit around args 2 (
          error around.json (text "cli") (text "parse")
            (cli_error invalid_argument parse_error.what (text "parse")))
      else do code ← observe parse_error.exit; pure (exited (if code == 0 then 0 else 2))

  unfoldable pub run_parsed : Option (ParseError W) → Action W Exit
  unfolding run parse_failed
  run_parsed none = run
  run_parsed (some parse_error) = parse_failed parse_error
