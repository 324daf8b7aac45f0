-- ===== src/Cli/App/Changes.antt =====
-- CliApp::run: the commands that change something, with their questions.
use lx.Application.PortService.Release
use lx.Application.ProcessService
use lx.Application.ServiceService
use lx.Base.{
  none, some, ◌∷◌, ◌++◌, ◌==◌, true, false, nat_Eq, list_Eq, int_Eq, option_Eq, [], Bytes, ℕ, ℤ,
  Bool, text, Option, if◌then◌else◌, ◌||◌, not, ◌%◌, ◌^◌,
}
use lx.Cli.App.{
  Arguments, CliApp, Surroundings, if_confirmed, diagnose, unless_failed, put, note, Exit,
  out_of_fuel, undefined,
}
use lx.Exec.{◌>>=◌, ◌>>◌, Action, attempt, pure}
use lx.Domain.{SignalDelivery, ProcessInfo, Void, PortReleasePlan, Observation, PortReleaseResult}
use lx.Cli.Print.{all_texts, new_line, warning_lines, print_release_plan}
use lx.Application.ResourceResolver.{show_pid}
use lx.Base.Decimal.{to_string}
use lx.Application.ProcessService.{validate_signal_target}
use lx.Cli.Texts.{mechanism_name}
use lx.Application.PortService.ManagedStop.{Polled, stop_managed_service}
use lx.Application.PortService.Prepare.{prepare_release}
use lx.Application.PortService.Release.{force}

unfoldable pub sent_text : Bytes → ℤ → SignalDelivery → Bytes
sent_text name pid delivery = all_texts (
    text "Sent "
    ∷ name
    ∷ text " to PID "
    ∷ show_pid pid
    ∷ text " via "
    ∷ mechanism_name delivery.mechanism
    ∷ new_line
    ∷ [])

unfoldable pub kill_prompt : ℤ → ProcessInfo → Bytes
kill_prompt pid process = all_texts (
    text "Force termination of PID "
    ∷ show_pid pid
    ∷ text " ("
    ∷ process.name
    ∷ text ") with SIGKILL? [y/N] "
    ∷ [])

unfoldable pub service_prompt : Bytes → Bytes → Bytes
service_prompt action unit = all_texts (
    (if action == text "stop" then text "Stop" else text "Restart")
    ∷ text " "
    ∷ unit
    ∷ text "? [y/N] "
    ∷ [])

-- the actions that are confirmed
unfoldable pub asks_first : Bytes → Bool
asks_first action = action == text "stop" || action == text "restart"

unfoldable pub released_text : ℕ → Bytes → Bytes
released_text port how =
    all_texts (text "Port " ∷ to_string port ∷ text " released " ∷ how ∷ text ".\n" ∷ [])

module _ {W : Type 0} (self : CliApp W) (around : Surroundings W) (args : Arguments) where
  open around use {format, fuel}
  open self use {process_service, port_service, service_service}

  unfoldable pub run_stop : Action W Exit
  unfolding unless_failed note sent_text
  run_stop = do
    result ← attempt (ProcessService.stop process_service args.stop_pid)
    unless_failed around args (text "process") (text "stop") result
        (λ delivery. note around args (sent_text (text "SIGTERM") args.stop_pid delivery))

  unfoldable pub kill_confirmed : Action W Exit
  unfolding unless_failed note sent_text
  kill_confirmed = do
    result ← attempt (ProcessService.kill process_service args.kill_pid)
    unless_failed around args (text "process") (text "kill") result
        (λ delivery. note around args (sent_text (text "SIGKILL") args.kill_pid delivery))

  unfoldable pub run_kill : Action W Exit
  unfolding unless_failed if_confirmed kill_confirmed kill_prompt
  run_kill =
      unless_failed around args (text "process") (text "kill")
        (validate_signal_target process_service args.kill_pid)
        (λ valid. do
          target ← attempt (ProcessService.inspect process_service args.kill_pid)
          unless_failed around args (text "process") (text "kill") target (λ target.
              if_confirmed around args args.confirm_kill (kill_prompt args.kill_pid target.value)
                false kill_confirmed))

  unfoldable pub act_on : Bytes → Bytes → Action W Void
  act_on action unit =
      if action == text "start"
      then ServiceService.start service_service unit
      else if action == text "stop"
      then ServiceService.stop service_service unit
      else ServiceService.restart service_service unit

  unfoldable pub change_service : Bytes → Action W Exit
  unfolding unless_failed note act_on
  change_service unit = do
    result ← attempt (act_on args.service_action unit)
    unless_failed around args (text "service") args.service_action result (λ v.
        note around args
          (all_texts (args.service_action ∷ text " submitted for " ∷ unit ∷ new_line ∷ [])))

  unfoldable pub run_service_action : Bytes → Action W Exit
  unfolding if_confirmed asks_first service_prompt change_service
  run_service_action unit =
      if_confirmed around args (not (asks_first args.service_action) || args.confirm_service_action)
        (service_prompt args.service_action unit) false (change_service unit)

  unfoldable pub after_stop : Bytes → Polled → Action W Exit
  unfolding diagnose note released_text
  after_stop unit none = pure out_of_fuel
  after_stop unit (some stopped) = do
    diagnose around args (warning_lines stopped.warnings)
    note around args (released_text args.free_port_number (text "by stopping " ++ unit))

  unfoldable pub stop_owner : PortReleasePlan → Bytes → Action W Exit
  unfolding unless_failed after_stop
  stop_owner plan unit = do
    result ← attempt (stop_managed_service port_service fuel plan)
    unless_failed around args (text "port") (text "free") result (after_stop unit)

  unfoldable pub force_remaining : PortReleasePlan → Action W Exit
  unfolding unless_failed diagnose note released_text
  force_remaining remaining = do
    result ← attempt (force port_service remaining)
    unless_failed around args (text "port") (text "free") result (λ forced. do
      diagnose around args (warning_lines forced.warnings)
      note around args (released_text args.free_port_number (text "with SIGKILL")))

  -- `*terminated.value().value.remaining`, which `terminate` sets unless the port is released
  unfoldable pub force_if_any : Option PortReleasePlan → Action W Exit
  unfolding force_remaining
  force_if_any none = pure undefined
  force_if_any (some remaining) = force_remaining remaining

  unfoldable pub unless_released : PortReleaseResult → Action W Exit
  unfolding note released_text put if_confirmed force_if_any
  unless_released result =
      if result.released
      then note around args (released_text args.free_port_number (text "with SIGTERM"))
      else do
        put around args (text "Port is still occupied.\n")
        if_confirmed around args args.confirm_release
            (text "Force remaining owners with SIGKILL? [y/N] ") false
            (force_if_any result.remaining)

  unfoldable pub after_terminated : Observation PortReleaseResult → Action W Exit
  unfolding diagnose unless_released
  after_terminated terminated = do
    diagnose around args (warning_lines terminated.warnings)
    unless_released terminated.value

  unfoldable pub terminate_owners : PortReleasePlan → Action W Exit
  unfolding unless_failed after_terminated
  terminate_owners plan = do
    result ← attempt (Release.terminate port_service plan)
    unless_failed around args (text "port") (text "free") result after_terminated

  unfoldable pub release : PortReleasePlan → Option Bytes → Action W Exit
  unfolding if_confirmed stop_owner terminate_owners
  release plan (some unit) =
      if_confirmed around args args.confirm_release
        (all_texts (text "Stop " ∷ unit ∷ text "? [Y/n] " ∷ [])) true (stop_owner plan unit)
  release plan none =
      if_confirmed around args args.confirm_release (text "Send SIGTERM to all owners? [Y/n] ") true
        (terminate_owners plan)

  unfoldable pub run_free_port : Action W Exit
  unfolding unless_failed put release
  run_free_port = do
    result ← attempt (prepare_release port_service (args.free_port_number % 2 ^ 16))
    unless_failed around args (text "port") (text "free") result (λ plan. do
      put around args (print_release_plan format plan.value)
      release plan.value plan.value.recommended_unit)
