-- ===== src/Cli/App/Asked/Process.antt =====
-- CliApp::run: `lx process stop` and `lx process kill`.
use lx.Base.{true, false, ◌≡◌, inl, nat_Eq, list_Eq, int_Eq, option_Eq}
use lx.Cli.App.{Arguments, CliApp, Surroundings}
use lx.Exec.{Call, sends, starts, stops, restarts}
use lx.Domain.{ProcessSignal}
use lx.Cli.App.Changes.{run_stop, run_kill, kill_confirmed}
use lx.Exec.Moves.{Moves, extension, Moves-bind, Moves-attempt, Moves-weaken}
use lx.Cli.App.Silent.{Consent, if_confirmed-Moves, text_rules}
use lx.Application.ProcessService.Signals.{IsSafeSignal, inspect-Moves, signals-IsSafeSignal}
use lx.Cli.App.Asked.{IsAskedInText}

module _ {W : Type 0} (self : CliApp W) (around : Surroundings W) (args : Arguments) where
  open around use {console}

  pub stop-IsAsked :
      args.json ≡ false
      → args.stop_process ≡ true
      → Moves (extension (IsAskedInText self around args)) (run_stop self around args)
  unfolding run_stop
  stop-IsAsked in_text asked =
      Moves-bind _ _ _
        (Moves-attempt _ _ (
          Moves-weaken _ _ _ (signals-IsSafeSignal self.process_service args.stop_pid).0
            (is_stop in_text asked)))
        (λ result. search text_rules)
    where
      is_stop :
          args.json ≡ false
          → args.stop_process ≡ true
          → (c : Call) → IsSafeSignal self.process_service ProcessSignal.terminate args.stop_pid c
          → IsAskedInText self around args c
      is_stop in_text asked (sends pid ProcessSignal.terminate) (same, safe, e) =
          (in_text, inl (asked, same, safe))
      is_stop in_text asked (sends pid ProcessSignal.kill) (same, safe, e) = cc
      is_stop in_text asked (starts unit) h = absurd h
      is_stop in_text asked (stops unit) h = absurd h
      is_stop in_text asked (restarts unit) h = absurd h

  kill_confirmed-IsAsked :
      args.json ≡ false
      → args.kill_process ≡ true
      → Consent console args.confirm_kill false
      → Moves (extension (IsAskedInText self around args)) (kill_confirmed self around args)
  unfolding kill_confirmed
  kill_confirmed-IsAsked in_text asked consent =
      Moves-bind _ _ _
        (Moves-attempt _ _ (
          Moves-weaken _ _ _ (signals-IsSafeSignal self.process_service args.kill_pid).1
            (is_kill in_text asked consent)))
        (λ result. search text_rules)
    where
      is_kill :
          args.json ≡ false
          → args.kill_process ≡ true
          → Consent console args.confirm_kill false
          → (c : Call) → IsSafeSignal self.process_service ProcessSignal.kill args.kill_pid c
          → IsAskedInText self around args c
      is_kill in_text asked consent (sends pid ProcessSignal.kill) (same, safe, e) =
          (in_text, inl (asked, same, consent, safe))
      is_kill in_text asked consent (sends pid ProcessSignal.terminate) (same, safe, e) = cc
      is_kill in_text asked consent (starts unit) h = absurd h
      is_kill in_text asked consent (stops unit) h = absurd h
      is_kill in_text asked consent (restarts unit) h = absurd h

  pub kill-IsAsked :
      args.json ≡ false
      → args.kill_process ≡ true
      → Moves (extension (IsAskedInText self around args)) (run_kill self around args)
  unfolding run_kill
  kill-IsAsked in_text asked =
      let confirmed = kill_confirmed-IsAsked in_text asked in
      search (text_rules, inspect-Moves, if_confirmed-Moves, confirmed) depth 9
