-- ===== src/Cli/App/Asked/Release.antt =====
-- CliApp::run: `lx port free`.
use lx.Base.{
  some, true, false, ◌≡◌, Bytes, text, none, nat_Eq, list_Eq, int_Eq, option_Eq, Option, inr, List,
  ℤ,
}
use lx.Cli.App.{Arguments, CliApp, Surroundings}
use lx.Exec.{Call, sends, starts, stops, restarts}
use lx.Domain.{ProcessSignal, PortReleasePlan}
use lx.Cli.App.Changes.{
  stop_owner, release, run_free_port, force_if_any, terminate_owners, force_remaining,
  after_terminated, unless_released, after_stop,
}
use lx.Exec.Moves.{Moves, extension, Moves-bind, Moves-attempt, Moves-weaken}
use lx.Cli.App.Silent.{Consent, if_confirmed-Moves, text_rules, unless_failed-Moves}
use lx.Cli.App.Asked.{IsAskedInText}
use lx.Application.PortService.Calls.{force-Moves, terminate-Moves, stop_managed_service-Moves}
use lx.Application.PortService.ManagedStop.{Polled}
use lx.Application.PortService.Signals.{IsPlanSignal}
use lx.Application.PortService.Quiet.{prepare_release-Moves}

module _ {W : Type 0} (self : CliApp W) (around : Surroundings W) (args : Arguments) where
  open around use {console}

  is_terminate :
      args.json ≡ false
      → args.free_port ≡ true
      → Consent console args.confirm_release true
      → (pids : List ℤ) (c : Call)
      → IsPlanSignal self.port_service.process_service ProcessSignal.terminate pids c
      → IsAskedInText self around args c
  is_terminate in_text asked consent pids (sends pid ProcessSignal.terminate) (own, safe, e) =
      (in_text, inr (asked, consent, safe))
  is_terminate in_text asked consent pids (sends pid ProcessSignal.kill) (own, safe, e) = cc
  is_terminate in_text asked consent pids (starts unit) h = absurd h
  is_terminate in_text asked consent pids (stops unit) h = absurd h
  is_terminate in_text asked consent pids (restarts unit) h = absurd h

  is_force :
      args.json ≡ false
      → args.free_port ≡ true
      → Consent console args.confirm_release false
      → (pids : List ℤ) (c : Call)
      → IsPlanSignal self.port_service.process_service ProcessSignal.kill pids c
      → IsAskedInText self around args c
  is_force in_text asked consent pids (sends pid ProcessSignal.kill) (own, safe, e) =
      (in_text, inr (asked, consent, safe))
  is_force in_text asked consent pids (sends pid ProcessSignal.terminate) (own, safe, e) = cc
  is_force in_text asked consent pids (starts unit) h = absurd h
  is_force in_text asked consent pids (stops unit) h = absurd h
  is_force in_text asked consent pids (restarts unit) h = absurd h

  module _ (in_text : args.json ≡ false) (asked : args.free_port ≡ true) where
    stop_owner-IsAsked :
        (plan : PortReleasePlan) (unit : Bytes)
        → Consent console args.confirm_release true
        → Moves (extension (IsAskedInText self around args)) (stop_owner self around args plan unit)
    unfolding stop_owner
    stop_owner-IsAsked plan unit consent =
        Moves-bind _ _ _
          (Moves-attempt _ _ (
            stop_managed_service-Moves _ self.port_service plan around.fuel
              (λ name. (in_text, inr (asked, consent)))))
          (λ result.
            unless_failed-Moves _ around args (text "port") (text "free") result _
              (λ polled e. after polled))
      where
        after :
            (polled : Polled)
            → Moves
                (extension (IsAskedInText self around args))
                (after_stop self around args unit polled)
        after none = unfold after_stop in search text_rules
        after (some stopped) = unfold after_stop in search text_rules

    force_if_any-IsAsked :
        (remaining : Option PortReleasePlan)
        → Consent console args.confirm_release false
        → Moves
            (extension (IsAskedInText self around args))
            (force_if_any self around args remaining)
    unfolding force_if_any force_remaining
    force_if_any-IsAsked none consent = search text_rules
    force_if_any-IsAsked (some plan) consent =
        Moves-bind _ _ _
          (Moves-attempt _ _ (
            Moves-weaken _ _ _ (force-Moves self.port_service plan)
              (is_force in_text asked consent plan.owner_pids)))
          (λ result. search text_rules)

    terminate_owners-IsAsked :
        (plan : PortReleasePlan)
        → Consent console args.confirm_release true
        → Moves
            (extension (IsAskedInText self around args))
            (terminate_owners self around args plan)
    unfolding terminate_owners after_terminated unless_released
    terminate_owners-IsAsked plan consent =
        Moves-bind _ _ _
          (Moves-attempt _ _ (
            Moves-weaken _ _ _ (terminate-Moves self.port_service plan)
              (is_terminate in_text asked consent plan.owner_pids)))
          (λ result. search (text_rules, if_confirmed-Moves, force_if_any-IsAsked) depth 9)

    release-IsAsked :
        (plan : PortReleasePlan) (unit : Option Bytes)
        → Moves (extension (IsAskedInText self around args)) (release self around args plan unit)
    unfolding release
    release-IsAsked plan none = search (if_confirmed-Moves, terminate_owners-IsAsked)
    release-IsAsked plan (some unit) = search (if_confirmed-Moves, stop_owner-IsAsked)

    pub free_port-IsAsked :
        Moves (extension (IsAskedInText self around args)) (run_free_port self around args)
    unfolding run_free_port
    free_port-IsAsked = search (text_rules, prepare_release-Moves, release-IsAsked) depth 9
