-- ===== src/Cli/App/Asked/Service.antt =====
-- CliApp::run: `lx service`.
use lx.Base.{
  some, true, false, ◌≡◌, Bytes, inl, ◌⊎◌, text, none, nat_Eq, list_Eq, int_Eq, option_Eq, is_nil,
  ◌||◌, Option, ◌==◌, list_eq_iff, arith, not, inr,
}
use lx.Cli.App.{Arguments, CliApp, Surroundings}
use lx.Cli.App.Changes.{change_service, act_on, run_service_action, asks_first}
use lx.Exec.Moves.{Moves, extension, Moves-bind, Moves-attempt, Moves-cases}
use lx.Cli.App.Silent.{Consent, if_confirmed-Moves, text_rules}
use lx.Cli.App.Run.{run_service}
use lx.Application.ServiceService.Commands.{start-Moves, stop-Moves, restart-Moves}
use lx.Cli.App.Quiet.{list_services-Moves, inspect_service-Moves}
use lx.Cli.App.Asked.{is_action, IsAskedInText}

module _ {W : Type 0} (self : CliApp W) (around : Surroundings W) (args : Arguments) where
  open around use {console}

  change_service-IsAsked :
      (unit : Bytes)
      → args.json ≡ false
      → args.service ≡ true
      → args.service_unit ≡ some unit
      → is_action args.service_action ≡ true
      → is_nil args.service_action ≡ false
      → (asks_first args.service_action ≡ true → Consent console args.confirm_service_action false)
      → Moves (extension (IsAskedInText self around args)) (change_service self around args unit)
  unfolding change_service act_on asks_first is_action
  change_service-IsAsked unit in_text asked named checked given consent =
      Moves-bind _ _ _
        (Moves-attempt _ _ (
          Moves-cases _ (args.service_action == text "start") _ _
            (λ start.
              start-Moves _ self.service_service unit
                (λ name e. (in_text, (asked, (list_eq_iff _ _).0 start, (unit, named, e)))))
            (λ other.
              Moves-cases _ (args.service_action == text "stop") _ _
                (λ stop. stop-Moves _ self.service_service unit (λ name e. (
                  in_text,
                  inl ((asked, (list_eq_iff _ _).0 stop, (unit, named, e)), consent (ground arith)),
                )))
                (λ neither. restart-Moves _ self.service_service unit (λ name e. (
                  in_text,
                  (
                    (asked, (list_eq_iff _ _).0 (ground arith), (unit, named, e)),
                    consent (ground arith),
                  ),
                ))))))
        (λ result. search text_rules)

  pub service-IsAsked :
      (unit : Option Bytes)
      → args.json ≡ false ⊎ (is_nil args.service_action ≡ true)
      → args.service ≡ true
      → args.service_unit ≡ unit
      → is_action args.service_action ≡ true
      → Moves (extension (IsAskedInText self around args)) (run_service self around args unit)
  unfolding run_service run_service_action
  service-IsAsked none in_text asked named checked = list_services-Moves _ self around args
  service-IsAsked (some unit) in_text asked named checked =
      Moves-cases _ (is_nil args.service_action) _ _
        (λ reads. inspect_service-Moves _ self around args unit)
        (λ acts. if_confirmed-Moves _ around args _ _ false _ (λ consent.
          change_service-IsAsked unit (ground arith) asked named checked acts
            (λ asks. of_consent asks consent)))
    where
      of_consent :
          asks_first args.service_action ≡ true
          → Consent console
              (not (asks_first args.service_action) || args.confirm_service_action)
              false
          → Consent console args.confirm_service_action false
      of_consent asks (inl confirmed) = inl (ground arith)
      of_consent asks (inr agreed) = inr agreed
