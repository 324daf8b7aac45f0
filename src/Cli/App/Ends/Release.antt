-- ===== src/Cli/App/Ends/Release.antt =====
-- CliApp::run: `lx port free` ends, and reads no plan that is not there.
use lx.Base.{
  some, none, true, false, ◌≡◌, suc, refl, [], ℕ, List, is_some, Option, ◌≤◌, ◌*◌, text, Bytes, ◌≢◌,
}
use lx.Cli.App.{Arguments, CliApp, Surroundings, unless_failed}
use lx.Application.PortService.{PortService}
use lx.Domain.{
  Observation, PortReleasePlan, PortReleaseResult, Warning, SignalDelivery, Result, Error, failure,
  success, code_eq, not_found,
}
use lx.Application.PortService.Release.{
  gone_or_fail, after_terminate, terminate_current, released_result,
}
use lx.Cli.App.Changes.{
  terminate_owners, after_terminated, force_if_any, force_remaining, unless_released, after_stop,
  stop_owner, run_free_port, release,
}
use lx.Exec.Returns.{Returns, Returns-if, Returns-pure, Returns-after, Returns-fail}
use lx.Exec.Ends.{Ends, Ends-bind, Ends-attempt, Ends-then, Ends-cases}
use lx.Application.PortService.Deadline.{IsSteady, stop_managed_service-returns}
use lx.Cli.App.Ends.{
  IsEnd, end_rules, fail_with-IsEnd, diagnose-Ends, note-IsEnd, put-Ends, if_confirmed-IsEnd,
}
use lx.Application.PortService.Plan.{remaining_targets_belong_to, same_targets}
use lx.Application.PortService.ManagedStop.{Polled}
use lx.Application.PortService.Release

-- A result that is no release says what remains.
abbrev HasPlan : Observation PortReleaseResult → Type 0
HasPlan observed = observed.value.released ≡ false → is_some observed.value.remaining ≡ true

module _ {W : Type 0} (self : PortService W) where
  gone_or_fail-HasPlan :
      (deliveries : List SignalDelivery) (warnings : List Warning) (e : Error)
      → Returns HasPlan (gone_or_fail self (released_result true deliveries none) warnings e)
  unfolding gone_or_fail
  gone_or_fail-HasPlan deliveries warnings e =
      Returns-if _ (code_eq e.code not_found) _ _ (λ t. Returns-pure _ _ (λ f. cc))
        (λ f. Returns-fail _ e)

  after_terminate-HasPlan :
      (plan : PortReleasePlan) (warnings : List Warning) (deliveries : List SignalDelivery)
      (after : Result (Observation PortReleasePlan))
      → Returns HasPlan (after_terminate self plan warnings deliveries after)
  unfolding after_terminate
  after_terminate-HasPlan plan warnings deliveries (failure e) =
      gone_or_fail-HasPlan deliveries warnings e
  after_terminate-HasPlan plan warnings deliveries (success after) =
      Returns-if _ (remaining_targets_belong_to plan after.value) _ _
        (λ t. Returns-pure _ _ (λ f. refl)) (λ f. Returns-fail _ _)

  terminate-HasPlan : (plan : PortReleasePlan) → Returns HasPlan (Release.terminate self plan)
  unfolding Release.terminate
  terminate-HasPlan plan = Returns-after _ _ _ current_plan
    where
      current_plan :
          (current : Result (Observation PortReleasePlan))
          → Returns HasPlan (terminate_current self plan current)
      current_plan (failure e) = unfold terminate_current in gone_or_fail-HasPlan [] [] e
      current_plan (success current) =
          unfold terminate_current in
          Returns-if _ (same_targets plan current.value) _ _
            (λ t. Returns-after _ _ _ (λ deliveries.
              Returns-after _ _ _
                (λ after. after_terminate-HasPlan plan current.warnings deliveries after)))
            (λ f. Returns-fail _ _)

module _ {W : Type 0} (self : CliApp W) (around : Surroundings W) (args : Arguments) where
  open self use {port_service}

  force_if_any-IsEnd :
      (remaining : Option PortReleasePlan)
      → is_some remaining ≡ true
      → Ends (IsEnd args) (force_if_any self around args remaining)
  unfolding force_if_any force_remaining
  force_if_any-IsEnd none h = cc
  force_if_any-IsEnd (some plan) h = search end_rules depth 9

  unless_released-IsEnd :
      (result : Result (Observation PortReleaseResult))
      → ((t : Observation PortReleaseResult) → result ≡ success t → HasPlan t)
      → Ends (IsEnd args) (
          unless_failed around args
            (text "port")
            (text "free")
            result
            (after_terminated self around args))
  unfolding after_terminated unless_released unless_failed
  unless_released-IsEnd (failure e) h = fail_with-IsEnd around args _ _ e
  unless_released-IsEnd (success t) h = Ends-then _ _ _ (diagnose-Ends around args _) (
      Ends-cases _ t.value.released _ _ (λ released. note-IsEnd around args _)
        (λ occupied. Ends-then _ _ _ (put-Ends around args _) (
          if_confirmed-IsEnd around args _ _ _ _
            (force_if_any-IsEnd t.value.remaining (h t refl occupied)))))

  terminate_owners-IsEnd :
      (plan : PortReleasePlan) → Ends (IsEnd args) (terminate_owners self around args plan)
  unfolding terminate_owners
  terminate_owners-IsEnd plan =
      Ends-bind _ _ _ _
        (Ends-attempt (λ r. (t : Observation PortReleaseResult) → r ≡ success t → HasPlan t)
          (Release.terminate port_service plan)
          (λ m t e. (terminate-HasPlan port_service plan).at m t e))
        unless_released-IsEnd

  module _ (time : W → ℕ) (steady : IsSteady port_service time) (f : ℕ) (fuel : around.fuel ≡ suc f)
      (enough : port_service.grace_period ≤ 25 * f) where
    stopped-IsEnd :
        (unit : Bytes) (result : Result Polled)
        → result ≢ success none
        → Ends (IsEnd args) (
            unless_failed around args
              (text "port")
              (text "free")
              result
              (after_stop self around args unit))
    unfolding unless_failed after_stop
    stopped-IsEnd unit (failure e) h = fail_with-IsEnd around args _ _ e
    stopped-IsEnd unit (success none) h = absurd (h refl)
    stopped-IsEnd unit (success (some stopped)) h = search end_rules

    stop_owner-IsEnd :
        (plan : PortReleasePlan) (unit : Bytes)
        → Ends (IsEnd args) (stop_owner self around args plan unit)
    unfolding stop_owner
    stop_owner-IsEnd plan unit =
        Ends-bind _ (λ r. r ≢ success none) _ _
          (Ends-attempt _ _
            (λ m. rw fuel (stop_managed_service-returns port_service time steady f plan m enough)))
          (stopped-IsEnd unit)

    release-IsEnd :
        (plan : PortReleasePlan) (unit : Option Bytes)
        → Ends (IsEnd args) (release self around args plan unit)
    unfolding release
    release-IsEnd plan none = search (end_rules, terminate_owners-IsEnd)
    release-IsEnd plan (some unit) = search (end_rules, stop_owner-IsEnd)

    pub free_port-IsEnd : Ends (IsEnd args) (run_free_port self around args)
    unfolding run_free_port
    free_port-IsEnd = search (end_rules, release-IsEnd) depth 9
