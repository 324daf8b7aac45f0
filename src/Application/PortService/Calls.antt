-- ===== src/Application/PortService/Calls.antt =====
-- What the releases of a port do outside: signals to the processes of the plan, one command to its unit.
use lx.Base.{
  some, none, zero, suc, [], List, ℕ, Option, Bytes, ◌&&◌, nat_Eq, list_Eq, int_Eq, option_Eq,
  option_eq,
}
use lx.Application.PortService.Release.{terminate, force}
use lx.Exec.{Call, stops}
use lx.Application.ServiceService.Commands.{stop-Moves}
use lx.Application.PortService.{PortService}
use lx.Domain.{
  PortReleasePlan, Warning, Error, ProcessSignal, Result, Observation, failure, success,
}
use lx.Application.PortService.ManagedStop.{
  stop_unit, stop_managed_service, gone_or_fail_polled, stop_current, poll, poll_round,
}
use lx.Application.PortService.Release.{force, force_current, terminate_current}
use lx.Exec.Moves.{
  Moves, extension, calls_rules, Moves-bind, Moves-attempt, Moves-if, Moves-then, Moves-observe,
  Moves-fail,
}
use lx.Application.PortService.Signals.{IsPlanSignal, force_current-Moves, terminate_current-Moves}
use lx.Application.ServiceService.{ServiceService}
use lx.Application.PortService.Quiet.{gone_or_fail-Moves, prepare_release-Moves}
use lx.Application.PortService.Plan.{changed_target_error, same_targets}

module _ {W : Type 0} (self : PortService W) (plan : PortReleasePlan) where
  open self use {process_service}

  pub terminate-Moves :
      Moves
        (extension (IsPlanSignal process_service ProcessSignal.terminate plan.owner_pids))
        (terminate self plan)
  unfolding terminate
  terminate-Moves =
      Moves-bind _ _ _ (Moves-attempt _ _ (prepare_release-Moves _ self plan.local_port)) next
    where
      next :
          (current : Result (Observation PortReleasePlan))
          → Moves
              (extension (IsPlanSignal process_service ProcessSignal.terminate plan.owner_pids))
              (terminate_current self plan current)
      next (success current) = terminate_current-Moves self plan current
      next (failure e) = unfold terminate_current in gone_or_fail-Moves _ self _ [] e

  pub force-Moves :
      Moves
        (extension (IsPlanSignal process_service ProcessSignal.kill plan.owner_pids))
        (force self plan)
  unfolding force
  force-Moves =
      Moves-bind _ _ _ (Moves-attempt _ _ (prepare_release-Moves _ self plan.local_port)) next
    where
      next :
          (current : Result (Observation PortReleasePlan))
          → Moves
              (extension (IsPlanSignal process_service ProcessSignal.kill plan.owner_pids))
              (force_current self plan current)
      next (success current) = force_current-Moves self plan current
      next (failure e) = unfold force_current in gone_or_fail-Moves _ self _ [] e

module _ {W : Type 0} (P : Call → Type 0) (self : PortService W) (plan : PortReleasePlan) where
  gone_or_fail_polled-Moves :
      (warnings : List Warning) (e : Error)
      → Moves (extension P) (gone_or_fail_polled self warnings e)
  unfolding gone_or_fail_polled
  gone_or_fail_polled-Moves warnings e = search (calls_rules, gone_or_fail-Moves)

  poll-Moves :
      (fuel : ℕ) (unit : Bytes) (deadline : ℕ) (warnings : List Warning)
      → Moves (extension P) (poll self fuel plan unit deadline warnings)
  unfolding poll
  poll-Moves zero unit deadline warnings = search calls_rules
  poll-Moves (suc fuel) unit deadline warnings =
      Moves-bind _ _ _ (Moves-attempt _ _ (prepare_release-Moves _ self plan.local_port))
        (round (poll-Moves fuel unit deadline))
    where
      round :
          ((more : List Warning) → Moves (extension P) (poll self fuel plan unit deadline more))
          → (after : Result (Observation PortReleasePlan))
          → Moves (extension P) (
              poll_round self (poll self fuel plan unit deadline) plan unit deadline warnings after)
      round next (failure e) = unfold poll_round in gone_or_fail_polled-Moves warnings e
      round next (success after) = unfold poll_round in search (calls_rules, next)

  stop_current-Moves :
      (fuel : ℕ) (unit : Bytes) (services : ServiceService W)
      (current : Result (Observation PortReleasePlan))
      → ((name : Bytes) → P (stops name))
      → Moves (extension P) (stop_current self fuel plan unit services current)
  unfolding stop_current
  stop_current-Moves fuel unit services (failure e) h = gone_or_fail_polled-Moves [] e
  stop_current-Moves fuel unit services (success current) h =
      Moves-if _
        (same_targets plan current.value
          && option_eq current.value.recommended_unit plan.recommended_unit)
        _ _
        (Moves-then _ _ _ (stop-Moves P services unit (λ name e. h name))
          (Moves-bind _ _ _ (Moves-observe P _) (λ now. poll-Moves fuel unit _ current.warnings)))
        (Moves-fail _ changed_target_error)

  stop_unit-Moves :
      (fuel : ℕ) (unit : Option Bytes) (services : Option (ServiceService W))
      → ((name : Bytes) → P (stops name))
      → Moves (extension P) (stop_unit self fuel plan unit services)
  unfolding stop_unit
  stop_unit-Moves fuel none services h = search calls_rules
  stop_unit-Moves fuel (some unit) none h = search calls_rules
  stop_unit-Moves fuel (some unit) (some services) h =
      Moves-bind _ _ _ (Moves-attempt _ _ (prepare_release-Moves _ self plan.local_port))
        (λ current. stop_current-Moves fuel unit services current h)

  pub stop_managed_service-Moves :
      (fuel : ℕ)
      → ((name : Bytes) → P (stops name))
      → Moves (extension P) (stop_managed_service self fuel plan)
  unfolding stop_managed_service
  stop_managed_service-Moves fuel h =
      stop_unit-Moves fuel plan.recommended_unit self.service_service h
