-- ===== src/Application/PortService/ManagedStop.antt =====
-- `stopManagedService`. Its loop runs on fuel: a result `none` means that the fuel ran out, and
-- `Deadline` shows how much is enough.
use lx.Application.ServiceService.{ServiceService, stop as stop_service}
use lx.Application.PortService.Release.{gone_or_fail, released_result, deadline_after}
use lx.Base.{
  zero, suc, some, none, true, nat_Eq, list_Eq, int_Eq, option_Eq, Bytes, Option, ℕ, List, text, [],
  ◌++◌, if◌then◌else◌, ◌&&◌, option_eq, leb,
}
use lx.Exec.{◌>>=◌, ◌>>◌, Action, fail, pure, attempt, observe}
use lx.Application.PortService.{PortService}
use lx.Domain.{
  Error, Observation, make_error, PortReleasePlan, timeout, invalid_argument, Result, Warning,
  PortReleaseResult, failure, success,
}
use lx.Application.PortService.Prepare.{prepare_release}
use lx.Application.PortService.Plan.{
  remaining_targets_belong_to, same_targets, changed_target_error,
}

-- what the method returns within its fuel
abbrev pub Polled : Type 0
Polled = Option (Observation PortReleaseResult)

abbrev pub poll_interval : ℕ
poll_interval = 25

unfoldable pub no_managed_service : Error
no_managed_service =
    make_error invalid_argument (text "Port release plan has no managed service")
      (text "port-service") (text "stop managed service")

unfoldable pub still_occupied : Bytes → Error
still_occupied unit =
    make_error timeout (text "Port is still occupied after stopping " ++ unit) (text "port-service")
      (text "stop managed service")

module _ {W : Type 0} (self : PortService W) where
  open self use {clock, grace_period, service_service}

  unfoldable pub gone_or_fail_polled : List Warning → Error → Action W Polled
  unfolding gone_or_fail
  gone_or_fail_polled warnings e = do
    result ← gone_or_fail self (released_result true [] none) warnings e
    pure (some result)

  -- one round of the loop, behind its `prepareRelease`; `next` is the loop from the next round on
  unfoldable pub poll_round :
      (List Warning → Action W Polled)
      → PortReleasePlan
      → Bytes
      → ℕ
      → List Warning
      → Result (Observation PortReleasePlan)
      → Action W Polled
  unfolding gone_or_fail_polled
  poll_round next plan unit deadline warnings (failure e) = gone_or_fail_polled warnings e
  poll_round next plan unit deadline warnings (success after) =
      if remaining_targets_belong_to plan after.value
      then (do
        now ← observe clock.now
        if leb deadline now
            then fail (still_occupied unit)
            else do observe (clock.sleep_for poll_interval); next (warnings ++ after.warnings))
      else fail changed_target_error

  unfoldable pub poll : ℕ → PortReleasePlan → Bytes → ℕ → List Warning → Action W Polled
  unfolding poll_round
  poll zero plan unit deadline warnings = pure none
  poll (suc fuel) plan unit deadline warnings = do
    after ← attempt (prepare_release self plan.local_port)
    poll_round (poll fuel plan unit deadline) plan unit deadline warnings after

  unfoldable pub stop_current :
      ℕ
      → PortReleasePlan
      → Bytes
      → ServiceService W
      → Result (Observation PortReleasePlan)
      → Action W Polled
  unfolding gone_or_fail_polled
  stop_current fuel plan unit services (failure e) = gone_or_fail_polled [] e
  stop_current fuel plan unit services (success current) =
      if same_targets plan current.value
        && option_eq current.value.recommended_unit plan.recommended_unit
      then (do
        stop_service services unit
        now ← observe clock.now
        poll fuel plan unit (deadline_after now grace_period) current.warnings)
      else fail changed_target_error

  unfoldable pub stop_unit :
      ℕ → PortReleasePlan → Option Bytes → Option (ServiceService W) → Action W Polled
  unfolding stop_current
  stop_unit fuel plan none services = fail no_managed_service
  stop_unit fuel plan (some unit) none = fail no_managed_service
  stop_unit fuel plan (some unit) (some services) = do
    current ← attempt (prepare_release self plan.local_port)
    stop_current fuel plan unit services current

  unfoldable pub stop_managed_service : ℕ → PortReleasePlan → Action W Polled
  unfolding stop_unit
  stop_managed_service fuel plan = stop_unit fuel plan plan.recommended_unit service_service
