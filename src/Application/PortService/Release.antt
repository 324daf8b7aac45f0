-- ===== src/Application/PortService/Release.antt =====
-- `terminate`, `force` and `stopManagedService`.
use lx.Application.PortService.{PortService}
use lx.Application.PortService.Prepare.{prepare_release}
use lx.Application.PortService.Plan.{
  same_targets, remaining_targets_belong_to, changed_target_error,
}
use lx.Application.ProcessService.{stop, kill, wait_for_exit}
use lx.Base.{
  some, none, true, false, ℕ, List, Bool, ℤ, ◌+◌, if◌then◌else◌, ◌*◌, Option, leb, [], ◌++◌, ◌-◌,
  ◌∷◌, text, ◌/◌,
}
use lx.Exec.{◌>>=◌, ◌>>◌, Action, pure, attempt, observe, fail}
use lx.Domain.{
  PortReleasePlan, PortReleaseResult, SignalDelivery, Result, Warning, Error, Void, Observation,
  success, code_eq, failure, not_found, make_error, timeout,
}

abbrev pub released_result : Bool → List SignalDelivery → Option PortReleasePlan → PortReleaseResult
released_result released deliveries remaining = record {
  released = released;
  deliveries = deliveries;
  remaining = remaining;
}

-- the error of a signal that could not be sent, after others were
unfoldable pub partial_error : List SignalDelivery → Error → Error
partial_error [] e = e
partial_error (d ∷ ds) e = record e {
  message = text "Port release was partially signaled: " ++ e.message;
}

-- `deadline - now` in whole milliseconds, at least 0; times are in nanoseconds
unfoldable pub remaining_time : ℕ → ℕ → ℕ
remaining_time deadline now = if leb deadline now then 0 else (deadline - now) / 1000000

abbrev pub deadline_after : ℕ → ℕ → ℕ
deadline_after now grace_period = now + grace_period * 1000000

module _ {W : Type 0} where
  unfoldable pub deliver_next :
      (List SignalDelivery → Action W (List SignalDelivery))
      → List SignalDelivery
      → Result SignalDelivery
      → Action W (List SignalDelivery)
  deliver_next next done (success delivery) = next (done ++ delivery ∷ [])
  deliver_next next done (failure e) = fail (partial_error done e)

  -- The loop that signals the owners, one after the other, until one cannot be signalled.
  unfoldable pub deliver :
      (ℤ → Action W SignalDelivery) → List ℤ → List SignalDelivery → Action W (List SignalDelivery)
  unfolding deliver_next
  deliver act [] done = pure done
  deliver act (pid ∷ rest) done = do
    delivery ← attempt (act pid)
    deliver_next (deliver act rest) done delivery

module _ {W : Type 0} (self : PortService W) where
  open self use {process_service, clock, grace_period}

  unfoldable pub await_exits : ℕ → List ℤ → Action W Void
  await_exits deadline [] = pure tt
  await_exits deadline (pid ∷ rest) = do
    now ← observe clock.now
    exited ← wait_for_exit process_service pid (remaining_time deadline now)
    await_exits deadline rest

  -- a failed `prepareRelease`: no socket is left, or the failure stands
  unfoldable pub gone_or_fail :
      PortReleaseResult → List Warning → Error → Action W (Observation PortReleaseResult)
  gone_or_fail result warnings e =
      if code_eq e.code not_found
      then pure (record { value = result; warnings = warnings })
      else fail e

  -- the signals, and the wait for the processes
  unfoldable pub signal_owners :
      (ℤ → Action W SignalDelivery) → List ℤ → Action W (List SignalDelivery)
  signal_owners act pids = do
    deliveries ← deliver act pids []
    now ← observe clock.now
    await_exits (deadline_after now grace_period) pids
    pure deliveries

  unfoldable pub after_terminate :
      PortReleasePlan
      → List Warning
      → List SignalDelivery
      → Result (Observation PortReleasePlan)
      → Action W (Observation PortReleaseResult)
  unfolding gone_or_fail
  after_terminate plan warnings deliveries (failure e) =
      gone_or_fail (released_result true deliveries none) warnings e
  after_terminate plan warnings deliveries (success after) =
      if remaining_targets_belong_to plan after.value
      then pure (record {
        value = released_result false deliveries (some after.value);
        warnings = warnings ++ after.warnings;
      })
      else fail changed_target_error

  unfoldable pub terminate_current :
      PortReleasePlan
      → Result (Observation PortReleasePlan)
      → Action W (Observation PortReleaseResult)
  unfolding gone_or_fail
  terminate_current plan (failure e) = gone_or_fail (released_result true [] none) [] e
  terminate_current plan (success current) =
      if same_targets plan current.value
      then (do
        deliveries ← signal_owners (stop process_service) plan.owner_pids
        after ← attempt (prepare_release self plan.local_port)
        after_terminate plan current.warnings deliveries after)
      else fail changed_target_error

  unfoldable pub terminate : PortReleasePlan → Action W (Observation PortReleaseResult)
  unfolding terminate_current
  terminate plan = do
    current ← attempt (prepare_release self plan.local_port)
    terminate_current plan current

  unfoldable pub after_force :
      PortReleasePlan
      → List Warning
      → List SignalDelivery
      → Result (Observation PortReleasePlan)
      → Action W (Observation PortReleaseResult)
  unfolding gone_or_fail
  after_force plan warnings deliveries (failure e) =
      gone_or_fail (released_result true deliveries none) warnings e
  after_force plan warnings deliveries (success after) =
      if remaining_targets_belong_to plan after.value
      then fail (
          make_error timeout (text "Port is still occupied after SIGKILL") (text "port-service")
            (text "force release"))
      else fail changed_target_error

  unfoldable pub force_current :
      PortReleasePlan
      → Result (Observation PortReleasePlan)
      → Action W (Observation PortReleaseResult)
  unfolding gone_or_fail
  force_current plan (failure e) = gone_or_fail (released_result true [] none) [] e
  force_current plan (success current) =
      if same_targets plan current.value
      then (do
        deliveries ← signal_owners (kill process_service) plan.owner_pids
        after ← attempt (prepare_release self plan.local_port)
        after_force plan current.warnings deliveries after)
      else fail changed_target_error

  unfoldable pub force : PortReleasePlan → Action W (Observation PortReleaseResult)
  unfolding force_current
  force plan = do
    current ← attempt (prepare_release self plan.local_port)
    force_current plan current
