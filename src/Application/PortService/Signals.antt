-- ===== src/Application/PortService/Signals.antt =====
-- The signals of a release go to the processes of its plan.
use lx.Application.ProcessService.{ProcessService, stop, kill}
use mathlib.Core.Path.{subst}
use lx.Application.PortService.Plan.{identity_Eq}
use lx.Base.{
  [], List, ℤ, All, In, ◌≡◌, ◌∷◌, ◌++◌, All-of-In, sym, nat_Eq, list_Eq, int_Eq, option_Eq, false,
}
use lx.Domain.{
  ProcessSignal, SignalDelivery, Result, success, failure, PortReleasePlan, Observation,
}
use lx.Application.PortService.{PortService}
use lx.Exec.{Call, ◌>>◌, Action, sends, starts, stops, restarts, fail}
use lx.Application.PortService.Release.{
  signal_owners, deliver, deliver_next, partial_error, terminate_current, force_current,
}
use lx.Exec.Moves.{
  Moves, extension, Moves-bind, Moves-pure, Moves-observe, Moves-fail, Moves-attempt, Moves-weaken,
  Moves-if,
}
use lx.Application.ProcessService.Signals.{IsSafeTarget, IsSafeSignal, signals-IsSafeSignal}
use lx.Application.PortService.Quiet.{
  await_exits-Moves, prepare_release-Moves, after_terminate-Moves, after_force-Moves,
}
use lx.Application.PortService.Plan.{same_targets, changed_target_error}

-- A signal to one of the processes of the plan, which may be signalled.
abbrev pub IsPlanSignal : {W : Type 0} → ProcessService W → ProcessSignal → List ℤ → Call → Type 0
IsPlanSignal service signal pids (sends pid s) =
    In pid pids × IsSafeTarget service pid × (s ≡ signal)
IsPlanSignal service signal pids (starts unit) = ⊥
IsPlanSignal service signal pids (stops unit) = ⊥
IsPlanSignal service signal pids (restarts unit) = ⊥

module _ {W : Type 0} (P : Call → Type 0) (act : ℤ → Action W SignalDelivery) where
  deliver-Moves :
      (pids : List ℤ) (done : List SignalDelivery)
      → All (λ pid. Moves (extension P) (act pid)) pids
      → Moves (extension P) (deliver act pids done)
  unfolding deliver
  deliver-Moves [] done h = Moves-pure _ done
  deliver-Moves (pid ∷ rest) done (h, hs) =
      Moves-bind _ _ _ (Moves-attempt _ _ h) (next-Moves (deliver-Moves rest))
    where
      next-Moves :
          ((done : List SignalDelivery)
            → All (λ pid. Moves (extension P) (act pid)) rest
            → Moves (extension P) (deliver act rest done))
          → (delivery : Result SignalDelivery)
          → Moves (extension P) (deliver_next (deliver act rest) done delivery)
      next-Moves more (success delivery) = more (done ++ delivery ∷ []) hs
      next-Moves more (failure e) = Moves-fail _ (partial_error done e)

module _ {W : Type 0} (self : PortService W) (P : Call → Type 0) where
  signal_owners-Moves :
      (act : ℤ → Action W SignalDelivery) (pids : List ℤ)
      → All (λ pid. Moves (extension P) (act pid)) pids
      → Moves (extension P) (signal_owners self act pids)
  unfolding signal_owners ◌>>◌
  signal_owners-Moves act pids h = Moves-bind _ _ _ (deliver-Moves P act pids [] h) (λ deliveries.
      Moves-bind _ _ _ (Moves-observe P _)
        (λ now. Moves-bind _ _ _ (await_exits-Moves P self _ pids) (λ v. Moves-pure _ deliveries)))

of-IsSafeSignal :
    {W : Type 0} (service : ProcessService W) (signal : ProcessSignal) (pids : List ℤ) (pid : ℤ)
    → In pid pids
    → (c : Call) → IsSafeSignal service signal pid c
    → IsPlanSignal service signal pids c
of-IsSafeSignal service signal pids pid m (sends p s) (same, safe, e) =
    (subst (λ x. In x pids) (sym same) m, safe, e)
of-IsSafeSignal service signal pids pid m (starts unit) h = h
of-IsSafeSignal service signal pids pid m (stops unit) h = h
of-IsSafeSignal service signal pids pid m (restarts unit) h = h

module _ {W : Type 0} (service : ProcessService W) (pids : List ℤ) where
  stop-IsPlanSignal :
      All
        (λ pid.
          Moves (extension (IsPlanSignal service ProcessSignal.terminate pids)) (stop service pid))
        pids
  stop-IsPlanSignal = All-of-In _ pids (λ pid m.
      Moves-weaken _ _ _ (signals-IsSafeSignal service pid).0
        (of-IsSafeSignal service ProcessSignal.terminate pids pid m))

  kill-IsPlanSignal :
      All
        (λ pid. Moves (extension (IsPlanSignal service ProcessSignal.kill pids)) (kill service pid))
        pids
  kill-IsPlanSignal = All-of-In _ pids (λ pid m.
      Moves-weaken _ _ _ (signals-IsSafeSignal service pid).1
        (of-IsSafeSignal service ProcessSignal.kill pids pid m))

module _ {W : Type 0} (self : PortService W) (plan : PortReleasePlan) where
  open self use {process_service}

  pub terminate_current-Moves :
      (current : Observation PortReleasePlan)
      → Moves
          (extension (IsPlanSignal process_service ProcessSignal.terminate plan.owner_pids))
          (terminate_current self plan (success current))
  unfolding terminate_current
  terminate_current-Moves current =
      Moves-if _ (same_targets plan current.value) _ _
        (Moves-bind _ _ _
          (signal_owners-Moves self _ (stop process_service) plan.owner_pids
            (stop-IsPlanSignal process_service plan.owner_pids))
          (λ deliveries.
            Moves-bind _ _ _ (Moves-attempt _ _ (prepare_release-Moves _ self plan.local_port))
              (λ after. after_terminate-Moves _ self plan current.warnings deliveries after)))
        (Moves-fail _ changed_target_error)

module _ {W : Type 0} (self : PortService W) (plan : PortReleasePlan) where
  open self use {process_service}

  pub changed_targets :
      (current : Observation PortReleasePlan)
      → same_targets plan current.value ≡ false
      → (terminate_current self plan (success current) ≡ fail changed_target_error)
        × (force_current self plan (success current) ≡ fail changed_target_error)
  unfolding terminate_current force_current
  changed_targets current f = (rw f, rw f)

  pub force_current-Moves :
      (current : Observation PortReleasePlan)
      → Moves
          (extension (IsPlanSignal process_service ProcessSignal.kill plan.owner_pids))
          (force_current self plan (success current))
  unfolding force_current
  force_current-Moves current =
      Moves-if _ (same_targets plan current.value) _ _
        (Moves-bind _ _ _
          (signal_owners-Moves self _ (kill process_service) plan.owner_pids
            (kill-IsPlanSignal process_service plan.owner_pids))
          (λ deliveries.
            Moves-bind _ _ _ (Moves-attempt _ _ (prepare_release-Moves _ self plan.local_port))
              (λ after. after_force-Moves _ self plan current.warnings deliveries after)))
        (Moves-fail _ changed_target_error)
