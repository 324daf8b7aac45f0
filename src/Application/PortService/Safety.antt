-- ===== src/Application/PortService/Safety.antt =====
-- A release signals only processes that own the port at that time.
use lx.Application.PortService.Release.{terminate, force}
use mathlib.Core.Path.{subst}
use lx.Application.PortService.Plan.{identity_Eq}
use lx.Base.{
  [], ℤ, In, ◌≡◌, true, nat_Eq, list_Eq, int_Eq, option_Eq, ℕ, list_eq_iff, Bool-cases, inl, map,
  inr, In-map, In-of-map, refl,
}
use lx.Domain.{ProcessSignal, Result, success, failure, PortReleasePlan, Observation}
use lx.Application.PortService.{PortService}
use lx.Exec.{Call, sends, starts, stops, restarts, Machine, fail, ◌>>=◌, attempt, proceed}
use lx.Application.PortService.Release.{terminate_current, force_current, force}
use lx.Exec.Moves.{Moves-weaken, Extends, Extends-trans}
use lx.Application.ProcessService.Signals.{IsSafeTarget}
use lx.Application.PortService.Quiet.{prepare_release-Moves, gone_or_fail-Moves}
use lx.Application.PortService.Plan.{
  same_targets, identities, identity_ltb, identity_of, SocketIdentity,
}
use lx.Application.PortService.Owners.{IsOwner, IsPlan}
use lx.Application.PortService.Prepare.{prepare_release}
use lx.Base.Sort.{In-sort}
use lx.Application.PortService.Signals.{
  force_current-Moves, terminate_current-Moves, IsPlanSignal, changed_targets,
}

-- The signal to a process that, as the release checks the port again, owns one of its sockets.
abbrev pub IsOwnedSignal :
    {W : Type 0} → PortService W → ProcessSignal → ℕ → Machine W → Call → Type 0
IsOwnedSignal self signal port m (sends pid s) =
    (s ≡ signal)
    × IsSafeTarget self.process_service pid
    × ((current : Observation PortReleasePlan) × ((prepare_release self port m).0 ≡ success current)
        × IsOwner pid current.value.ports)
IsOwnedSignal self signal port m (starts unit) = ⊥
IsOwnedSignal self signal port m (stops unit) = ⊥
IsOwnedSignal self signal port m (restarts unit) = ⊥

-- Plans with the same targets have the same owners.
same_targets-IsOwner :
    (plan current : PortReleasePlan) (pid : ℤ)
    → same_targets plan current ≡ true
    → IsOwner pid plan.ports
    → IsOwner pid current.ports
unfolding same_targets
same_targets-IsOwner plan current pid same (p, m, owns) =
    let e : identities plan ≡ identities current =
      (list_eq_iff (identities plan) (identities current)).0 same in
    let i =
      (In-sort identity_ltb (identity_of p) (map identity_of plan.ports)).1
        (In-map identity_of p plan.ports m) in
    let j =
      (In-sort identity_ltb (identity_of p) (map identity_of current.ports)).0
        (subst (λ l. In (identity_of p) l) e i) in
    let (q, k, id) = In-of-map identity_of (identity_of p) current.ports j in
    (q, k, subst (λ (x : SocketIdentity). In pid x.owner_pids) id owns)

IsPlanSignal-IsOwnedSignal :
    {W : Type 0} (self : PortService W) (signal : ProcessSignal) (plan : PortReleasePlan)
    (m : Machine W) (current : Observation PortReleasePlan)
    → IsPlan self.process_service plan.local_port plan
    → (prepare_release self plan.local_port m).0 ≡ success current
    → same_targets plan current.value ≡ true
    → (c : Call) → IsPlanSignal self.process_service signal plan.owner_pids c
    → IsOwnedSignal self signal plan.local_port m c
IsPlanSignal-IsOwnedSignal self signal plan m current ok e same (sends pid s) (i, safe, sig) = (
  sig,
  safe,
  (current, e, same_targets-IsOwner plan current.value pid same ((ok.owners pid).0 i)),
)
IsPlanSignal-IsOwnedSignal self signal plan m current ok e same (starts unit) h = h
IsPlanSignal-IsOwnedSignal self signal plan m current ok e same (stops unit) h = h
IsPlanSignal-IsOwnedSignal self signal plan m current ok e same (restarts unit) h = h

module _ {W : Type 0} (self : PortService W) (plan : PortReleasePlan) (m : Machine W)
    (ok : IsPlan self.process_service plan.local_port plan) where
  terminate_current-IsOwnedSignal :
      (r : Result (Observation PortReleasePlan)) (n : Machine W)
      → (prepare_release self plan.local_port m).0 ≡ r
      → Extends
          (IsOwnedSignal self ProcessSignal.terminate plan.local_port m)
          n
          (terminate_current self plan r n).1
  terminate_current-IsOwnedSignal (failure e) n h =
      unfold terminate_current in (gone_or_fail-Moves _ self _ [] e).at n
  terminate_current-IsOwnedSignal (success current) n h =
      elim (Bool-cases (same_targets plan current.value)) [
        | inl t ↦
            (Moves-weaken _ _ _ (terminate_current-Moves self plan current)
                (IsPlanSignal-IsOwnedSignal self ProcessSignal.terminate plan m current ok h t)).at
              n
        | inr f ↦ rw (changed_targets self plan current f).0 (unfold fail in ([], refl, tt))
      ]

  force_current-IsOwnedSignal :
      (r : Result (Observation PortReleasePlan)) (n : Machine W)
      → (prepare_release self plan.local_port m).0 ≡ r
      → Extends
          (IsOwnedSignal self ProcessSignal.kill plan.local_port m)
          n
          (force_current self plan r n).1
  force_current-IsOwnedSignal (failure e) n h =
      unfold force_current in (gone_or_fail-Moves _ self _ [] e).at n
  force_current-IsOwnedSignal (success current) n h =
      elim (Bool-cases (same_targets plan current.value)) [
        | inl t ↦
            (Moves-weaken _ _ _ (force_current-Moves self plan current)
                (IsPlanSignal-IsOwnedSignal self ProcessSignal.kill plan m current ok h t)).at
              n
        | inr f ↦ rw (changed_targets self plan current f).1 (unfold fail in ([], refl, tt))
      ]

  -- Carrying out a plan that `prepareRelease` made, `terminate` sends nothing but SIGTERM, and only to
  -- processes that, when it checked the port again before its first signal, owned a socket of the port
  -- and could be signalled. It gives no command to the service manager.
  pub terminate-IsOwnedSignal :
      Extends
        (IsOwnedSignal self ProcessSignal.terminate plan.local_port m)
        m
        (terminate self plan m).1
  unfolding terminate ◌>>=◌ attempt proceed
  terminate-IsOwnedSignal =
      Extends-trans _ m (prepare_release self plan.local_port m).1 (terminate self plan m).1
        ((prepare_release-Moves _ self plan.local_port).at m)
        (terminate_current-IsOwnedSignal (prepare_release self plan.local_port m).0
          (prepare_release self plan.local_port m).1 refl)

  -- Carrying out a plan that `prepareRelease` made, `force` sends nothing but SIGKILL, and only to
  -- processes that, when it checked the port again before its first signal, owned a socket of the port
  -- and could be signalled. It gives no command to the service manager.
  pub force-IsOwnedSignal :
      Extends (IsOwnedSignal self ProcessSignal.kill plan.local_port m) m (force self plan m).1
  unfolding force ◌>>=◌ attempt proceed
  force-IsOwnedSignal =
      Extends-trans _ m (prepare_release self plan.local_port m).1 (force self plan m).1
        ((prepare_release-Moves _ self plan.local_port).at m)
        (force_current-IsOwnedSignal (prepare_release self plan.local_port m).0
          (prepare_release self plan.local_port m).1 refl)
