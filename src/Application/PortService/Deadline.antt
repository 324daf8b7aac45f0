-- ===== src/Application/PortService/Deadline.antt =====
-- The loop of `stopManagedService` ends: the clock moves on with every round.
use lx.Application.ProcessService.{inspect as inspect_process, with_service}
use lx.Application.PortService.Inspect.{inspect, find_processes, Found, owner_inodes, add_found}
use lx.Application.ServiceService.{stop as stop_service, unit_by_pid, ServiceService}
use lx.Base.{
  refl, some, none, nat_Eq, list_Eq, int_Eq, option_Eq, [], ℕ, ℤ, List, ◌≡◌, Option, ◌≤◌, arith,
  ◌+◌, ◌∷◌, positive, ◌==◌, ◌*◌, ◌≢◌, Bytes, ◌<◌, zero, suc, Bool-cases, inr, inl, leb, ◌++◌, ◌&&◌,
  option_eq,
}
use lx.Exec.{ask, ◌>>=◌, ◌>>◌, pure, proceed, fail, observe, Action, Machine, attempt}
use lx.Application.PortService.{PortService}
use lx.Exec.Moves.{
  Preorder, Moves, Moves-pure, Moves-if, Moves-bind, moves_rules, Moves-attempt, Moves-fail,
}
use lx.Application.PortService.ManagedStop.{
  poll_round, gone_or_fail_polled, Polled, stop_managed_service, poll, poll_interval, stop_current,
  stop_unit,
}
use lx.Domain.{
  Result, SocketQuery, Observation, ProcessInfo, PortInfo, Warning, Error, PortReleasePlan, success,
  failure,
}
use lx.Application.PortService.Prepare.{plan_for, prepare_release, port_query}
use lx.Application.PortService.Release.{gone_or_fail, deadline_after}
use lx.Application.PortService.Plan.{remaining_targets_belong_to, same_targets}

-- What the loop relies on: `steady_clock` reads a time that no call sets back, and `sleep_for` takes at
-- least its milliseconds.
pub record IsSteady {W : Type 0} (self : PortService W) (time : W → ℕ) : Type 0 where
  pub now : (w : W) → (self.clock.now w).0 ≡ time w
  pub after_now : (w : W) → time w ≤ time (self.clock.now w).1
  pub after_sleep : (ms : ℕ) (w : W) → time w + ms * 1000000 ≤ time (self.clock.sleep_for ms w).1
  pub after_query : (q : SocketQuery) (w : W) → time w ≤ time (self.socket_provider.query q w).1
  pub after_resolve :
      (inodes : List ℕ) (w : W) → time w ≤ time (self.owner_resolver.resolve inodes w).1
  pub after_get :
      (pid : ℤ) (w : W) → time w ≤ time (self.process_service.process_provider.get pid w).1
  pub after_unit :
      (services : ServiceService W) (pid : ℤ) (w : W)
      → self.process_service.service_service ≡ some services
      → time w ≤ time (services.service_provider.unit_by_pid pid w).1

abbrev later : {W : Type 0} → (W → ℕ) → Preorder W
later time = record {
  Rel = λ m n. time m.world ≤ time n.world;
  rel_refl = λ m. omega arith;
  rel_trans = λ m n k h i. omega arith;
}

ask-later :
    {W A : Type 0} (time : W → ℕ) (f : W → Result A × W)
    → ((w : W) → time w ≤ time (f w).1)
    → Moves (later time) (ask f)
unfolding ask
ask-later time f h = record { at = λ m. h m.world }

unit_by_pid-later :
    {W : Type 0} (time : W → ℕ) (s : ServiceService W) (pid : ℤ)
    → ((w : W) → time w ≤ time (s.service_provider.unit_by_pid pid w).1)
    → Moves (later time) (unit_by_pid s pid)
unfolding unit_by_pid
unit_by_pid-later time s pid h = Moves-if _ (positive pid) _ _ (ask-later time _ h) (Moves-fail _ _)

with_service-later :
    {W : Type 0} (time : W → ℕ) (services : Option (ServiceService W)) (pid : ℤ)
    (observed : Observation ProcessInfo)
    → ((s : ServiceService W) (w : W)
        → services ≡ some s
        → time w ≤ time (s.service_provider.unit_by_pid pid w).1)
    → Moves (later time) (with_service services pid observed)
unfolding with_service
with_service-later time none pid observed h = Moves-pure _ observed
with_service-later time (some s) pid observed h =
    Moves-bind _ _ _ (Moves-attempt _ _ (unit_by_pid-later time s pid (λ w. h s w refl)))
      (λ unit. Moves-pure _ _)

proceed-returns :
    {W A : Type 0} (next : A → Action W Polled) (r : Result A) (m : Machine W)
    → ((a : A) (k : Machine W) → (next a k).0 ≢ success none)
    → (proceed next (r, m)).0 ≢ success none
unfolding proceed
proceed-returns next (success a) m h = h a m
proceed-returns next (failure e) m h = cc

bind-returns :
    {W A : Type 0} (act : Action W A) (next : A → Action W Polled) (m : Machine W)
    → ((a : A) (k : Machine W) → (next a k).0 ≢ success none)
    → ((act >>= next) m).0 ≢ success none
unfolding ◌>>=◌
bind-returns act next m h = proceed-returns next (act m).0 (act m).1 h

module _ {W : Type 0} (self : PortService W) (time : W → ℕ) (steady : IsSteady self time) where
  open self use {process_service, clock, grace_period}

  inspect_process-later : (pid : ℤ) → Moves (later time) (inspect_process process_service pid)
  unfolding inspect_process
  inspect_process-later pid =
      Moves-if _ (positive pid) _ _
        (Moves-bind _ _ _ (ask-later time _ (steady.after_get pid)) (λ observed.
          with_service-later time process_service.service_service pid observed
            (λ s w e. steady.after_unit s pid w e)))
        (Moves-fail _ _)

  find_processes-later :
      (pids : List ℤ) (found : Found)
      → Moves (later time) (find_processes process_service pids found)
  unfolding find_processes
  find_processes-later [] found = Moves-pure _ found
  find_processes-later (pid ∷ rest) found =
      Moves-bind _ _ _ (Moves-attempt _ _ (inspect_process-later pid))
        (λ process. find_processes-later rest (add_found pid process found))

  plan_for-later :
      (port : ℕ) (inspected : Observation (List PortInfo))
      → Moves (later time) (plan_for self port inspected)
  unfolding plan_for
  plan_for-later port inspected = search moves_rules

  inspect-later : (query : SocketQuery) → Moves (later time) (inspect self query)
  unfolding inspect
  inspect-later query = Moves-bind _ _ _ (ask-later time _ (steady.after_query query)) (λ sockets.
      Moves-bind _ _ _ (ask-later time _ (steady.after_resolve (owner_inodes sockets.value)))
        (λ ownership. Moves-bind _ _ _ (find_processes-later _ _) (λ found. Moves-pure _ _)))

  prepare_release-later : (port : ℕ) → Moves (later time) (prepare_release self port)
  unfolding prepare_release
  prepare_release-later port =
      Moves-if _ (port == 0) _ _ (Moves-fail _ _)
        (Moves-bind _ _ _ (inspect-later (port_query port)) (plan_for-later port))

  gone_or_fail_polled-returns :
      (warnings : List Warning) (e : Error) (m : Machine W)
      → (gone_or_fail_polled self warnings e m).0 ≢ success none
  unfolding gone_or_fail_polled gone_or_fail ◌>>=◌ pure fail proceed
  gone_or_fail_polled-returns warnings e m = ground arith

  poll_round-returns :
      (next : List Warning → Action W Polled) (plan : PortReleasePlan) (unit : Bytes) (deadline : ℕ)
      (warnings : List Warning) (after : Result (Observation PortReleasePlan)) (n : Machine W)
      → ((more : List Warning) (k : Machine W)
          → time n.world < deadline
          → time n.world + 25000000 ≤ time k.world
          → (next more k).0 ≢ success none)
      → (poll_round self next plan unit deadline warnings after n).0 ≢ success none
  unfolding poll_round ◌>>=◌ ◌>>◌ proceed observe fail
  poll_round-returns next plan unit deadline warnings (failure e) n h =
      gone_or_fail_polled-returns warnings e n
  poll_round-returns next plan unit deadline warnings (success after) n h =
      elim (Bool-cases (remaining_targets_belong_to plan after.value)) [
        | inr f ↦ rw f (cc)
        | inl t ↦ rw t (elim (Bool-cases (leb deadline (clock.now n.world).0)) [
          | inl u ↦ rw u (cc)
          | inr u ↦
              let w1 = (clock.now n.world).1 in
              let w2 = (clock.sleep_for poll_interval w1).1 in
              let read = steady.now n.world in
              let moved = steady.after_now n.world in
              let slept = steady.after_sleep poll_interval w1 in
              rw u (
                h (warnings ++ after.warnings) (record n { world = w2 }) (ground arith)
                  (omega arith))
        ])
      ]

  -- With a fuel above the rounds that fit before the deadline, the loop returns.
  poll-returns :
      (f : ℕ) (plan : PortReleasePlan) (unit : Bytes) (deadline : ℕ) (warnings : List Warning)
      (m : Machine W)
      → deadline ≤ time m.world + f * 25000000
      → (poll self (suc f) plan unit deadline warnings m).0 ≢ success none
  unfolding poll ◌>>=◌ attempt proceed
  poll-returns zero plan unit deadline warnings m h =
      let moved = (prepare_release-later plan.local_port).at m in
      poll_round-returns (poll self zero plan unit deadline) plan unit deadline warnings
        (prepare_release self plan.local_port m).0 (prepare_release self plan.local_port m).1
        (λ more k early slept. absurd (omega arith))
  poll-returns (suc f) plan unit deadline warnings m h =
      let moved = (prepare_release-later plan.local_port).at m in
      poll_round-returns (poll self (suc f) plan unit deadline) plan unit deadline warnings
        (prepare_release self plan.local_port m).0 (prepare_release self plan.local_port m).1
        (λ more k early slept. poll-returns f plan unit deadline more k (omega arith))

  start_poll-returns :
      (f : ℕ) (plan : PortReleasePlan) (unit : Bytes) (warnings : List Warning) (m : Machine W)
      → grace_period ≤ 25 * f
      → ((observe clock.now >>= λ now.
            poll self (suc f) plan unit (deadline_after now grace_period) warnings)
          m).0
        ≢ success none
  unfolding ◌>>=◌ observe proceed
  start_poll-returns f plan unit warnings m enough =
      let read = steady.now m.world in
      let moved = steady.after_now m.world in
      poll-returns f plan unit (deadline_after (clock.now m.world).0 grace_period) warnings
        (record m { world = (clock.now m.world).1 }) (omega arith)

  stop_current-returns :
      (f : ℕ) (plan : PortReleasePlan) (unit : Bytes) (services : ServiceService W)
      (current : Result (Observation PortReleasePlan)) (m : Machine W)
      → grace_period ≤ 25 * f
      → (stop_current self (suc f) plan unit services current m).0 ≢ success none
  unfolding stop_current ◌>>◌
  stop_current-returns f plan unit services (failure e) m enough =
      gone_or_fail_polled-returns [] e m
  stop_current-returns f plan unit services (success current) m enough =
      elim (Bool-cases (
        same_targets plan current.value
        && option_eq current.value.recommended_unit plan.recommended_unit)) [
          | inr x ↦ rw x (unfold fail in cc)
          | inl x ↦ rw x (
              bind-returns (stop_service services unit) _ m
                (λ v k. start_poll-returns f plan unit current.warnings k enough))
        ]

  stop_unit-returns :
      (f : ℕ) (plan : PortReleasePlan) (unit : Option Bytes) (services : Option (ServiceService W))
      (m : Machine W)
      → grace_period ≤ 25 * f
      → (stop_unit self (suc f) plan unit services m).0 ≢ success none
  unfolding stop_unit fail
  stop_unit-returns f plan none services m enough = cc
  stop_unit-returns f plan (some unit) none m enough = cc
  stop_unit-returns f plan (some unit) (some services) m enough =
      bind-returns (attempt (prepare_release self plan.local_port)) _ m
        (λ current k. stop_current-returns f plan unit services current k enough)

  -- If the clock never goes back and `sleep_for` takes its time, a fuel above a twenty-fifth of the
  -- grace period in milliseconds is enough: `stopManagedService` returns a result or an error,
  -- whatever the sockets, the processes and the service manager answer.
  pub stop_managed_service-returns :
      (f : ℕ) (plan : PortReleasePlan) (m : Machine W)
      → grace_period ≤ 25 * f
      → (stop_managed_service self (suc f) plan m).0 ≢ success none
  unfolding stop_managed_service
  stop_managed_service-returns f plan m enough =
      stop_unit-returns f plan plan.recommended_unit self.service_service m enough
