-- ===== src/Application/ProcessService/Signals.antt =====
-- Which processes are signalled.
use lx.Base.{refl, true, ℤ, positive, ◌≡◌, ℕ, ◌≢◌, int_eq_iff, arith, some, none, Option, ◌∷◌}
use lx.Application.ProcessService.{
  kill, stop, inspect, ProcessService, validate_signal_target, wait_for_exit, signal, with_service,
}
use lx.Application.ServiceService.{ServiceService}
use lx.Domain.{ProcessSignal, Void, success, Observation, ProcessInfo, Error, failure, Result}
use lx.Exec.{Call, sends, starts, stops, restarts, ◌>>◌, ◌>>=◌, lift, proceed, perform, Machine}
use lx.Exec.Moves.{Moves, extension, calls_rules, Moves-bind-lift, Moves-perform}
use lx.Application.ServiceService.Commands.{unit_by_pid-Moves}

-- A process that may be signalled: neither the init process nor LX, nor a process group.
abbrev pub IsSafeTarget : {W : Type 0} → ProcessService W → ℤ → Type 0
IsSafeTarget self pid = (positive pid ≡ true) × (pid ≢ ℤ.pos 1) × (pid ≢ self.self_pid)

-- The signal to the process, which is a safe target; no command to the service manager.
abbrev pub IsSafeSignal : {W : Type 0} → ProcessService W → ProcessSignal → ℤ → Call → Type 0
IsSafeSignal self signal pid (sends p s) = (p ≡ pid) × IsSafeTarget self p × (s ≡ signal)
IsSafeSignal self signal pid (starts unit) = ⊥
IsSafeSignal self signal pid (stops unit) = ⊥
IsSafeSignal self signal pid (restarts unit) = ⊥

module _ {W : Type 0} (self : ProcessService W) where
  pub validate-IsSafeTarget :
      (pid : ℤ) {v : Void} → validate_signal_target self pid ≡ success v → IsSafeTarget self pid
  unfolding validate_signal_target
  validate-IsSafeTarget pid h =
      let one = (int_eq_iff pid (ℤ.pos 1)).1 in
      let own = (int_eq_iff pid self.self_pid).1 in
      (ground arith, λ e. ground (arith, one e), λ e. ground (arith, own e))

  pub validate_complete :
      (pid : ℤ) → IsSafeTarget self pid → validate_signal_target self pid ≡ success tt
  unfolding validate_signal_target
  validate_complete pid (p, q, r) =
      let one = (int_eq_iff pid (ℤ.pos 1)).0 in
      let own = (int_eq_iff pid self.self_pid).0 in ground (arith, one, own)

  -- Whatever the target and the outcome, `stop` sends nothing but SIGTERM and `kill` nothing but
  -- SIGKILL, only to the process that it is given, and only if that is a positive PID that is neither
  -- 1 nor LX itself.
  pub signals-IsSafeSignal :
      (pid : ℤ)
      → Moves (extension (IsSafeSignal self ProcessSignal.terminate pid)) (stop self pid)
        × Moves (extension (IsSafeSignal self ProcessSignal.kill pid)) (kill self pid)
  unfolding stop kill signal ◌>>◌
  signals-IsSafeSignal pid = (
    Moves-bind-lift _ (validate_signal_target self pid) _
        (λ v h. Moves-perform _ _ _ (refl, validate-IsSafeTarget pid h, refl)),
    Moves-bind-lift _ (validate_signal_target self pid) _
        (λ v h. Moves-perform _ _ _ (refl, validate-IsSafeTarget pid h, refl)),
  )

  -- To a safe target `stop` and `kill` send exactly one signal and return what the system answered;
  -- for any other target they fail and leave the machine as it was.
  pub signals_exact :
      (pid : ℤ) (m : Machine W)
      → (IsSafeTarget self pid
          → ((stop self pid m).0
              ≡ (self.signal_provider.send pid ProcessSignal.terminate m.world).0)
            × ((stop self pid m).1.calls ≡ sends pid ProcessSignal.terminate ∷ m.calls)
            × ((kill self pid m).0 ≡ (self.signal_provider.send pid ProcessSignal.kill m.world).0)
            × ((kill self pid m).1.calls ≡ sends pid ProcessSignal.kill ∷ m.calls))
        × (¬ IsSafeTarget self pid
            → (e : Error) × (stop self pid m ≡ (failure e, m)) × (kill self pid m ≡ (failure e, m)))
  unfolding stop kill signal ◌>>◌ ◌>>=◌ lift proceed perform
  signals_exact pid m = (
    λ safe. let v = validate_complete pid safe in (rw v, rw v, rw v, rw v),
    λ unsafe. refused (validate_signal_target self pid) refl unsafe,
  )
    where
      refused :
          (r : Result Void)
          → validate_signal_target self pid ≡ r
          → ¬ IsSafeTarget self pid
          → (e : Error) × (stop self pid m ≡ (failure e, m)) × (kill self pid m ≡ (failure e, m))
      refused (success v) h unsafe = absurd (unsafe (validate-IsSafeTarget pid h))
      refused (failure e) h unsafe = (e, rw h, rw h)

module _ {W : Type 0} (P : Call → Type 0) where
  with_service-Moves :
      (services : Option (ServiceService W)) (pid : ℤ) (observed : Observation ProcessInfo)
      → Moves (extension P) (with_service services pid observed)
  unfolding with_service
  with_service-Moves none pid observed = search calls_rules
  with_service-Moves (some services) pid observed = search (calls_rules, unit_by_pid-Moves)

  module _ (self : ProcessService W) where
    pub inspect-Moves : (pid : ℤ) → Moves (extension P) (inspect self pid)
    unfolding inspect
    inspect-Moves pid = search (calls_rules, with_service-Moves)

    pub wait_for_exit-Moves :
        (pid : ℤ) (timeout : ℕ) → Moves (extension P) (wait_for_exit self pid timeout)
    unfolding wait_for_exit
    wait_for_exit-Moves pid timeout = search calls_rules
