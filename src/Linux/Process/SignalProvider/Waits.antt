-- ===== src/Linux/Process/SignalProvider/Waits.antt =====
-- The wait by kill(2) ends, LinuxSignalProvider.cpp.
use lx.Base.{
  some, none, true, false, zero, suc, ℕ, Option, ◌≡◌, ℤ, Bool, ◌+◌, ◌≤◌, ◌<◌, arith, Bool-cases,
  leb, inl, inr, leb→le, ltb, ltb→lt, ◌-◌, sym,
}
use lx.Domain.{success, failure, Result, ProcessSignal}
use lx.Linux.Process.SignalProvider.{
  poll_process, disabled, wait_for_exit, wait_with_kill, after_probe, exited_probe,
  exited_with_kill, bounded, pause,
}
use lx.Linux.Process.Kernel.{Kernel, Trace, goes_on}

-- What the loop relies on: `steady_clock` reads a time that no call sets back, and reading it takes
-- at least a nanosecond.
pub record IsTicking {W : Type 0} (kernel : Kernel W) (time : W → ℕ) : Type 0 where
  pub now : (w : W) → (kernel.clock.now w).0 ≡ time w
  pub after_now : (w : W) → time w + 1 ≤ time (kernel.clock.now w).1
  pub after_sleep : (ms : ℕ) (w : W) → time w ≤ time (kernel.clock.sleep_for ms w).1
  pub after_kill :
      (pid : ℤ) (s : Option ProcessSignal) (w : W) → time w ≤ time (kernel.kill pid s w).1
  pub after_waitid : (pid : ℤ) (w : W) → time w ≤ time (kernel.waitid pid w).1

-- The run has a result, and says that the process still runs only when the deadline is over.
abbrev pub Answers : {W : Type 0} → (W → ℕ) → ℕ → Option (Result Bool × Trace W) → Type 0
Answers time deadline none = ⊥
Answers time deadline (some (r, t)) = r ≡ success false → deadline ≤ time t.world

module _ {W : Type 0} (kernel : Kernel W) (time : W → ℕ) (steady : IsTicking kernel time) where
  exited_probe-later :
      (pid : ℤ) (gone : Bool) (t : Trace W)
      → time t.world ≤ time (exited_probe kernel pid gone t).1.world
  unfolding exited_probe
  exited_probe-later pid true t = omega arith
  exited_probe-later pid false t = steady.after_kill pid none t.world

  exited-later :
      (pid : ℤ) (t : Trace W) → time t.world ≤ time (exited_with_kill kernel pid t).1.world
  unfolding exited_with_kill
  exited-later pid t =
      let a = steady.after_waitid pid t.world in
      let (gone, w) = kernel.waitid pid t.world in
      let b = exited_probe-later pid gone (goes_on t w) in omega arith

  after_probe-Answers :
      (next : Trace W → Option (Result Bool × Trace W)) (deadline : ℕ) (r : Result Bool)
      (t : Trace W)
      → (time t.world < deadline
          → (t' : Trace W) → time t.world + 1 ≤ time t'.world
          → Answers time deadline (next t'))
      → Answers time deadline (after_probe kernel next deadline r t)
  unfolding after_probe
  after_probe-Answers next deadline (failure e) t h = λ q. absurd cc
  after_probe-Answers next deadline (success true) t h = λ q. absurd cc
  after_probe-Answers next deadline (success false) t h =
      let n = steady.now t.world in
      let a = steady.after_now t.world in
      let (now, w) = kernel.clock.now t.world in
      elim (Bool-cases (leb deadline now)) [
        | inl over ↦ rw over (λ q. let o = leb→le deadline now over in omega arith)
        | inr early ↦ rw early (
            h
              (let o : ltb now deadline ≡ true = ground arith in
                let p = ltb→lt now deadline o in omega arith)
              _ (let s = steady.after_sleep (pause (deadline - now)) w in omega arith))
      ]

  poll_process-Answers :
      (fuel : ℕ) (pid : ℤ) (deadline : ℕ) (t : Trace W)
      → deadline ≤ time t.world + fuel
      → Answers time deadline (poll_process kernel (suc fuel) pid deadline t)
  unfolding poll_process
  poll_process-Answers zero pid deadline t h =
      let l = exited-later pid t in
      after_probe-Answers (poll_process kernel zero pid deadline) deadline
        (exited_with_kill kernel pid t).0 (exited_with_kill kernel pid t).1
        (λ early t' q. absurd (omega (arith, early, l)))
  poll_process-Answers (suc fuel) pid deadline t h =
      let l = exited-later pid t in
      after_probe-Answers (poll_process kernel (suc fuel) pid deadline) deadline
        (exited_with_kill kernel pid t).0 (exited_with_kill kernel pid t).1
        (λ early t' q. poll_process-Answers fuel pid deadline t' (omega (arith, q, l)))

  -- Without handles the wait ends, whatever the process does, within one round more than the
  -- nanoseconds of the timeout, which counts as 0 if it is negative; and it says that the process
  -- still runs only when the timeout is over.
  pub wait_for_exit-Answers :
      (pid : ℤ) (timeout : ℤ) (t : Trace W)
      → Answers time
          (time t.world + bounded timeout)
          (wait_for_exit kernel disabled (suc (bounded timeout)) pid timeout t)
  unfolding wait_for_exit wait_with_kill
  wait_for_exit-Answers pid timeout t =
      let n = steady.now t.world in
      let a = steady.after_now t.world in
      let (now, w) = kernel.clock.now t.world in
      rw (sym n) (
        poll_process-Answers (bounded timeout) pid (now + bounded timeout) (goes_on t w)
          (omega arith))
