-- ===== src/Linux/Process/SignalProvider/Tests.antt =====
-- The theorems of signals at a small kernel.
use lx.Base.{some, none, inr, true, false, suc, [], refl, ℕ, ℤ, arith, ◌+◌, ◌*◌}
use lx.Domain.{ProcessSignal}
use lx.Linux.Errno.{einval}
use lx.Linux.Process.Kernel.{Kernel, timed_out, Trace}
use lx.Linux.Process.SignalProvider.{automatic, disabled, send, wait_for_exit, bounded}
use lx.Linux.Process.SignalProvider.Waits.{IsTicking, Answers, wait_for_exit-Answers}
use lx.Linux.Process.SignalProvider.Sends.{Sends, send-IsSend}

-- The world is the time. Handles are opened but take no signals, and no process ends.
abbrev kernel : Kernel ℕ
kernel = record {
  system = record { number = λ e. ℤ.pos 22; message = λ e. [] };
  has_pidfd_open = true;
  has_pidfd_send_signal = true;
  pidfd_open = λ pid w. (inr 5, w);
  pidfd_send_signal = λ fd s w. (some einval, w);
  poll = λ fd ms w. (timed_out, w);
  close = λ fd w. w;
  kill = λ pid s w. (none, w);
  waitid = λ pid w. (false, w);
  getpid = ℤ.pos 99;
  clock = record { now = λ w. (w, w + 1); sleep_for = λ ms w. (tt, w + ms * 1000000) };
}

abbrev trace : Trace ℕ
trace = record { world = 1000; events = [] }

send-IsSend_example :
    Sends
      (ℤ.pos 42)
      ProcessSignal.terminate
      automatic
      trace
      (send kernel automatic (ℤ.pos 42) ProcessSignal.terminate trace)
send-IsSend_example = send-IsSend kernel (ℤ.pos 42) ProcessSignal.terminate automatic trace

kernel-IsTicking : IsTicking kernel (λ w. w)
kernel-IsTicking = record {
  now = λ w. refl;
  after_now = λ w. omega arith;
  after_sleep = λ ms w. omega arith;
  after_kill = λ pid s w. omega arith;
  after_waitid = λ pid w. omega arith;
}

wait_for_exit-Answers_example :
    Answers
      (λ w. w)
      (1000 + bounded (ℤ.pos 3))
      (wait_for_exit kernel disabled (suc (bounded (ℤ.pos 3))) (ℤ.pos 42) (ℤ.pos 3) trace)
wait_for_exit-Answers_example =
    wait_for_exit-Answers kernel (λ w. w) kernel-IsTicking (ℤ.pos 42) (ℤ.pos 3) trace
