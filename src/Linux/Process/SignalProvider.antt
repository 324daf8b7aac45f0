-- ===== src/Linux/Process/SignalProvider.antt =====
-- LinuxSignalProvider.cpp: signals by a process handle where the kernel has them, else by kill(2).
pub mod Sends
pub mod Waits
mod Tests
use lx.Base.{
  some, none, inl, inr, true, false, zero, suc, ℕ, ℤ, ◌*◌, Bool, Option, Bytes, if◌then◌else◌, text,
  ltb, leb, ◌+◌, ◌/◌, ◌-◌, not,
}
use lx.Domain.{
  success, failure, Result, ProcessSignal, ErrorCode, Error, SignalMechanism, Void, not_found,
  SignalCapabilities, SignalDelivery, permission_denied, code_eq, pid_fd, io_error, unsupported,
}
use lx.Linux.Errno.{esrch, eperm, eacces, System, Errno, system_failure}
use lx.Linux.Process.Kernel.{Kernel, Trace, goes_on, happened, sent_to_pid}
use lx.Linux.Process.PidFd.{wait_for_handle, open_handle, close_handle, send_to_handle}

pub data PidFdPolicy : Type 0 where
  automatic disabled : PidFdPolicy

unfoldable pub provider_code : Errno → ErrorCode
provider_code esrch = not_found
provider_code eperm = permission_denied
provider_code eacces = permission_denied
provider_code _ = io_error

unfoldable pub provider_error : System → Errno → Bytes → Error
provider_error system e operation =
    system_failure system (provider_code e) e (text "linux-signal-provider") operation

abbrev pub delivery : ℤ → ProcessSignal → SignalMechanism → Result SignalDelivery
delivery pid signal mechanism =
    success (record { pid = pid; signal = signal; mechanism = mechanism })

-- what the answer of `kill(pid, 0)` says
unfoldable pub probe_result : System → Option Errno → Result Bool
probe_result system none = success false
probe_result system (some eperm) = success false
probe_result system (some esrch) = success true
probe_result system (some e) = failure (provider_error system e (text "check process lifecycle"))

-- whole milliseconds of nanoseconds, at most 10
unfoldable pub pause : ℕ → ℕ
pause rest = if ltb (rest / 1000000) 10 then rest / 1000000 else 10

-- `max(timeout, 0)` in nanoseconds
unfoldable pub bounded : ℤ → ℕ
bounded (ℤ.pos ms) = ms * 1000000
bounded (ℤ.negsuc n) = 0

module _ {W : Type 0} (kernel : Kernel W) where
  open kernel use {system}

  unfoldable pub kill_result :
      ℤ → ProcessSignal → Option Errno → Trace W → Result SignalDelivery × Trace W
  kill_result pid signal none t = (delivery pid signal SignalMechanism.kill, t)
  kill_result pid signal (some e) t = (failure (provider_error system e (text "send signal")), t)

  unfoldable pub send_with_kill : ℤ → ProcessSignal → Trace W → Result SignalDelivery × Trace W
  unfolding kill_result
  send_with_kill pid signal t =
      let (r, w) = kernel.kill pid (some signal) t.world in
      kill_result pid signal r (happened (sent_to_pid pid signal) t w)

  -- behind `waitid`
  unfoldable pub exited_probe : ℤ → Bool → Trace W → Result Bool × Trace W
  exited_probe pid true t = (success true, t)
  exited_probe pid false t =
      let (r, w) = kernel.kill pid none t.world in (probe_result system r, goes_on t w)

  unfoldable pub exited_with_kill : ℤ → Trace W → Result Bool × Trace W
  unfolding exited_probe
  exited_with_kill pid t =
      let (gone, w) = kernel.waitid pid t.world in exited_probe pid gone (goes_on t w)

  -- behind the signal to the handle: the handle is closed at the end of its block
  unfoldable pub after_handle :
      ℤ → ProcessSignal → ℕ → Result Void → Trace W → Result SignalDelivery × Trace W
  after_handle pid signal fd (success v) t = (delivery pid signal pid_fd, close_handle kernel fd t)
  after_handle pid signal fd (failure e) t =
      if code_eq e.code unsupported
      then send_with_kill pid signal (close_handle kernel fd t)
      else (failure e, close_handle kernel fd t)

  unfoldable pub with_handle :
      ℤ → ProcessSignal → Result ℕ → Trace W → Result SignalDelivery × Trace W
  unfolding after_handle
  with_handle pid signal (failure e) t =
      if code_eq e.code unsupported then send_with_kill pid signal t else (failure e, t)
  with_handle pid signal (success fd) t =
      let (sent, t') = send_to_handle kernel fd signal t in after_handle pid signal fd sent t'

  unfoldable pub send : PidFdPolicy → ℤ → ProcessSignal → Trace W → Result SignalDelivery × Trace W
  unfolding with_handle
  send automatic pid signal t =
      let (handle, t') = open_handle kernel pid t in with_handle pid signal handle t'
  send disabled pid signal t = send_with_kill pid signal t

  -- the sleep of a round, and the rounds behind it
  unfoldable pub after_probe :
      (Trace W → Option (Result Bool × Trace W))
      → ℕ
      → Result Bool
      → Trace W
      → Option (Result Bool × Trace W)
  after_probe next deadline (failure e) t = some (failure e, t)
  after_probe next deadline (success true) t = some (success true, t)
  after_probe next deadline (success false) t =
      let (now, w) = kernel.clock.now t.world in
      if leb deadline now
      then some (success false, goes_on t w)
      else next (goes_on t (kernel.clock.sleep_for (pause (deadline - now)) w).1)

  -- The loop over `kill(pid, 0)`, with fuel; `none` means that the fuel ran out.
  unfoldable pub poll_process : ℕ → ℤ → ℕ → Trace W → Option (Result Bool × Trace W)
  unfolding after_probe
  poll_process zero pid deadline t = none
  poll_process (suc fuel) pid deadline t =
      let (exited, t') = exited_with_kill pid t in
      after_probe (poll_process fuel pid deadline) deadline exited t'

  unfoldable pub wait_with_kill : ℕ → ℤ → ℤ → Trace W → Option (Result Bool × Trace W)
  wait_with_kill fuel pid timeout t =
      let (now, w) = kernel.clock.now t.world in
      poll_process fuel pid (now + bounded timeout) (goes_on t w)

  -- `return handle.value().waitForExit(timeout)`, and the destructor
  unfoldable pub closing_handle :
      ℕ → Option (Result Bool × Trace W) → Option (Result Bool × Trace W)
  closing_handle fd none = none
  closing_handle fd (some (r, t)) = some (r, close_handle kernel fd t)

  unfoldable pub wait_with_handle : ℕ → ℤ → ℤ → Result ℕ → Trace W → Option (Result Bool × Trace W)
  unfolding closing_handle
  wait_with_handle fuel pid timeout (success fd) t =
      closing_handle fd (wait_for_handle kernel fuel fd timeout t)
  wait_with_handle fuel pid timeout (failure e) t =
      if code_eq e.code not_found
      then some (success true, t)
      else if not (code_eq e.code unsupported)
      then some (failure e, t)
      else wait_with_kill fuel pid timeout t

  unfoldable pub wait_for_exit : PidFdPolicy → ℕ → ℤ → ℤ → Trace W → Option (Result Bool × Trace W)
  unfolding wait_with_handle
  wait_for_exit automatic fuel pid timeout t =
      let (handle, t') = open_handle kernel pid t in wait_with_handle fuel pid timeout handle t'
  wait_for_exit disabled fuel pid timeout t = wait_with_kill fuel pid timeout t

  unfoldable pub probed_handle : Result ℕ → Trace W → SignalCapabilities × Trace W
  probed_handle (success fd) t =
      (record { signaling_available = true; pid_fd_available = true }, close_handle kernel fd t)
  probed_handle (failure e) t = (record { signaling_available = true; pid_fd_available = false }, t)

  unfoldable pub capabilities : PidFdPolicy → Trace W → SignalCapabilities × Trace W
  unfolding probed_handle
  capabilities automatic t =
      let (handle, t') = open_handle kernel kernel.getpid t in probed_handle handle t'
  capabilities disabled t = (record { signaling_available = true; pid_fd_available = false }, t)
