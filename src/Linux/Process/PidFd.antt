-- ===== src/Linux/Process/PidFd.antt =====
-- PidFd.cpp: a process handle. A handle is its descriptor, which the destructor closes.
use lx.Base.{
  some, none, inl, inr, zero, suc, true, false, ℤ, ℕ, Bytes, Option, ◌⊎◌, if◌then◌else◌, ltb, text,
  Bool,
}
use lx.Linux.Errno.{
  enosys, einval, esrch, enoent, eperm, eacces, eintr, Errno, System, system_failure,
}
use lx.Linux.Process.Kernel.{
  ready, timed_out, failed, Kernel, PollReply, Trace, happened, closed, sent_to_handle, goes_on,
  opened,
}
use lx.Domain.{
  ErrorCode, Error, unsupported, ProcessSignal, Result, not_found, Void, failure, success,
  permission_denied, io_error,
}
use lx.Base.Decimal.{max_int}

unfoldable pub pidfd_code : Errno → ErrorCode
pidfd_code enosys = unsupported
pidfd_code einval = unsupported
pidfd_code esrch = not_found
pidfd_code enoent = not_found
pidfd_code eperm = permission_denied
pidfd_code eacces = permission_denied
pidfd_code _ = io_error

unfoldable pub pidfd_error : System → Errno → Bytes → Error
pidfd_error system e operation = system_failure system (pidfd_code e) e (text "pidfd") operation

unfoldable pub not_built : System → Bytes → Bytes → Error
not_built system message operation = record {
  code = unsupported;
  message = message;
  system_error = system.number enosys;
  component = text "pidfd";
  operation = operation;
}

-- `static_cast<int>` of a timeout that is bounded by INT_MAX and 0
unfoldable pub poll_timeout : ℤ → ℕ
poll_timeout (ℤ.pos ms) = if ltb max_int ms then max_int else ms
poll_timeout (ℤ.negsuc n) = 0

module _ {W : Type 0} (kernel : Kernel W) where
  open kernel use {system}

  unfoldable pub opened_handle : Errno ⊎ ℕ → W → Trace W → Result ℕ × Trace W
  opened_handle (inl e) w t =
      (failure (pidfd_error system e (text "open process handle")), goes_on t w)
  opened_handle (inr fd) w t = (success fd, happened (opened fd) t w)

  -- with `pidfd_open` known to the headers, and without
  unfoldable pub open_if : Bool → ℤ → Trace W → Result ℕ × Trace W
  unfolding opened_handle
  open_if true pid t = let (r, w) = kernel.pidfd_open pid t.world in opened_handle r w t
  open_if false pid t = (
    failure (
        not_built system (text "pidfd_open is unavailable at build time")
          (text "open process handle")),
    t,
  )

  unfoldable pub open_handle : ℤ → Trace W → Result ℕ × Trace W
  unfolding open_if
  open_handle pid t = open_if kernel.has_pidfd_open pid t

  -- the destructor
  unfoldable pub close_handle : ℕ → Trace W → Trace W
  close_handle fd t = happened (closed fd) t (kernel.close fd t.world)

  unfoldable pub sent_result : Option Errno → Result Void
  sent_result none = success tt
  sent_result (some e) = failure (pidfd_error system e (text "send process signal"))

  unfoldable pub send_if : Bool → ℕ → ProcessSignal → Trace W → Result Void × Trace W
  unfolding sent_result
  send_if true fd signal t =
      let (r, w) = kernel.pidfd_send_signal fd signal t.world in
      (sent_result r, happened (sent_to_handle fd signal) t w)
  send_if false fd signal t = (
    failure (
        not_built system (text "pidfd_send_signal is unavailable at build time")
          (text "send process signal")),
    t,
  )

  unfoldable pub send_to_handle : ℕ → ProcessSignal → Trace W → Result Void × Trace W
  unfolding send_if
  send_to_handle fd signal t = send_if kernel.has_pidfd_send_signal fd signal t

  -- the answer of poll, or the loop again after an interruption
  unfoldable pub polled :
      PollReply → Trace W → Option (Result Bool × Trace W) → Option (Result Bool × Trace W)
  polled ready t again = some (success true, t)
  polled timed_out t again = some (success false, t)
  polled (failed eintr) t again = again
  polled (failed e) t again =
      some (failure (pidfd_error system e (text "wait for process exit")), t)

  -- The loop, with fuel; `none` means that the fuel ran out.
  unfoldable pub poll_handle : ℕ → ℕ → ℕ → Trace W → Option (Result Bool × Trace W)
  unfolding polled
  poll_handle zero fd timeout t = none
  poll_handle (suc fuel) fd timeout t =
      let (reply, w) = kernel.poll fd timeout t.world in
      polled reply (goes_on t w) (poll_handle fuel fd timeout (goes_on t w))

  unfoldable pub wait_for_handle : ℕ → ℕ → ℤ → Trace W → Option (Result Bool × Trace W)
  wait_for_handle fuel fd timeout t = poll_handle fuel fd (poll_timeout timeout) t
