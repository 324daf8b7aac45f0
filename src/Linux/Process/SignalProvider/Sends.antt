-- ===== src/Linux/Process/SignalProvider/Sends.antt =====
-- The system calls of a signal, LinuxSignalProvider.cpp and PidFd.cpp.
use lx.Base.{
  [], ◌∷◌, some, none, inl, inr, true, refl, ℤ, List, ◌≡◌, Option, Bool-cases, ℕ, ◌++◌, ap, ◌⊎◌,
  ◌∙◌, false, Bool,
}
use lx.Domain.{
  success, failure, ProcessSignal, SignalMechanism, Error, Result, SignalDelivery, code_eq, pid_fd,
  unsupported, Void,
}
use lx.Linux.Process.SignalProvider.{
  PidFdPolicy, automatic, disabled, send, send_with_kill, with_handle, kill_result, after_handle,
}
use lx.Linux.Process.Kernel.{
  opened, closed, sent_to_handle, sent_to_pid, Kernel, Trace, Event, happened, goes_on,
}
use lx.Linux.Process.PidFd.{
  send_to_handle, not_built, open_handle, opened_handle, close_handle, open_if, send_if,
}
use lx.Linux.Errno.{Errno}

-- A success is reported for the process and the signal that were asked for, by the means named.
abbrev pub Reports : ℤ → ProcessSignal → SignalMechanism → Result SignalDelivery → Type 0
Reports pid signal mechanism r =
    (d : SignalDelivery)
    → r ≡ success d
    → d ≡ record { pid = pid; signal = signal; mechanism = mechanism }

-- The events of one signal, the latest first, and its result.
pub data IsSend (pid : ℤ) (signal : ProcessSignal)
    : PidFdPolicy → List Event → Result SignalDelivery → Type 0 where
  by_kill :
      {policy : PidFdPolicy} (r : Result SignalDelivery)
      → Reports pid signal SignalMechanism.kill r
      → IsSend pid signal policy (sent_to_pid pid signal ∷ []) r
  by_handle :
      (fd : ℕ) (r : Result SignalDelivery)
      → Reports pid signal pid_fd r
      → IsSend pid signal automatic (closed fd ∷ sent_to_handle fd signal ∷ opened fd ∷ []) r
  unsupported_handle :
      (fd : ℕ) (r : Result SignalDelivery)
      → Reports pid signal SignalMechanism.kill r
      → IsSend pid signal automatic
          (sent_to_pid pid signal ∷ closed fd ∷ sent_to_handle fd signal ∷ opened fd ∷ [])
          r
  unbuilt_handle :
      (fd : ℕ) (r : Result SignalDelivery)
      → Reports pid signal SignalMechanism.kill r
      → IsSend pid signal automatic (sent_to_pid pid signal ∷ closed fd ∷ opened fd ∷ []) r
  no_handle : (e : Error) → IsSend pid signal automatic [] (failure e)

-- the events of a run, its result, and what they are
abbrev pub Sends :
    {W : Type 0}
    → ℤ
    → ProcessSignal
    → PidFdPolicy
    → Trace W
    → Result SignalDelivery × Trace W
    → Type 0
Sends pid signal policy t (r, t') =
    (new : List Event) × (t'.events ≡ new ++ t.events) × IsSend pid signal policy new r

module _ {W : Type 0} (kernel : Kernel W) (pid : ℤ) (signal : ProcessSignal) where
  kill-Reports :
      (o : Option Errno) (t : Trace W)
      → Reports pid signal SignalMechanism.kill (kill_result kernel pid signal o t).0
        × ((kill_result kernel pid signal o t).1 ≡ t)
  unfolding kill_result
  kill-Reports none t = (λ d h. cc, refl)
  kill-Reports (some e) t = (λ d h. absurd cc, refl)

  send_with_kill-lem :
      (t : Trace W)
      → Reports pid signal SignalMechanism.kill (send_with_kill kernel pid signal t).0
        × ((send_with_kill kernel pid signal t).1.events ≡ sent_to_pid pid signal ∷ t.events)
  unfolding send_with_kill
  send_with_kill-lem t =
      let (o, w) = kernel.kill pid (some signal) t.world in
      let (r, same) = kill-Reports o (happened (sent_to_pid pid signal) t w) in
      (r, ap (λ (x : Trace W). x.events) same)

  with_handle-failure :
      (e : Error) (t : Trace W)
      → Sends pid signal automatic t (with_handle kernel pid signal (failure e) t)
  unfolding with_handle
  with_handle-failure e t = elim (Bool-cases (code_eq e.code unsupported)) [
    | inl u ↦
        let (r, ev) = send_with_kill-lem t in rw u (sent_to_pid pid signal ∷ [], ev, by_kill _ r)
    | inr o ↦ rw o ([], refl, no_handle e)
  ]

  after_handle-sent :
      (fd : ℕ) (r : Result Void) (t s : Trace W)
      → t.events ≡ sent_to_handle fd signal ∷ opened fd ∷ s.events
      → Sends pid signal automatic s (after_handle kernel pid signal fd r t)
  unfolding after_handle close_handle
  after_handle-sent fd (success v) t s h = (
    closed fd ∷ sent_to_handle fd signal ∷ opened fd ∷ [],
    ap (λ l. closed fd ∷ l) h,
    by_handle fd _ (λ d e. cc),
  )
  after_handle-sent fd (failure e) t s h = elim (Bool-cases (code_eq e.code unsupported)) [
    | inl u ↦
        let (r, ev) = send_with_kill-lem (close_handle kernel fd t) in
        rw u (
          sent_to_pid pid signal ∷ closed fd ∷ sent_to_handle fd signal ∷ opened fd ∷ [],
          ev ∙ ap (λ l. sent_to_pid pid signal ∷ closed fd ∷ l) h,
          unsupported_handle fd _ r,
        )
    | inr o ↦ rw o (
      closed fd ∷ sent_to_handle fd signal ∷ opened fd ∷ [],
      ap (λ l. closed fd ∷ l) h,
      by_handle fd _ (λ d q. absurd cc),
    )
  ]

  after_handle-unbuilt :
      (fd : ℕ) (e : Error) (t s : Trace W)
      → code_eq e.code unsupported ≡ true
      → t.events ≡ opened fd ∷ s.events
      → Sends pid signal automatic s (after_handle kernel pid signal fd (failure e) t)
  unfolding after_handle close_handle
  after_handle-unbuilt fd e t s u h =
      let (r, ev) = send_with_kill-lem (close_handle kernel fd t) in
      rw u (
        sent_to_pid pid signal ∷ closed fd ∷ opened fd ∷ [],
        ev ∙ ap (λ l. sent_to_pid pid signal ∷ closed fd ∷ l) h,
        unbuilt_handle fd _ r,
      )

  with_sent :
      (built : Bool) (fd : ℕ) (t s : Trace W)
      → t.events ≡ opened fd ∷ s.events
      → Sends pid signal automatic s (
          after_handle kernel pid signal fd
            (send_if kernel built fd signal t).0
            (send_if kernel built fd signal t).1)
  unfolding send_if not_built
  with_sent true fd t s h = after_handle-sent fd _ _ s (ap (λ l. sent_to_handle fd signal ∷ l) h)
  with_sent false fd t s h = after_handle-unbuilt fd _ t s refl h

  with_handle-success :
      (fd : ℕ) (t s : Trace W)
      → t.events ≡ opened fd ∷ s.events
      → Sends pid signal automatic s (with_handle kernel pid signal (success fd) t)
  unfolding with_handle send_to_handle
  with_handle-success fd t s h = with_sent kernel.has_pidfd_send_signal fd t s h

  with_opened :
      (o : Errno ⊎ ℕ) (w : W) (t : Trace W)
      → Sends pid signal automatic t (
          with_handle kernel pid signal
            (opened_handle kernel o w t).0
            (opened_handle kernel o w t).1)
  unfolding opened_handle
  with_opened (inl e) w t = with_handle-failure _ (goes_on t w)
  with_opened (inr fd) w t = with_handle-success fd (happened (opened fd) t w) t refl

  with_open :
      (built : Bool) (t : Trace W)
      → Sends pid signal automatic t (
          with_handle kernel pid signal
            (open_if kernel built pid t).0
            (open_if kernel built pid t).1)
  unfolding open_if
  with_open true t =
      with_opened (kernel.pidfd_open pid t.world).0 (kernel.pidfd_open pid t.world).1 t
  with_open false t = with_handle-failure _ t

  -- Each signal is one of these runs: one kill(2) alone; or, where handles are used, one handle that
  -- is opened, sent the signal and closed; or that, or a handle opened and closed, and then one
  -- kill(2); or a failure with nothing opened and nothing sent. Every handle that is opened is closed.
  -- A success names the process, the signal and the means by which it was sent last.
  pub send-IsSend :
      (policy : PidFdPolicy) (t : Trace W)
      → Sends pid signal policy t (send kernel policy pid signal t)
  unfolding send open_handle
  send-IsSend disabled t =
      let (r, ev) = send_with_kill-lem t in (sent_to_pid pid signal ∷ [], ev, by_kill _ r)
  send-IsSend automatic t = with_open kernel.has_pidfd_open t
