-- ===== src/Linux/Process/Kernel.antt =====
-- The system calls of src/linux/process, and a record of those that open or close a handle or send a
-- signal.
use lx.Base.{◌∷◌, List, ℕ, Bool, ℤ, ◌⊎◌, Option}
use lx.Linux.Errno.{Errno, System}
use lx.Domain.{ProcessSignal}
use lx.Contracts.{Clock}

pub data PollReply : Type 0 where
  ready timed_out : PollReply
  failed : Errno → PollReply

-- `pidfd_open` and `pidfd_send_signal` may be unknown to the headers that LX is built with. `kill`
-- takes no signal for 0; `waitid` says whether the call succeeds and names the process.
pub record Kernel (W : Type 0) : Type 0 where
  pub system : System
  pub has_pidfd_open : Bool
  pub has_pidfd_send_signal : Bool
  pub pidfd_open : ℤ → W → (Errno ⊎ ℕ) × W
  pub pidfd_send_signal : ℕ → ProcessSignal → W → Option Errno × W
  pub poll : ℕ → ℕ → W → PollReply × W
  pub close : ℕ → W → W
  pub kill : ℤ → Option ProcessSignal → W → Option Errno × W
  pub waitid : ℤ → W → Bool × W
  pub getpid : ℤ
  pub clock : Clock W

pub data Event : Type 0 where
  opened closed : ℕ → Event
  sent_to_handle : ℕ → ProcessSignal → Event
  sent_to_pid : ℤ → ProcessSignal → Event

-- `events` holds the latest event first.
pub record Trace (W : Type 0) : Type 0 where
  pub world : W
  pub events : List Event

abbrev pub goes_on : {W : Type 0} → Trace W → W → Trace W
goes_on t w = record t { world = w }

abbrev pub happened : {W : Type 0} → Event → Trace W → W → Trace W
happened e t w = record { world = w; events = e ∷ t.events }
