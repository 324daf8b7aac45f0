-- ===== src/Linux/Systemd/SdJournal.antt =====
-- SdJournal.cpp: a journal, which its owner closes. The library sd-journal is given to the model.
use lx.Base.{
  some, none, inl, inr, Option, Bytes, ℕ, Bool, true, false, if◌then◌else◌, text, ◌⊎◌, ◌++◌,
}
use lx.Domain.{
  Error, ErrorCode, Void, permission_denied, unavailable, interrupted, timeout, io_error,
}
use lx.Exec.{◌>>=◌, ◌>>◌, Action, observe, fail, pure, attempt, lift}
use lx.Linux.Errno.{Errno, System, denied}

-- The calls of the library on a journal, with the error number where the status is negative. `previous`
-- and `next` say whether there is such an entry; a pointer that is null is `none`.
pub record SdJournal (W : Type 0) : Type 0 where
  pub system : System
  pub open_local : W → (Errno ⊎ ℕ) × W
  pub close : ℕ → W → Void × W
  pub set_data_threshold : ℕ → ℕ → W → Option Errno × W
  pub add_match : ℕ → Bytes → W → Option Errno × W
  pub get_data : ℕ → Bytes → W → (Errno ⊎ Option Bytes) × W
  pub get_realtime_usec : ℕ → W → (Errno ⊎ ℕ) × W
  pub get_cursor : ℕ → W → (Errno ⊎ Option Bytes) × W
  pub seek_tail : ℕ → W → Option Errno × W
  pub seek_realtime_usec : ℕ → ℕ → W → Option Errno × W
  pub seek_cursor : ℕ → Bytes → W → Option Errno × W
  pub previous : ℕ → W → (Errno ⊎ Bool) × W
  pub next : ℕ → W → (Errno ⊎ Bool) × W
  pub wait : ℕ → ℕ → W → Option Errno × W

unfoldable pub journal_code : Errno → ErrorCode
journal_code Errno.eacces = permission_denied
journal_code Errno.eperm = permission_denied
journal_code Errno.enoent = unavailable
journal_code Errno.eintr = interrupted
journal_code Errno.etimedout = timeout
journal_code _ = io_error

unfoldable pub is_interrupted : Errno → Bool
is_interrupted Errno.eintr = true
is_interrupted _ = false

module _ {W : Type 0} (journal : SdJournal W) where
  open journal use {system, open_local, close}

  unfoldable pub open_error : Errno → Error
  open_error number = record {
    code = if denied number then permission_denied else unavailable;
    message = text "Unable to open the local journal: " ++ system.message number;
    system_error = system.number number;
    component = text "sd-journal";
    operation = text "open local journal";
  }

  unfoldable pub journal_error : Errno → Bytes → Error
  unfolding journal_code
  journal_error number operation = record {
    code = journal_code number;
    message = text "Journal operation failed: " ++ system.message number;
    system_error = system.number number;
    component = text "sd-journal";
    operation = operation;
  }

  -- the rest of a function that owns a journal, which its end closes
  unfoldable pub owning_journal : {A : Type 0} → (Errno ⊎ ℕ) → (ℕ → Action W A) → Action W A
  owning_journal (inl number) rest = fail (open_error number)
  owning_journal (inr handle) rest = do
    result ← attempt (rest handle)
    observe (close handle)
    lift result

  -- `SdJournal::openLocal`, and `if (!journal) return ...` in front of the rest
  unfoldable pub with_journal : {A : Type 0} → (ℕ → Action W A) → Action W A
  unfolding owning_journal
  with_journal rest = do opened ← observe open_local; owning_journal opened rest

  -- `if (status < 0) return failure(journalError(status, operation));`
  unfoldable pub unless_negative : Bytes → Option Errno → Action W Void
  unfolding journal_error
  unless_negative operation none = pure tt
  unless_negative operation (some number) = fail (journal_error number operation)

  unfoldable pub value_of : {A : Type 0} → Bytes → (Errno ⊎ A) → Action W A
  unfolding journal_error
  value_of operation (inl number) = fail (journal_error number operation)
  value_of operation (inr value) = pure value
