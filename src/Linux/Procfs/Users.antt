-- ===== src/Linux/Procfs/Users.antt =====
-- PasswdUserResolver.cpp: the name of a user, from a buffer that grows while it is too small.
pub mod Rounds
mod Tests
use lx.Base.{some, none, zero, suc, Bytes, ℕ, ℤ, Option, if◌then◌else◌, ◌*◌, ltb, text, leb}
use lx.Linux.Errno.{erange, System, Errno}
use lx.Domain.{ErrorCode, Error, Result, success, failure, operation_failed, not_found, io_error}

-- What getpwuid_r answers for a buffer of a given size: an entry, none, or a status that is not 0.
pub data PasswdReply : Type 0 where
  found : Bytes → PasswdReply
  no_entry : PasswdReply
  status : Errno → PasswdReply

-- `suggested` is what sysconf answers.
pub record Passwd (W : Type 0) : Type 0 where
  pub suggested : ℤ
  pub getpwuid_r : ℕ → ℕ → W → PasswdReply × W

unfoldable pub user_error : ErrorCode → Bytes → ℤ → Error
user_error code message number = record {
  code = code;
  message = message;
  system_error = number;
  component = text "passwd-user-resolver";
  operation = text "resolve uid";
}

abbrev pub maximum_size : ℕ
maximum_size = 1024 * 1024

-- `none` where the buffer is too small
unfoldable pub reply_result : System → PasswdReply → Option (Result Bytes)
reply_result system (found name) = some (success name)
reply_result system no_entry =
    some (failure (user_error not_found (text "No passwd entry for UID") (ℤ.pos 0)))
reply_result system (status erange) = none
reply_result system (status e) =
    some (failure (user_error io_error (text "Unable to resolve UID") (system.number e)))

unfoldable pub first_size : ℤ → ℕ
first_size (ℤ.pos n) = if ltb 0 n then n else 1024
first_size (ℤ.negsuc n) = 1024

-- the answer, or the rest of the loop where there is none
unfoldable pub answer_or :
    {W : Type 0}
    → W
    → Option (Result Bytes)
    → (W → Option (Result Bytes × W))
    → Option (Result Bytes × W)
answer_or w none more = more w
answer_or w (some r) more = some (r, w)

module _ {W : Type 0} (system : System) (passwd : Passwd W) where
  unfoldable pub too_large : Result Bytes
  too_large = failure (
      user_error operation_failed (text "Passwd entry exceeds safety limit") (system.number erange))

  -- The loop, with fuel; `none` means that the fuel ran out.
  unfoldable pub look_up : ℕ → ℕ → ℕ → W → Option (Result Bytes × W)
  unfolding too_large
  look_up zero uid size w = none
  look_up (suc fuel) uid size w =
      let (reply, w') = passwd.getpwuid_r uid size w in
      let rest = answer_or w' (reply_result system reply) (look_up fuel uid (size * 2)) in
      if leb size maximum_size then rest else some (too_large, w)

  unfoldable pub name_for_uid : ℕ → ℕ → W → Option (Result Bytes × W)
  unfolding look_up
  name_for_uid fuel uid w = look_up fuel uid (first_size passwd.suggested) w
