-- ===== src/Linux/Errno.antt =====
-- The error numbers that src/linux tells apart. What they are as numbers and the texts that
-- `std::system_category().message` gives for them belong to the system, and are given to the model.
use lx.Base.{true, false, nat_Eq, list_Eq, int_Eq, option_Eq, Bool, ℕ, ℤ, Bytes, text, ◌++◌}
use lx.Domain.{ErrorCode, Error}

pub data Errno : Type 0 where
  eperm enoent esrch eintr eio eacces einval enosys erange : Errno
  etimedout econnrefused enotconn : Errno
  other : ℕ → Errno

pub record System : Type 0 where
  pub number : Errno → ℤ
  pub message : Errno → Bytes

-- `error == std::errc::permission_denied || error == std::errc::operation_not_permitted`
unfoldable pub denied : Errno → Bool
denied eperm = true
denied eacces = true
denied _ = false

-- `error == std::errc::no_such_file_or_directory || error == std::errc::no_such_process`
unfoldable pub disappeared : Errno → Bool
disappeared enoent = true
disappeared esrch = true
disappeared _ = false

-- "Unable to " + operation + ": " + message
unfoldable pub system_failure : System → ErrorCode → Errno → Bytes → Bytes → Error
system_failure system code e component operation = record {
  code = code;
  message = text "Unable to " ++ (operation ++ (text ": " ++ system.message e));
  system_error = system.number e;
  component = component;
  operation = operation;
}
