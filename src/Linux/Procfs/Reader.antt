-- ===== src/Linux/Procfs/Reader.antt =====
-- ProcFsReader.cpp: the files, links and directories of /proc.
use lx.Linux.Errno.{enoent, esrch, eacces, eperm, eio}
use lx.Base.{
  [], ◌∷◌, some, none, inl, inr, nat_Eq, list_Eq, int_Eq, option_Eq, ℤ, Option, Bytes, List, ◌⊎◌,
  text, ◌++◌, int_ltb,
}
use lx.Linux.Procfs.InodeResolver.{Listing, end, entry, last, parse_pid_name}
use lx.Linux.Errno.{Errno, System, eio, system_failure}
use lx.Domain.{ErrorCode, Error, Result, not_found, permission_denied, failure, io_error, success}
use lx.Base.Sort.{sort}

-- What a stream over a file gives: it cannot be opened, or reading fails, with `errno` if that is
-- set, or the contents.
pub data FileRead : Type 0 where
  unopened unread : Option Errno → FileRead
  contents : Bytes → FileRead

-- The file system, in any state of the world.
pub record FileSystem (W : Type 0) : Type 0 where
  pub open_file : ℤ → Bytes → W → FileRead × W
  pub read_symlink : ℤ → Bytes → W → (Errno ⊎ Bytes) × W
  pub open_root : W → (Errno ⊎ Listing) × W

unfoldable pub reader_code : Errno → ErrorCode
reader_code enoent = not_found
reader_code esrch = not_found
reader_code eacces = permission_denied
reader_code eperm = permission_denied
reader_code _ = io_error

unfoldable pub reader_error : System → Errno → Bytes → Error
reader_error system e operation = system_failure system (reader_code e) e (text "procfs") operation

-- `errno == 0 ? EIO : errno`
unfoldable pub errno_or_eio : Option Errno → Errno
errno_or_eio none = eio
errno_or_eio (some e) = e

unfoldable pub file_result : System → Bytes → FileRead → Result Bytes
file_result system name (unopened e) =
    failure (reader_error system (errno_or_eio e) (text "read " ++ name))
file_result system name (unread e) =
    failure (reader_error system (errno_or_eio e) (text "read " ++ name))
file_result system name (contents c) = success c

unfoldable pub link_result : System → Bytes → Errno ⊎ Bytes → Result Bytes
link_result system name (inl e) = failure (reader_error system e (text "readlink " ++ name))
link_result system name (inr target) = success target

module _ {W : Type 0} (system : System) (files : FileSystem W) where
  unfoldable pub read_file : ℤ → Bytes → W → Result Bytes × W
  read_file pid name w = let (r, w') = files.open_file pid name w in (file_result system name r, w')

  unfoldable pub read_link : ℤ → Bytes → W → Result Bytes × W
  read_link pid name w =
      let (r, w') = files.read_symlink pid name w in (link_result system name r, w')

unfoldable pub add_pid : Option ℤ → List ℤ → List ℤ
add_pid none ids = ids
add_pid (some pid) ids = pid ∷ ids

-- The entries in the order of the loop. A range-based loop advances by `++`, which throws where the
-- directory cannot be read on: `none`.
unfoldable pub entry_ids : Listing → Option (List ℤ)
entry_ids end = some []
entry_ids (entry name rest) = elim (entry_ids rest) [
  | none ↦ none
  | some ids ↦ some (add_pid (parse_pid_name name) ids)
]
entry_ids (last name e) = none

unfoldable pub sorted_ids : Option (List ℤ) → Option (Result (List ℤ))
sorted_ids none = none
sorted_ids (some ids) = some (success (sort int_ltb ids))

-- `none` where the method throws
unfoldable pub process_ids : System → Errno ⊎ Listing → Option (Result (List ℤ))
unfolding sorted_ids
process_ids system (inl e) = some (failure (reader_error system e (text "enumerate processes")))
process_ids system (inr listing) = sorted_ids (entry_ids listing)
