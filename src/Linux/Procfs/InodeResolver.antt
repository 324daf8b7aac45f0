-- ===== src/Linux/Procfs/InodeResolver.antt =====
-- SocketInodeResolver.cpp: which processes hold the sockets of given inodes, from the links in the
-- /proc/PID/fd directories.
pub mod Effects
pub mod Visits
pub mod Owners
mod Tests
use lx.Base.{
  some, none, nat_Eq, list_Eq, int_Eq, option_Eq, [], ℤ, ℕ, Option, List, Bytes, ◌⊎◌, ◌∷◌,
  if◌then◌else◌, keep, not, text, is_nil, ◌==◌, inl, ◌||◌, ◌+◌, ◌++◌, inr, int_ltb, ltb, contains,
}
use lx.Domain.{
  SocketOwnership, ErrorCode, Observation, Warning, Result, permission_denied, failure,
  warning_from, success, not_found, make_error, io_error,
}
use lx.Linux.Errno.{System, Errno, denied, system_failure, disappeared}
use lx.Base.Decimal.{parse_unsigned, max_u64, to_string, max_pid}
use lx.Base.Sort.{unique, sort}
use lx.Linux.Procfs.SocketFdTarget.{parse_socket_fd_target}

-- What a directory iterator goes through: entries by name, up to the end or to an entry behind which
-- `increment` fails.
pub data Listing : Type 0 where
  end : Listing
  entry : Bytes → Listing → Listing
  last : Bytes → Errno → Listing

-- /proc as the resolver sees it: it opens each directory and reads each link once.
pub record Tree : Type 0 where
  pub root : Errno ⊎ Listing
  pub descriptors : Bytes → Errno ⊎ Listing
  pub link : Bytes → Bytes → Errno ⊎ Bytes

unfoldable pub errno_code : Errno → ErrorCode
errno_code e = if denied e then permission_denied else if disappeared e then not_found else io_error

unfoldable pub pid_in_range : Option ℕ → Option ℤ
pid_in_range none = none
pid_in_range (some value) = if value == 0 || ltb max_pid value then none else some (ℤ.pos value)

-- `parsePid`, for the names of the directories of processes
unfoldable pub parse_pid_name : Bytes → Option ℤ
unfolding pid_in_range
parse_pid_name name = pid_in_range (parse_unsigned max_u64 name)

-- the maps and counters of `resolve`
pub record Scan : Type 0 where
  pub ownership : SocketOwnership
  pub denied_count : ℕ
  pub unreadable_count : ℕ

unfoldable pub count_error : Errno → Scan → Scan
count_error e scan =
    if denied e
    then record scan { denied_count = scan.denied_count + 1 }
    else if disappeared e
    then scan
    else record scan { unreadable_count = scan.unreadable_count + 1 }

-- `ownership[inode].push_back(pid)`
unfoldable pub add_owner : ℕ → ℤ → SocketOwnership → SocketOwnership
add_owner inode pid [] = (inode, pid ∷ []) ∷ []
add_owner inode pid ((i, pids) ∷ rest) =
    let more = add_owner inode pid rest in
    if i == inode then (i, pids ++ pid ∷ []) ∷ rest else (i, pids) ∷ more

-- `parsed && parsed.value() && targets.find(*parsed.value()) != targets.end()`
unfoldable pub wanted : List ℕ → Result (Option ℕ) → Option ℕ
wanted targets (failure e) = none
wanted targets (success none) = none
wanted targets (success (some inode)) = if contains inode targets then some inode else none

unfoldable pub own : ℤ → Option ℕ → Scan → Scan
own pid none scan = scan
own pid (some inode) scan = record scan { ownership = add_owner inode pid scan.ownership }

unfoldable pub visit_link : List ℕ → ℤ → Errno ⊎ Bytes → Scan → Scan
unfolding count_error own wanted
visit_link targets pid (inl e) scan = count_error e scan
visit_link targets pid (inr target) scan =
    own pid (wanted targets (parse_socket_fd_target target)) scan

-- the loop over the descriptors of a process
unfoldable pub visit_descriptors : List ℕ → ℤ → (Bytes → Errno ⊎ Bytes) → Listing → Scan → Scan
visit_descriptors targets pid link end scan = scan
visit_descriptors targets pid link (entry name rest) scan =
    visit_descriptors targets pid link rest (visit_link targets pid (link name) scan)
visit_descriptors targets pid link (last name e) scan =
    visit_link targets pid (link name) (count_error e scan)

unfoldable pub visit_directory :
    List ℕ → ℤ → (Bytes → Errno ⊎ Bytes) → Errno ⊎ Listing → Scan → Scan
visit_directory targets pid link (inl e) scan = count_error e scan
visit_directory targets pid link (inr listing) scan =
    visit_descriptors targets pid link listing scan

unfoldable pub visit_pid : List ℕ → Tree → Bytes → Option ℤ → Scan → Scan
visit_pid targets tree name none scan = scan
visit_pid targets tree name (some pid) scan =
    visit_directory targets pid (tree.link name) (tree.descriptors name) scan

-- one entry of the root
unfoldable pub visit_process : List ℕ → Tree → Bytes → Scan → Scan
unfolding visit_pid
visit_process targets tree name scan = visit_pid targets tree name (parse_pid_name name) scan

-- the loop over the root
unfoldable pub visit_processes : List ℕ → Tree → Listing → Scan → Scan
visit_processes targets tree end scan = scan
visit_processes targets tree (entry name rest) scan =
    visit_processes targets tree rest (visit_process targets tree name scan)
visit_processes targets tree (last name e) scan =
    visit_process targets tree name (count_error e scan)

unfoldable pub sort_owners : SocketOwnership → SocketOwnership
sort_owners [] = []
sort_owners ((inode, owners) ∷ rest) = (inode, unique (sort int_ltb owners)) ∷ sort_owners rest

unfoldable pub count_warning : ErrorCode → ℕ → Bytes → List Warning
count_warning code count message =
    if count == 0
    then []
    else warning_from (
        make_error code (to_string count ++ message) (text "socket-inode-resolver")
          (text "resolve"))
      ∷ []

unfoldable pub observation_of : Scan → Observation SocketOwnership
observation_of scan = record {
  value = sort_owners scan.ownership;
  warnings =
      count_warning permission_denied scan.denied_count
        (text " procfs entries could not be inspected because of permissions")
      ++ count_warning io_error scan.unreadable_count
          (text " procfs entries could not be inspected");
}

abbrev pub nothing_scanned : Scan
nothing_scanned = record { ownership = []; denied_count = 0; unreadable_count = 0 }

unfoldable pub resolve_root :
    System → List ℕ → Tree → Errno ⊎ Listing → Result (Observation SocketOwnership)
resolve_root system targets tree (inl e) = failure (
    system_failure system (errno_code e) e (text "socket-inode-resolver")
      (text "enumerate procfs root"))
resolve_root system targets tree (inr listing) =
    success (observation_of (visit_processes targets tree listing nothing_scanned))

unfoldable pub target_inodes : List ℕ → List ℕ
target_inodes inodes = keep (λ inode. not (inode == 0)) inodes

unfoldable pub resolve : System → Tree → List ℕ → Result (Observation SocketOwnership)
unfolding resolve_root
resolve system tree inodes =
    if is_nil (target_inodes inodes)
    then success (record { value = []; warnings = [] })
    else resolve_root system (target_inodes inodes) tree tree.root
