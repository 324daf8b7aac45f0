-- ===== src/Linux/Procfs/InodeResolver/Tests.antt =====
-- The resolver at a small /proc.
use lx.Base.{
  [], ◌∷◌, inl, inr, refl, nat_Eq, list_Eq, int_Eq, option_Eq, ℤ, text, In, if◌then◌else◌, ◌==◌,
  ◌↔◌, ◌≢◌, All, ℕ, List, ◌≡◌, int_ltb, before, from, starts_with,
}
use lx.Domain.{success, Observation, SocketOwnership, permission_denied}
use lx.Linux.Errno.{System, eacces, enoent, denied, disappeared, system_failure}
use lx.Linux.Procfs.InodeResolver.{
  Tree, end, entry, last, resolve, resolve_root, count_warning, target_inodes, visit_processes,
  visit_process, visit_pid, visit_directory, visit_descriptors, visit_link, add_owner, count_error,
  errno_code, observation_of, own, parse_pid_name, pid_in_range, sort_owners, wanted,
}
use lx.Linux.Procfs.InodeResolver.Effects.{owners_in}
use lx.Linux.Procfs.InodeResolver.Owners.{IsOwner, resolve-IsOwner}
use lx.Base.Sort.{IsAscending, insert_sorted, skip_equal, sort, unique}
use lx.Base.Decimal.{at_end, decimal, from_chars, number_of, parse_unsigned, to_string}
use lx.Linux.Procfs.SocketFdTarget.{
  inode_digits, last_is, parse_inode, parse_socket_fd_target, socket_prefix, target_error,
}
use lx.Exec.{proceed, ◌>>=◌, ◌>>◌}

abbrev system : System
system = record { number = λ e. ℤ.pos 13; message = λ e. [] }

-- process 42 holds the socket 7 twice; the descriptors of process 43 may not be read
abbrev tree : Tree
tree = record {
  root = inr (entry (text "42") (entry (text "self") (last (text "43") enoent)));
  descriptors = λ name.
      if name == text "42" then inr (entry (text "3") (entry (text "4") end)) else inl eacces;
  link = λ name descriptor. inr (text "socket:[7]");
}

abbrev asked : List ℕ
asked = 0 ∷ 7 ∷ []

abbrev owned : Observation SocketOwnership
owned = record {
  value = (7, ℤ.pos 42 ∷ []) ∷ [];
  warnings =
      count_warning permission_denied 1
        (text " procfs entries could not be inspected because of permissions");
}

tree-resolve : resolve system tree asked ≡ success owned
unfolding add_owner at_end before count_error count_warning decimal denied disappeared errno_code
    from from_chars inode_digits insert_sorted last_is number_of observation_of own parse_inode
    parse_pid_name parse_socket_fd_target parse_unsigned pid_in_range proceed resolve resolve_root
    skip_equal socket_prefix sort sort_owners starts_with system_failure target_error target_inodes
    text to_string unique visit_descriptors visit_directory visit_link visit_pid visit_process
    visit_processes wanted ◌>>=◌ ◌>>◌
tree-resolve = refl

resolve-IsOwner_example :
    (In (ℤ.pos 42) (owners_in 7 owned.value)
      ↔ ((◌≢◌ {A = ℕ} 7 0) × In 7 asked × IsOwner tree (ℤ.pos 42) 7))
    × All (λ (e : ℕ × List ℤ). IsAscending int_ltb e.1) owned.value
resolve-IsOwner_example = resolve-IsOwner system tree asked owned (ℤ.pos 42) 7 tree-resolve
