-- ===== src/Application/PortService/Inspect.antt =====
-- `inspect`: the sockets of a query with their owners.
use lx.Application.ProcessService.{ProcessService, inspect as inspect_process}
use lx.Base.{
  some, none, nat_Eq, list_Eq, int_Eq, option_Eq, ℕ, List, Option, ℤ, keep, map, [], ◌∷◌,
  if◌then◌else◌, not, ◌++◌, ◌==◌,
}
use lx.Exec.{◌>>=◌, Action, pure, ask, attempt}
use lx.Domain.{
  SocketOwnership, SocketInfo, Result, SocketQuery, ProcessInfo, Observation, PortInfo, Warning,
  success, failure, warning_from,
}
use lx.Application.PortService.{PortService}

unfoldable pub owner_inodes : List SocketInfo → List ℕ
owner_inodes sockets = keep (λ inode. not (inode == 0)) (map (λ (s : SocketInfo). s.inode) sockets)

-- `ownership.find(inode)`
unfoldable pub owners_of : ℕ → SocketOwnership → Option (List ℤ)
owners_of inode [] = none
owners_of inode ((i, pids) ∷ rest) = if i == inode then some pids else owners_of inode rest

abbrev pub set_owners : SocketInfo → Option (List ℤ) → SocketInfo
set_owners socket none = socket
set_owners socket (some pids) = record socket { owner_pids = pids }

abbrev pub found_pids : Option (List ℤ) → List ℤ
found_pids none = []
found_pids (some pids) = pids

unfoldable pub with_owners : SocketOwnership → List SocketInfo → List SocketInfo
unfolding owners_of
with_owners ownership = map (λ (s : SocketInfo). set_owners s (owners_of s.inode ownership))

-- the values inserted into `ownerPids`, in their order
unfoldable pub inserted_pids : SocketOwnership → List SocketInfo → List ℤ
unfolding owners_of
inserted_pids ownership [] = []
inserted_pids ownership (s ∷ rest) =
    found_pids (owners_of s.inode ownership) ++ inserted_pids ownership rest

-- the map `processes`, and the warnings
pub record Found : Type 0 where
  pub processes : List (ℤ × ProcessInfo)
  pub warnings : List Warning

unfoldable pub add_found : ℤ → Result (Observation ProcessInfo) → Found → Found
add_found pid (success process) found = record {
  processes = found.processes ++ (pid, process.value) ∷ [];
  warnings = found.warnings ++ process.warnings;
}
add_found pid (failure e) found = record found { warnings = found.warnings ++ warning_from e ∷ [] }

unfoldable pub find_processes : {W : Type 0} → ProcessService W → List ℤ → Found → Action W Found
unfolding add_found
find_processes service [] found = pure found
find_processes service (pid ∷ rest) found = do
  process ← attempt (inspect_process service pid)
  find_processes service rest (add_found pid process found)

-- `processes.find(pid)`
unfoldable pub process_of : ℤ → List (ℤ × ProcessInfo) → Option ProcessInfo
process_of pid [] = none
process_of pid ((p, process) ∷ rest) = if p == pid then some process else process_of pid rest

unfoldable pub owners_from : List (ℤ × ProcessInfo) → List ℤ → List ProcessInfo
unfolding process_of
owners_from processes [] = []
owners_from processes (pid ∷ rest) = elim (process_of pid processes) [
  | none ↦ owners_from processes rest
  | some process ↦ process ∷ owners_from processes rest
]

unfoldable pub port_of : List (ℤ × ProcessInfo) → SocketInfo → PortInfo
unfolding owners_from
port_of processes socket = record {
  socket = socket;
  owners = owners_from processes socket.owner_pids;
}

module _ {W : Type 0} (self : PortService W) where
  open self use {socket_provider, owner_resolver, process_service, pid_order}

  unfoldable pub inspect : SocketQuery → Action W (Observation (List PortInfo))
  inspect query = do
    sockets ← ask (socket_provider.query query)
    ownership ← ask (owner_resolver.resolve (owner_inodes sockets.value))
    found ←
        find_processes process_service (pid_order (inserted_pids ownership.value sockets.value))
          (record { processes = []; warnings = sockets.warnings ++ ownership.warnings })
    pure (record {
      value = map (port_of found.processes) (with_owners ownership.value sockets.value);
      warnings = found.warnings;
    })
