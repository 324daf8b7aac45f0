-- ===== src/Application/InspectService/Logs.antt =====
-- The graph that `inspect` of InspectService.cpp returns.
use lx.Base.{
  [], ◌∷◌, zero, suc, refl, ℕ, length, List, ◌≤◌, drop, ◌-◌, ◌≡◌, arith, int_ltb, int_ltb-IsTotal,
}
use lx.Application.InspectService.{
  ResourceGraph, InspectService, finalize_logs, inspect_target, earlier, log_limit,
}
use lx.Application.InspectService.Rooted.{root_graph-IsRooted}
use lx.Application.InspectService.Roots.{IsRooted, kept-IsRooted}
use lx.Domain.{ResourceTarget, JournalEntry}
use lx.Exec.Returns.{Returns, Returns-bind, Returns-pure}
use lx.Base.Sort.{sort, IsSorted, weak_sort-IsSorted, member-IsWeak}

pub record IsGraph (target : ResourceTarget) (g : ResourceGraph) : Type 0 where
  pub rooted : IsRooted target g
  pub limited : length g.recent_logs ≤ log_limit
  pub in_order : IsSorted earlier g.recent_logs

drop-IsSorted :
    (n : ℕ) (xs : List JournalEntry) → IsSorted earlier xs → IsSorted earlier (drop n xs)
drop-IsSorted zero xs h = h
drop-IsSorted (suc n) [] h = h
drop-IsSorted (suc n) (x ∷ xs) h = drop-IsSorted n xs h.1

drop-length : (n : ℕ) (xs : List JournalEntry) → length (drop n xs) ≡ length xs - n
drop-length zero xs = omega arith
drop-length (suc n) [] = omega arith
drop-length (suc n) (x ∷ xs) = let r = drop-length n xs in omega arith

finalize_logs-IsGraph :
    (target : ResourceTarget) (g : ResourceGraph)
    → IsRooted target g
    → IsGraph target (finalize_logs g)
unfolding finalize_logs
finalize_logs-IsGraph target g h =
    let logs = sort earlier g.recent_logs in
    record {
      rooted =
          kept-IsRooted target g (finalize_logs g)
            (record { root = refl; ports = refl; processes = refl }) h;
      limited = let l = drop-length (length logs - log_limit) logs in omega arith;
      in_order = drop-IsSorted (length logs - log_limit) logs (
          weak_sort-IsSorted earlier
            (member-IsWeak int_ltb (λ (e : JournalEntry). e.timestamp) int_ltb-IsTotal)
            g.recent_logs);
    }

-- Whatever the system answers: the graph of a port that `inspect` returns has a socket, and the
-- processes that own its sockets; the graph of a process has one process, and only ports that its PID
-- owns; the graph of a service has only ports that one of its processes owns. Each has at most 20
-- journal entries, no entry behind a later one.
pub inspect_target-IsGraph :
    {W : Type 0} (self : InspectService W) (target : ResourceTarget)
    → Returns (IsGraph target) (inspect_target self target)
unfolding inspect_target
inspect_target-IsGraph self target =
    Returns-bind _ _ _ _ (root_graph-IsRooted self target)
      (λ g h. Returns-pure _ _ (finalize_logs-IsGraph target g h))
