-- ===== src/Application/InspectService/Roots.antt =====
-- How the ports of a graph are related to its root, InspectService.cpp.
use lx.Base.{
  [], ◌∷◌, some, none, true, false, refl, Bool, ◌≡◌, ◌∙◌, ◌≢◌, if◌then◌else◌, Bytes, Option, List,
  ℤ, In, nat_Eq, list_Eq, int_Eq, option_Eq, Bool-cases, inl, any_of, In-append, inr, ◌==◌,
  int_eq_iff, sym,
}
use mathlib.Core.Path.{subst}
use lx.Domain.{
  success, failure, port_target, process_target, service_target, ResourceTarget, ServiceInfo,
  LogQuery, PortInfo, Result, ProcessInfo, Observation, JournalEntry,
}
use lx.Application.InspectService.{
  ResourceGraph, put_service, add_service, put_logs, InspectService, add_units, add_logs, add_unit,
  add_pids, append_warnings, unit_graph, owners_of_all, add_processes, add_process,
}
use lx.Application.FindService.Matches.{IsPidOf, any_of_iff}
use lx.Exec.Returns.{Returns, Returns-after, Returns-pure, Returns-bind, Returns-weaken}

-- What the later steps keep.
pub record IsKept (g g' : ResourceGraph) : Type 0 where
  pub root : g'.root ≡ g.root
  pub ports : g'.ports ≡ g.ports
  pub processes : g'.processes ≡ g.processes

pub IsKept-refl : (g : ResourceGraph) → IsKept g g
IsKept-refl g = record { root = refl; ports = refl; processes = refl }

pub IsKept-trans : (g h k : ResourceGraph) → IsKept g h → IsKept h k → IsKept g k
IsKept-trans g h k a b = record {
  root = b.root ∙ a.root;
  ports = b.ports ∙ a.ports;
  processes = b.processes ∙ a.processes;
}

pub put_logs-IsKept :
    (logs : Result (Observation (List JournalEntry))) (g : ResourceGraph)
    → IsKept g (put_logs logs g)
unfolding put_logs append_warnings
put_logs-IsKept (success logs) g = record { root = refl; ports = refl; processes = refl }
put_logs-IsKept (failure e) g = record { root = refl; ports = refl; processes = refl }

pub if-IsKept :
    (b : Bool) (g x y : ResourceGraph) → IsKept g x → IsKept g y → IsKept g (if b then x else y)
if-IsKept true g x y h k = h
if-IsKept false g x y h k = k

pub add_service-IsKept : (s : ServiceInfo) (g : ResourceGraph) → IsKept g (add_service s g)
unfolding add_service
add_service-IsKept s g =
    if-IsKept _ g _ _ (IsKept-refl g) (record { root = refl; ports = refl; processes = refl })

pub put_service-IsKept :
    (service : Result (Observation ServiceInfo)) (g : ResourceGraph)
    → IsKept g (put_service service g)
unfolding put_service append_warnings
put_service-IsKept (success s) g =
    IsKept-trans _ _ _ (record { root = refl; ports = refl; processes = refl })
      (add_service-IsKept s.value _)
put_service-IsKept (failure e) g = record { root = refl; ports = refl; processes = refl }

module _ {W : Type 0} (self : InspectService W) where
  pub add_logs-IsKept :
      (query : LogQuery) (g : ResourceGraph) → Returns (IsKept g) (add_logs self query g)
  unfolding add_logs
  add_logs-IsKept query g = Returns-after _ _ _ (λ logs. Returns-pure _ _ (put_logs-IsKept logs g))

  pub add_unit-IsKept :
      (unit : Bytes) (g : ResourceGraph) → Returns (IsKept g) (add_unit self unit g)
  unfolding add_unit
  add_unit-IsKept unit g =
      Returns-after _ _ _ (λ service. Returns-pure _ _ (put_service-IsKept service g))

  pub add_units-IsKept :
      (units : List Bytes) (g : ResourceGraph) → Returns (IsKept g) (add_units self units g)
  unfolding add_units
  add_units-IsKept [] g = Returns-pure _ _ (IsKept-refl g)
  add_units-IsKept (unit ∷ rest) g = Returns-bind _ _ _ _ (add_unit-IsKept unit g) (λ h a.
      Returns-bind _ _ _ _ (add_logs-IsKept _ h) (λ k b.
        Returns-weaken _ _ _ (add_units-IsKept rest k)
          (λ l c. IsKept-trans _ _ _ a (IsKept-trans _ _ _ b c))))

  pub add_pids-IsKept :
      (pids : List ℤ) (g : ResourceGraph) → Returns (IsKept g) (add_pids self pids g)
  unfolding add_pids
  add_pids-IsKept [] g = Returns-pure _ _ (IsKept-refl g)
  add_pids-IsKept (pid ∷ rest) g =
      Returns-bind _ _ _ _ (add_logs-IsKept _ g)
        (λ h a. Returns-weaken _ _ _ (add_pids-IsKept rest h) (λ l c. IsKept-trans _ _ _ a c))

  pub unit_graph-IsKept :
      (unit : Option Bytes) (g : ResourceGraph) → Returns (IsKept g) (unit_graph self unit g)
  unfolding unit_graph
  unit_graph-IsKept none g = Returns-pure _ _ (IsKept-refl g)
  unit_graph-IsKept (some unit) g = add_unit-IsKept unit g

-- Of a port: it has sockets, and the processes that own one are there. Of a process: there is one
-- process, and each port is owned by the PID. Of a service: one of the processes owns each port.
abbrev pub IsRooted : ResourceTarget → ResourceGraph → Type 0
IsRooted (port_target port) g =
    (g.ports ≢ [])
    × ((x : PortInfo) (owner : ProcessInfo)
        → In x g.ports
        → In owner x.owners
        → IsPidOf g.processes owner.pid)
IsRooted (process_target pid) g =
    ((p : ProcessInfo) × (g.processes ≡ p ∷ []))
    × ((x : PortInfo) → In x g.ports → In pid x.socket.owner_pids)
IsRooted (service_target unit) g =
    (x : PortInfo) → In x g.ports → (pid : ℤ) × In pid x.socket.owner_pids × IsPidOf g.processes pid

pub kept-IsRooted :
    (target : ResourceTarget) (g h : ResourceGraph)
    → IsKept g h
    → IsRooted target g
    → IsRooted target h
kept-IsRooted (port_target port) g h k r = rw (k.ports, k.processes) r
kept-IsRooted (process_target pid) g h k r = rw (k.ports, k.processes) r
kept-IsRooted (service_target unit) g h k r = rw (k.ports, k.processes) r

-- the owners of the ports, each once
pub add_process-Has :
    (p : ProcessInfo) (g : ResourceGraph)
    → ((g.ports ≡ (add_process p g).ports)
        × ((pid : ℤ) → IsPidOf g.processes pid → IsPidOf (add_process p g).processes pid)
        × IsPidOf (add_process p g).processes p.pid)
unfolding add_process
add_process-Has p g =
    elim (Bool-cases (any_of (λ (value : ProcessInfo). value.pid == p.pid) g.processes)) [
      | inl t ↦
          let (q, m, e) =
            (any_of_iff {P = λ (v : ProcessInfo). v.pid ≡ p.pid} _ g.processes
                (λ v. int_eq_iff v.pid p.pid)).0
              t in
          rw t (refl, (λ pid h. h), (q, m, sym e))
      | inr f ↦ rw f (
        refl,
        (λ pid (q, m, e). (q, (In-append q g.processes (p ∷ [])).1 (inl m), e)),
        (p, (In-append p g.processes (p ∷ [])).1 (inr (inl refl)), refl),
      )
    ]

pub add_processes-Has :
    (ps : List ProcessInfo) (g : ResourceGraph)
    → ((g.ports ≡ (add_processes ps g).ports)
        × ((pid : ℤ) → IsPidOf g.processes pid → IsPidOf (add_processes ps g).processes pid)
        × ((p : ProcessInfo) → In p ps → IsPidOf (add_processes ps g).processes p.pid))
unfolding add_processes
add_processes-Has [] g = (refl, (λ pid h. h), λ p m. absurd m)
add_processes-Has (q ∷ rest) g =
    let (same, keeps, has) = add_process-Has q g in
    let (same', keeps', has') = add_processes-Has rest (add_process q g) in
    (
      same ∙ same',
      (λ pid h. keeps' pid (keeps pid h)),
      λ p m. elim m [ inl e ↦ keeps' p.pid (rw e has) | inr k ↦ has' p k ],
    )

pub owners_of_all-In :
    (x : PortInfo) (owner : ProcessInfo) (ports : List PortInfo)
    → In x ports
    → In owner x.owners
    → In owner (owners_of_all ports)
owners_of_all-In x owner [] m k = absurd m
owners_of_all-In x owner (y ∷ rest) (inl e) k =
    (In-append owner y.owners (owners_of_all rest)).1
      (inl (subst (λ (z : PortInfo). In owner z.owners) e k))
owners_of_all-In x owner (y ∷ rest) (inr m) k =
    (In-append owner y.owners (owners_of_all rest)).1 (inr (owners_of_all-In x owner rest m k))
