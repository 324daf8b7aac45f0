-- ===== src/Application/InspectService/Rooted.antt =====
-- Each kind of root has its ports, InspectService.cpp.
use lx.Base.{
  [], ◌∷◌, true, inl, inr, refl, nat_Eq, list_Eq, int_Eq, option_Eq, ℤ, Bytes, ℕ, ◌≡◌, Bool, List,
  In, is_nil, ◌++◌, contains, keep, In-of-map, contains-In, In-keep, is_nil-false, Bool-cases, ◌↔◌,
  ◌∙◌, any_of, sym, ◌==◌, ap,
}
use mathlib.Core.Path.{subst}
use lx.Domain.{
  success, failure, port_target, process_target, service_target, Result, PortInfo, Observation,
  ProcessInfo, ResourceTarget,
}
use lx.Application.InspectService.{
  ResourceGraph, InspectService, put_ports, put_processes, service_graph, process_graph, port_graph,
  pids_of, append_warnings, owners_of_all, add_processes, owned_by_any, add_process, root_graph,
  owned_by, add_service, new_graph,
}
use lx.Application.FindService.Matches.{IsPidOf, any_of_iff}
use lx.Application.InspectService.Roots.{
  IsRooted, add_logs-IsKept, unit_graph-IsKept, kept-IsRooted, add_processes-Has, owners_of_all-In,
  add_units-IsKept, add_pids-IsKept, IsKept-trans, add_service-IsKept, add_process-Has,
}
use lx.Exec.Returns.{Returns, Returns-after, Returns-if, Returns-bind, Returns-weaken, Returns-fail}

put_ports-In :
    (related : PortInfo → Bool) (ports : Result (Observation (List PortInfo))) (g : ResourceGraph)
    → g.ports ≡ []
    → (x : PortInfo) → In x (put_ports related ports g).ports
    → related x ≡ true
unfolding put_ports append_warnings
put_ports-In related (failure e) g none_yet x m = absurd (subst (In x) none_yet m)
put_ports-In related (success ports) g none_yet x m =
    let k = subst (λ xs. In x (xs ++ keep related ports.value)) none_yet m in
    ((In-keep related x ports.value).0 k).0

put_ports-root :
    (related : PortInfo → Bool) (ports : Result (Observation (List PortInfo))) (g : ResourceGraph)
    → ((put_ports related ports g).processes ≡ g.processes)
unfolding put_ports append_warnings
put_ports-root related (failure e) g = refl
put_ports-root related (success ports) g = refl

put_processes-ports :
    (processes : Result (Observation (List ProcessInfo))) (g : ResourceGraph)
    → (put_processes processes g).ports ≡ g.ports
unfolding put_processes append_warnings
put_processes-ports (failure e) g = refl
put_processes-ports (success o) g = refl

add_process-one :
    (p : ProcessInfo) (g : ResourceGraph) → g.processes ≡ [] → (add_process p g).processes ≡ p ∷ []
unfolding add_process
add_process-one p g e =
    elim (Bool-cases (any_of (λ (value : ProcessInfo). value.pid == p.pid) g.processes)) [
      | inl t ↦
          let no : any_of (λ (value : ProcessInfo). value.pid == p.pid) [] ≡ true =
            subst (λ xs. any_of (λ (value : ProcessInfo). value.pid == p.pid) xs ≡ true) e t in
          absurd cc
      | inr f ↦ rw f (ap (λ xs. xs ++ p ∷ []) e)
    ]

owned_iff :
    (pids : List ℤ) (x : PortInfo)
    → (owned_by_any pids x ≡ true)
      ↔ ((pid : ℤ) × In pid x.socket.owner_pids × (contains pid pids ≡ true))
unfolding owned_by_any
owned_iff pids x = any_of_iff _ x.socket.owner_pids (λ pid. (λ h. h, λ h. h))

pids_of-Has :
    (processes : Result (Observation (List ProcessInfo))) (g : ResourceGraph) (pid : ℤ)
    → contains pid (pids_of processes) ≡ true
    → IsPidOf (put_processes processes g).processes pid
unfolding pids_of put_processes append_warnings
pids_of-Has (failure e) g pid h = absurd cc
pids_of-Has (success o) g pid h =
    In-of-map (λ (p : ProcessInfo). p.pid) pid o.value ((contains-In pid _).0 h)

module _ {W : Type 0} (self : InspectService W) where
  port_graph-IsRooted :
      (port : ℕ) (ports : Observation (List PortInfo)) (g : ResourceGraph)
      → Returns (IsRooted (port_target port)) (port_graph self port ports g)
  unfolding port_graph append_warnings
  port_graph-IsRooted port ports g =
      Returns-if _ (is_nil ports.value) _ _ (λ t. Returns-fail _ _)
        (λ f.
          let (same, kept, has) =
            add_processes-Has (owners_of_all ports.value)
              (record (append_warnings ports.warnings g) { ports = ports.value }) in
          let rooted : IsRooted (port_target port) (
              add_processes (owners_of_all ports.value)
                (record (append_warnings ports.warnings g) { ports = ports.value })) =
            rw (← same) (
              is_nil-false ports.value f,
              λ x owner m k. has owner (owners_of_all-In x owner ports.value m k),
            ) in
          Returns-bind _ _ _ _ (add_units-IsKept self _ _) (λ h a.
            Returns-weaken _ _ _ (add_pids-IsKept self _ h)
              (λ l c. kept-IsRooted (port_target port) _ l (IsKept-trans _ _ _ a c) rooted)))

  process_graph-IsRooted :
      (pid : ℤ) (g : ResourceGraph)
      → g.ports ≡ []
      → g.processes ≡ []
      → Returns (IsRooted (process_target pid)) (process_graph self pid g)
  unfolding process_graph append_warnings owned_by
  process_graph-IsRooted pid g no_ports no_processes = Returns-after _ _ _ (λ process.
      Returns-bind _ _ _ _ (unit_graph-IsKept self _ _) (λ h a. Returns-after _ _ _ (λ ports.
        Returns-weaken _ _ _ (add_logs-IsKept self _ _) (λ l c.
          kept-IsRooted (process_target pid) _ l c (
            (
              process.value,
              put_ports-root (owned_by pid) ports h
                  ∙ a.processes
                  ∙ add_process-one process.value _ no_processes,
            ),
            λ x m.
                let (same, keeps, has) =
                  add_process-Has process.value (append_warnings process.warnings g) in
                (contains-In pid x.socket.owner_pids).0
                  (put_ports-In (owned_by pid) ports h (a.ports ∙ sym same ∙ no_ports) x m),
          )))))

  service_graph-IsRooted :
      (unit : Bytes) (g : ResourceGraph)
      → g.ports ≡ []
      → Returns (IsRooted (service_target unit)) (service_graph self unit g)
  unfolding service_graph append_warnings
  service_graph-IsRooted unit g no_ports = Returns-after _ _ _ (λ service.
      Returns-after _ _ _ (λ processes. Returns-after _ _ _ (λ ports.
        Returns-weaken _ _ _ (add_logs-IsKept self _ _) (λ l c.
          kept-IsRooted (service_target unit) _ l c (λ x m.
            let graph = add_service service.value (append_warnings service.warnings g) in
            let kept = add_service-IsKept service.value (append_warnings service.warnings g) in
            let q =
              put_ports-In (owned_by_any (pids_of processes)) ports (put_processes processes graph)
                (put_processes-ports processes graph ∙ kept.ports ∙ no_ports) x m in
            let (pid, k, c) = (owned_iff (pids_of processes) x).0 q in
            (
              pid,
              k,
              rw
                  (put_ports-root (owned_by_any (pids_of processes)) ports
                    (put_processes processes graph))
                  (pids_of-Has processes graph pid c),
            ))))))

  pub root_graph-IsRooted :
      (target : ResourceTarget)
      → Returns (IsRooted target) (root_graph self target (new_graph target))
  unfolding root_graph
  root_graph-IsRooted (port_target port) =
      Returns-after _ _ _ (λ ports. port_graph-IsRooted port ports _)
  root_graph-IsRooted (process_target pid) = process_graph-IsRooted pid _ refl refl
  root_graph-IsRooted (service_target unit) = service_graph-IsRooted unit _ refl
