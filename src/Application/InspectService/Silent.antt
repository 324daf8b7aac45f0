-- ===== src/Application/InspectService/Silent.antt =====
-- Inspecting changes nothing, InspectService.cpp.
use lx.Base.{[], ◌∷◌, some, none, Bytes, List, Option, ◌≡◌, ℤ, ℕ, ◌∙◌}
use lx.Domain.{
  port_target, process_target, service_target, LogQuery, ResourceTarget, Observation, PortInfo,
}
use lx.Application.InspectService.{
  InspectService, inspect, add_units, add_logs, port_graph, inspect_target, root_graph,
  service_graph, add_unit, unit_graph, process_graph, add_pids, ResourceGraph,
}
use lx.Application.ProcessService.Signals.{inspect-Moves}
use lx.Application.PortService.Quiet.{port-inspect-Moves}
use lx.Application.ResourceResolver.Silent.{
  resolve-Moves, list-Moves, service-inspect-Moves, no_call,
}
use lx.Exec.Moves.{Moves, extension, calls_rules, Moves-bind}
use lx.Exec.{Call, Machine}
use lx.Application.LogService.{read, LogService}

module _ {W : Type 0} (P : Call → Type 0) where
  pub read-Moves : (self : LogService W) (query : LogQuery) → Moves (extension P) (read self query)
  unfolding read
  read-Moves self query = search calls_rules

module _ {W : Type 0} (P : Call → Type 0) (self : InspectService W) where
  add_logs-Moves :
      (query : LogQuery) (g : ResourceGraph) → Moves (extension P) (add_logs self query g)
  unfolding add_logs
  add_logs-Moves query g = search (calls_rules, read-Moves)

  add_unit-Moves : (unit : Bytes) (g : ResourceGraph) → Moves (extension P) (add_unit self unit g)
  unfolding add_unit
  add_unit-Moves unit g = search (calls_rules, service-inspect-Moves)

  add_units-Moves :
      (units : List Bytes) (g : ResourceGraph) → Moves (extension P) (add_units self units g)
  unfolding add_units
  add_units-Moves [] g = search calls_rules
  add_units-Moves (unit ∷ rest) g =
      Moves-bind _ _ _ (add_unit-Moves unit g)
        (λ h. Moves-bind _ _ _ (add_logs-Moves _ h) (λ k. add_units-Moves rest k))

  add_pids-Moves : (pids : List ℤ) (g : ResourceGraph) → Moves (extension P) (add_pids self pids g)
  unfolding add_pids
  add_pids-Moves [] g = search calls_rules
  add_pids-Moves (pid ∷ rest) g = Moves-bind _ _ _ (add_logs-Moves _ g) (λ h. add_pids-Moves rest h)

  port_graph-Moves :
      (port : ℕ) (ports : Observation (List PortInfo)) (g : ResourceGraph)
      → Moves (extension P) (port_graph self port ports g)
  unfolding port_graph
  port_graph-Moves port ports g = search (calls_rules, add_units-Moves, add_pids-Moves)

  unit_graph-Moves :
      (unit : Option Bytes) (g : ResourceGraph) → Moves (extension P) (unit_graph self unit g)
  unfolding unit_graph
  unit_graph-Moves none g = search calls_rules
  unit_graph-Moves (some unit) g = add_unit-Moves unit g

  process_graph-Moves :
      (pid : ℤ) (g : ResourceGraph) → Moves (extension P) (process_graph self pid g)
  unfolding process_graph
  process_graph-Moves pid g =
      search (calls_rules, inspect-Moves, unit_graph-Moves, port-inspect-Moves, add_logs-Moves)

  service_graph-Moves :
      (unit : Bytes) (g : ResourceGraph) → Moves (extension P) (service_graph self unit g)
  unfolding service_graph
  service_graph-Moves unit g =
      search (calls_rules, service-inspect-Moves, list-Moves, port-inspect-Moves, add_logs-Moves)

  root_graph-Moves :
      (target : ResourceTarget) (g : ResourceGraph) → Moves (extension P) (root_graph self target g)
  unfolding root_graph
  root_graph-Moves (port_target port) g = search (calls_rules, port-inspect-Moves, port_graph-Moves)
  root_graph-Moves (process_target pid) g = process_graph-Moves pid g
  root_graph-Moves (service_target unit) g = service_graph-Moves unit g

  pub inspect_graph-Moves : (expression : Bytes) → Moves (extension P) (inspect self expression)
  unfolding inspect inspect_target
  inspect_graph-Moves expression = search (calls_rules, resolve-Moves, root_graph-Moves)

-- Whatever the expression, and whatever the system answers, inspecting what it names sends no signal
-- and starts, stops and restarts no unit.
pub inspect-calls :
    {W : Type 0} (self : InspectService W) (expression : Bytes) (m : Machine W)
    → (inspect self expression m).1.calls ≡ m.calls
inspect-calls self expression m =
    let (new, same, none_of) = (inspect_graph-Moves (λ c. ⊥) self expression).at m in
    same ∙ no_call new m.calls none_of
