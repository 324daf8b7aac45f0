-- ===== src/Application/ResourceResolver/Silent.antt =====
-- Resolving changes nothing, ResourceResolver.cpp.
use lx.Application.ResourceResolver.{
  ResourceResolver, resolve_unless_service, resolve_number, resolve, resolve_plain, resolve_process,
  resolve_name, process_exists, port_exists,
}
use lx.Application.ProcessService.{list, collect, consider, consider_unit, ProcessService}
use lx.Application.ProcessService.Signals.{inspect-Moves}
use lx.Application.PortService.Quiet.{port-inspect-Moves}
use lx.Application.ServiceService.{inspect, ServiceService}
use lx.Base.{refl, some, none, [], Bytes, List, All, Option, ◌≡◌, ◌++◌, ◌∷◌, ◌∙◌, ℕ}
use lx.Exec.{Call, Machine}
use lx.Domain.{ProcessQuery, ProcessInfo, Observation, Result, ServiceInfo, success, failure}
use lx.Exec.Moves.{Moves, extension, calls_rules, Moves-bind}
use lx.Application.ServiceService.Commands.{unit_by_pid-Moves}

module _ {W : Type 0} (P : Call → Type 0) where
  consider_unit-Moves :
      (services : Option (ServiceService W)) (unit : Option Bytes) (process : ProcessInfo)
      → Moves (extension P) (consider_unit services unit process)
  unfolding consider_unit
  consider_unit-Moves none unit process = search calls_rules
  consider_unit-Moves (some services) unit process = search (calls_rules, unit_by_pid-Moves)

  consider-Moves :
      (services : Option (ServiceService W)) (query : ProcessQuery) (process : ProcessInfo)
      → Moves (extension P) (consider services query process)
  unfolding consider
  consider-Moves services query process = search (calls_rules, consider_unit-Moves)

  collect-Moves :
      (services : Option (ServiceService W)) (query : ProcessQuery) (processes : List ProcessInfo)
      (found : Observation (List ProcessInfo))
      → Moves (extension P) (collect services query processes found)
  unfolding collect
  collect-Moves services query [] found = search calls_rules
  collect-Moves services query (process ∷ rest) found =
      Moves-bind _ _ _ (consider-Moves services query process)
        (λ round. collect-Moves services query rest _)

  pub list-Moves :
      (self : ProcessService W) (query : ProcessQuery) → Moves (extension P) (list self query)
  unfolding list
  list-Moves self query = search (calls_rules, collect-Moves)

  pub service-inspect-Moves :
      (self : ServiceService W) (unit : Bytes) → Moves (extension P) (inspect self unit)
  unfolding inspect
  service-inspect-Moves self unit = search calls_rules

module _ {W : Type 0} (P : Call → Type 0) (self : ResourceResolver W) where
  process_exists-Moves : (number : ℕ) → Moves (extension P) (process_exists self number)
  unfolding process_exists
  process_exists-Moves number = search (calls_rules, inspect-Moves)

  port_exists-Moves : (number : ℕ) → Moves (extension P) (port_exists self number)
  unfolding port_exists
  port_exists-Moves number = search (calls_rules, port-inspect-Moves)

  resolve_number-Moves :
      (expression : Bytes) (number : ℕ)
      → Moves (extension P) (resolve_number self expression number)
  unfolding resolve_number
  resolve_number-Moves expression number =
      search (calls_rules, process_exists-Moves, port_exists-Moves)

  resolve_unless_service-Moves :
      (expression : Bytes) (service : Result (Observation ServiceInfo))
      → Moves (extension P) (resolve_unless_service self expression service)
  unfolding resolve_unless_service resolve_process
  resolve_unless_service-Moves expression (success service) = search calls_rules
  resolve_unless_service-Moves expression (failure e) = search (calls_rules, list-Moves)

  resolve_plain-Moves :
      (expression : Bytes) (number : Result ℕ)
      → Moves (extension P) (resolve_plain self expression number)
  unfolding resolve_plain resolve_name
  resolve_plain-Moves expression (success number) = resolve_number-Moves expression number
  resolve_plain-Moves expression (failure e) =
      search (calls_rules, service-inspect-Moves, resolve_unless_service-Moves)

  pub resolve-Moves : (expression : Bytes) → Moves (extension P) (resolve self expression)
  unfolding resolve
  resolve-Moves expression = search (calls_rules, resolve_plain-Moves)

pub no_call : (new old : List Call) → All (λ c. ⊥) new → new ++ old ≡ old
no_call [] old _ = refl
no_call (c ∷ new) old (h, _) = absurd h

-- Whatever the expression, and whatever the system answers, resolving it sends no signal and starts,
-- stops and restarts no unit.
pub resolve-calls :
    {W : Type 0} (self : ResourceResolver W) (expression : Bytes) (m : Machine W)
    → (resolve self expression m).1.calls ≡ m.calls
resolve-calls self expression m =
    let (new, same, none_of) = (resolve-Moves (λ c. ⊥) self expression).at m in
    same ∙ no_call new m.calls none_of
