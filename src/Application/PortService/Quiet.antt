-- ===== src/Application/PortService/Quiet.antt =====
-- The steps of a release that send no signal and give no command.
use lx.Application.ProcessService.{ProcessService}
use lx.Application.PortService.Inspect.{inspect, find_processes, Found, add_found}
use lx.Domain.{
  PortReleasePlan, PortReleaseResult, SocketQuery, SignalDelivery, Warning, Observation, PortInfo,
  Error, Result, failure, success,
}
use lx.Exec.{Call}
use lx.Base.{List, ℤ, ℕ, ◌∷◌, []}
use lx.Application.PortService.Prepare.{prepare_release, plan_for}
use lx.Application.PortService.Release.{after_terminate, await_exits, after_force, gone_or_fail}
use lx.Application.PortService.{PortService}
use lx.Exec.Moves.{
  Moves, extension, calls_rules, Moves-pure, Moves-bind, Moves-attempt, Moves-observe,
}
use lx.Application.ProcessService.Signals.{wait_for_exit-Moves, inspect-Moves}

module _ {W : Type 0} (P : Call → Type 0) where
  find_processes-Moves :
      (service : ProcessService W) (pids : List ℤ) (found : Found)
      → Moves (extension P) (find_processes service pids found)
  unfolding find_processes
  find_processes-Moves service [] found = Moves-pure _ found
  find_processes-Moves service (pid ∷ rest) found =
      Moves-bind _ _ _ (Moves-attempt _ _ (inspect-Moves P service pid))
        (λ process. find_processes-Moves service rest (add_found pid process found))

  -- Looking at ports and preparing a release send no signal and give no command.
  pub port-inspect-Moves :
      (self : PortService W) (query : SocketQuery) → Moves (extension P) (inspect self query)
  unfolding inspect
  port-inspect-Moves self query = search (calls_rules, find_processes-Moves)

  plan_for-Moves :
      (self : PortService W) (port : ℕ) (inspected : Observation (List PortInfo))
      → Moves (extension P) (plan_for self port inspected)
  unfolding plan_for
  plan_for-Moves self port inspected = search calls_rules

  pub prepare_release-Moves :
      (self : PortService W) (port : ℕ) → Moves (extension P) (prepare_release self port)
  unfolding prepare_release
  prepare_release-Moves self port = search (calls_rules, port-inspect-Moves, plan_for-Moves)

  pub await_exits-Moves :
      (self : PortService W) (deadline : ℕ) (pids : List ℤ)
      → Moves (extension P) (await_exits self deadline pids)
  unfolding await_exits
  await_exits-Moves self deadline [] = Moves-pure _ tt
  await_exits-Moves self deadline (pid ∷ rest) = Moves-bind _ _ _ (Moves-observe P _) (λ now.
      Moves-bind _ _ _ (wait_for_exit-Moves P self.process_service pid _)
        (λ exited. await_exits-Moves self deadline rest))

  pub gone_or_fail-Moves :
      (self : PortService W) (result : PortReleaseResult) (warnings : List Warning) (e : Error)
      → Moves (extension P) (gone_or_fail self result warnings e)
  unfolding gone_or_fail
  gone_or_fail-Moves self result warnings e = search calls_rules

  pub after_terminate-Moves :
      (self : PortService W) (plan : PortReleasePlan) (warnings : List Warning)
      (deliveries : List SignalDelivery) (after : Result (Observation PortReleasePlan))
      → Moves (extension P) (after_terminate self plan warnings deliveries after)
  unfolding after_terminate
  after_terminate-Moves self plan warnings deliveries (failure e) = search (calls_rules)
  after_terminate-Moves self plan warnings deliveries (success after) = search calls_rules

  pub after_force-Moves :
      (self : PortService W) (plan : PortReleasePlan) (warnings : List Warning)
      (deliveries : List SignalDelivery) (after : Result (Observation PortReleasePlan))
      → Moves (extension P) (after_force self plan warnings deliveries after)
  unfolding after_force
  after_force-Moves self plan warnings deliveries (failure e) = search (calls_rules)
  after_force-Moves self plan warnings deliveries (success after) = search calls_rules
