-- ===== src/Cli/App/Ends/Run.antt =====
-- CliApp::run as a whole.
use lx.Base.{
  some, none, true, false, ◌≡◌, Bool, refl, nat_Eq, list_Eq, int_Eq, option_Eq, Option, ℤ, Bytes,
  arith, suc, ℕ, ◌≤◌, ◌*◌, ◌&&◌, not, ◌==◌,
}
use lx.Cli.App.{Arguments, CliApp, Surroundings, exited}
use lx.Application.DoctorService.{DoctorService}
use lx.Exec.Ends.{
  Ends, ends_rules, Ends-pure, Ends-after, Ends-tried, Ends-watch, Ends-cases, Ends-bind, Ends-then,
}
use lx.Cli.App.Reads.{
  run_tui, run_find, measured, read_process, run_doctor, run_port, run_inspect, run_status,
  list_services, list_processes, show_ports, inspect_process, inspect_service,
}
use lx.Cli.App.Logs.{run_log, after_follow, read_log, follow_log}
use lx.Cli.App.Run.{run_service, run_command, run, run_parsed, parse_failed, ParseError, needs_text}
use lx.Cli.App.Changes.{run_stop, run_kill, kill_confirmed, run_service_action, change_service}
use lx.Domain.{Result, LogQuery, Void, MetricsView, success, failure, code_eq, interrupted}
use lx.Cli.App.Ends.{IsEnd, end_rules, fail_with-IsEnd, exited-IsEnd, emit-IsEnd}
use lx.Application.MetricsService.{MetricsService}
use lx.Application.PortService.Deadline.{IsSteady}
use lx.Cli.App.Ends.Release.{free_port-IsEnd}
use lx.Application.DoctorService

doctor-Ends :
    {W : Type 0} (service : DoctorService W) → Ends (λ r. Unit) (DoctorService.inspect service)
unfolding DoctorService.inspect
doctor-Ends service = search ends_rules depth 12

module _ {W : Type 0} (self : CliApp W) (around : Surroundings W) (args : Arguments) where
  tui-IsEnd :
      (runner : Option (W → Result Void × W)) → Ends (IsEnd args) (run_tui self around args runner)
  unfolding run_tui
  tui-IsEnd none = search end_rules
  tui-IsEnd (some runner) = search end_rules

  status-IsEnd :
      (service : Option (MetricsService W))
      → Ends (IsEnd args) (run_status self around args service)
  unfolding run_status
  status-IsEnd none = search end_rules
  status-IsEnd (some service) = search end_rules

  measured-Ends :
      {A : Type 0} (service : Option (MetricsService W)) (attach : Result MetricsView → A) (a : A)
      → Ends (λ b. Unit) (measured self around args service attach a)
  unfolding measured
  measured-Ends none attach a = search ends_rules
  measured-Ends (some service) attach a = search ends_rules

  read_process-IsEnd : (pid : Option ℤ) → Ends (IsEnd args) (read_process self around args pid)
  unfolding read_process list_processes inspect_process
  read_process-IsEnd none = search (end_rules, measured-Ends) depth 9
  read_process-IsEnd (some pid) = search (end_rules, measured-Ends) depth 9

  doctor-IsEnd : Ends (IsEnd args) (run_doctor self around args)
  unfolding run_doctor
  doctor-IsEnd = search (end_rules, doctor-Ends)

  inspect-IsEnd : Ends (IsEnd args) (run_inspect self around args)
  unfolding run_inspect
  inspect-IsEnd = search end_rules

  find-IsEnd : Ends (IsEnd args) (run_find self around args)
  unfolding run_find
  find-IsEnd = search end_rules

  port-IsEnd : Ends (IsEnd args) (run_port self around args)
  unfolding run_port show_ports
  port-IsEnd = search end_rules depth 9

  after_follow-IsEnd :
      (thrown : Bool) (result : Result Void)
      → (thrown ≡ true → args.json ≡ true)
      → Ends (IsEnd args) (after_follow self around args thrown result)
  unfolding after_follow
  after_follow-IsEnd true result h = Ends-pure _ _ (h refl)
  after_follow-IsEnd false (success v) h = search end_rules
  after_follow-IsEnd false (failure e) h =
      Ends-cases _ (code_eq e.code interrupted) _ _ (λ t. Ends-pure _ (exited 130) (ground arith))
        (λ f. fail_with-IsEnd around args _ _ e)

  follow-IsEnd :
      (query : LogQuery) (installed : Option (ℤ × Bytes))
      → Ends (IsEnd args) (follow_log self around args query installed)
  unfolding follow_log
  follow-IsEnd query (some (errno, words)) = search end_rules
  follow-IsEnd query none = Ends-after _ _ _ (Ends-tried _) (λ result.
      Ends-after _ _ _ (Ends-watch _) (λ thrown.
        Ends-bind _ (IsEnd args) _ _ (after_follow-IsEnd _ result (λ t. ground arith))
          (λ exit p. Ends-then _ _ _ (Ends-watch _) (Ends-pure _ exit p))))

  log-IsEnd : Ends (IsEnd args) (run_log self around args)
  unfolding run_log read_log
  log-IsEnd = search (end_rules, follow-IsEnd) depth 9

  stop-IsEnd : Ends (IsEnd args) (run_stop self around args)
  unfolding run_stop
  stop-IsEnd = search end_rules

  kill-IsEnd : Ends (IsEnd args) (run_kill self around args)
  unfolding run_kill kill_confirmed
  kill-IsEnd = search end_rules depth 9

  service-IsEnd : (unit : Option Bytes) → Ends (IsEnd args) (run_service self around args unit)
  unfolding run_service list_services inspect_service run_service_action change_service
  service-IsEnd none = search end_rules
  service-IsEnd (some unit) = search end_rules depth 9

  module _ (time : W → ℕ) (steady : IsSteady self.port_service time) (f : ℕ)
      (fuel : around.fuel ≡ suc f) (enough : self.port_service.grace_period ≤ 25 * f) where
    run_command-IsEnd : Ends (IsEnd args) (run_command self around args)
    unfolding run_command
    run_command-IsEnd =
        let freed = free_port-IsEnd self around args time steady f fuel enough in
        let done = exited-IsEnd around args in
        search
          (
            Ends-cases, tui-IsEnd, doctor-IsEnd, status-IsEnd, inspect-IsEnd, find-IsEnd,
            stop-IsEnd, kill-IsEnd, read_process-IsEnd, service-IsEnd, log-IsEnd, freed, port-IsEnd,
            done,
          )
          depth 30

    run-IsEnd : Ends (IsEnd args) (run self around args)
    unfolding run
    run-IsEnd =
        Ends-cases _ (args.json && needs_text args) _ _ (λ t. fail_with-IsEnd around args _ _ _)
          (λ u. run_command-IsEnd)

    -- Where each call of a provider, of the console and of the JSON library returns what its interface
    -- says (the wait of `lx log --follow` for entries is such a call, and so may never return; a
    -- provider that throws is left out), the clock never goes back and `sleep_for` takes its time:
    -- whatever the answers, `run` gives one of the exit codes 0, 2 to 8 and 130 or, with `--json` alone,
    -- leaves by an exception of the JSON library. Its wait for a stopped service is over within a fuel
    -- above a twenty-fifth of the grace period in milliseconds, and it never reads a remaining plan
    -- that is not there.
    pub run_parsed-IsEnd :
        (parsed : Option (ParseError W)) → Ends (IsEnd args) (run_parsed self around args parsed)
    unfolding run_parsed parse_failed
    run_parsed-IsEnd none = run-IsEnd
    run_parsed-IsEnd (some parse_error) =
        Ends-cases _ (not (parse_error.get_exit_code == 0) && args.json) _ _
          (λ t. emit-IsEnd around args 2 _ (ground arith) (ground arith))
          (λ u. Ends-after _ _ _ (Ends-watch _) (λ code. Ends-pure _ _ (ground arith)))
