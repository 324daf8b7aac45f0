-- ===== src/Cli/App/Asked/Run.antt =====
-- CliApp::run as a whole.
use lx.Base.{
  true, false, ◌≡◌, inl, ◌⊎◌, nat_Eq, list_Eq, int_Eq, option_Eq, is_nil, arith, inr, refl, ◌&&◌,
  Bool-cases,
}
use lx.Cli.App.{Arguments, CliApp, Surroundings}
use lx.Exec.Moves.{Moves, extension, Moves-cases, Moves-if, Moves-pure}
use lx.Cli.App.Silent.{fail_with-Moves}
use lx.Cli.App.Run.{run, run_command, needs_text}
use lx.Cli.App.Quiet.{
  tui-Moves, doctor_command-Moves, status-Moves, inspect_command-Moves, find_command-Moves,
  read_process-Moves, log-Moves, port-Moves,
}
use lx.Cli.App.Asked.{is_action, IsAskedInText}
use lx.Cli.App.Asked.Process.{stop-IsAsked, kill-IsAsked}
use lx.Cli.App.Asked.Service.{service-IsAsked}
use lx.Cli.App.Asked.Release.{free_port-IsAsked}

module _ {W : Type 0} (self : CliApp W) (around : Surroundings W) (args : Arguments) where
  run_command-IsAsked :
      args.json && needs_text args ≡ false
      → is_action args.service_action ≡ true
      → Moves (extension (IsAskedInText self around args)) (run_command self around args)
  unfolding run_command needs_text
  run_command-IsAsked in_text checked =
      Moves-cases _ args.tui _ _ (λ t0. tui-Moves _ self around args self.tui_runner)
        (λ f0.
          Moves-cases _ args.doctor _ _ (λ t1. doctor_command-Moves _ self around args)
            (λ f1.
              Moves-cases _ args.status _ _
                (λ t2. status-Moves _ self around args self.status_service)
                (λ f2.
                  Moves-cases _ args.inspect _ _ (λ t3. inspect_command-Moves _ self around args)
                    (λ f3.
                      Moves-cases _ args.find _ _ (λ t4. find_command-Moves _ self around args)
                        (λ f4.
                          Moves-cases _ args.stop_process _ _
                            (λ t5. stop-IsAsked self around args (ground arith) t5)
                            (λ f5.
                              Moves-cases _ args.kill_process _ _
                                (λ t6. kill-IsAsked self around args (ground arith) t6)
                                (λ f6.
                                  Moves-cases _ args.process _ _
                                    (λ t7. read_process-Moves _ self around args args.process_pid)
                                    (λ f7.
                                      Moves-cases _ args.service _ _
                                        (λ t8.
                                          service-IsAsked self around args args.service_unit
                                            (acts_in_text t8) t8 refl checked)
                                        (λ f8.
                                          Moves-cases _ args.log _ _
                                            (λ t9. log-Moves _ self around args)
                                            (λ f9.
                                              Moves-cases _ args.free_port _ _
                                                (λ t10.
                                                  free_port-IsAsked self around args (ground arith)
                                                    t10)
                                                (λ f10.
                                                  Moves-if _ args.port _ _
                                                    (port-Moves _ self around args)
                                                    (Moves-pure _ _))))))))))))
    where
      acts_in_text : args.service ≡ true → (args.json ≡ false) ⊎ (is_nil args.service_action ≡ true)
      acts_in_text service = elim (Bool-cases args.json) [
        | inr text_only ↦ inl text_only
        | inl asks_json ↦ inr (ground arith)
      ]

  -- Whatever the system, the console and the arguments, where the action of `lx service` is one that
  -- the parser lets through: the signals that `run` sends and the commands that it gives to the service
  -- manager, apart from the dashboard's, are steps of the command that it was asked for, none with
  -- `--json`; each waits for `--yes` or for an agreement, except SIGTERM to a process and the start of
  -- a unit; and no signal goes to process 1 or to LX itself.
  pub run-IsAsked :
      is_action args.service_action ≡ true
      → Moves (extension (IsAskedInText self around args)) (run self around args)
  unfolding run
  run-IsAsked checked =
      Moves-cases _ (args.json && needs_text args) _ _
        (λ refused. fail_with-Moves _ around args _ _ _)
        (λ in_text. run_command-IsAsked in_text checked)
