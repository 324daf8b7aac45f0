-- ===== src/Cli/App/Ends.antt =====
-- CliApp::run: how the commands end.
pub mod Release
pub mod Run
use lx.Base.{some, none, true, false, ◌≡◌, Bool, Bytes, ℕ, Option, ◌≤◌, arith, ◌⊎◌}
use lx.Cli.App.{
  Arguments, Surroundings, Exit, put, note, answer, fail_with, if_confirmed, unless_failed, confirm,
  show, emit, diagnose, exited, exception,
}
use lx.Cli.Texts.{exit_code}
use lx.Exec.Ends.{ends_rules, Ends, Ends-watch, Ends-then, Ends-cases, Ends-pure, Ends-after}
use lx.Domain.{ErrorCode, Result, Error, success, failure}
use lx.Cli.Print.{Printed}
use lx.Exec.{pure, Action}

-- success, one of the codes of failures, or an interruption
abbrev pub IsExitCode : ℕ → Type 0
IsExitCode code = (code ≡ 0) ⊎ ((2 ≤ code) × (code ≤ 8)) ⊎ (code ≡ 130)

-- With one of those exit codes, or with `--json` by an exception of the JSON library.
abbrev pub IsEnd : Arguments → Exit → Type 0
IsEnd args (exited code) = IsExitCode code
IsEnd args Exit.exception = args.json ≡ true
IsEnd args Exit.undefined = ⊥
IsEnd args Exit.out_of_fuel = ⊥

exit_code-IsExitCode : (code : ErrorCode) → IsExitCode (exit_code code)
unfolding exit_code
exit_code-IsExitCode code = ground arith

module _ {W : Type 0} (around : Surroundings W) (args : Arguments) where
  open around use {console}

  pub put-Ends : (words : Bytes) → Ends (λ v. Unit) (put around args words)
  unfolding put
  put-Ends words = Ends-watch _

  pub diagnose-Ends : (words : Bytes) → Ends (λ v. Unit) (diagnose around args words)
  unfolding diagnose
  diagnose-Ends words = search ends_rules

  pub emit-IsEnd :
      (code : ℕ) (words : Option Bytes)
      → IsExitCode code
      → args.json ≡ true
      → Ends (IsEnd args) (emit around args code words)
  unfolding emit
  emit-IsEnd code none small json = Ends-pure _ exception json
  emit-IsEnd code (some words) small json =
      Ends-then _ _ _ (put-Ends _) (Ends-pure _ (exited code) small)

  pub fail_with-IsEnd :
      (command operation : Bytes) (e : Error)
      → Ends (IsEnd args) (fail_with around args command operation e)
  unfolding fail_with
  fail_with-IsEnd command operation e =
      Ends-cases _ args.json _ _ (λ json. emit-IsEnd _ _ (exit_code-IsExitCode e.code) json)
        (λ other. Ends-then _ _ _ (Ends-watch _) (Ends-pure _ _ (exit_code-IsExitCode e.code)))

  pub unless_failed-IsEnd :
      {A : Type 0} (command operation : Bytes) (r : Result A) (rest : A → Action W Exit)
      → ((a : A) → Ends (IsEnd args) (rest a))
      → Ends (IsEnd args) (unless_failed around args command operation r rest)
  unfolding unless_failed
  unless_failed-IsEnd command operation (success a) rest h = h a
  unless_failed-IsEnd command operation (failure e) rest h = fail_with-IsEnd command operation e

  show-IsEnd : (printed : Printed) → Ends (IsEnd args) (show around args printed)
  unfolding show
  show-IsEnd printed =
      Ends-then _ _ _ (put-Ends _)
        (Ends-then _ _ _ (diagnose-Ends _) (Ends-pure _ (exited 0) (ground arith)))

  pub answer-IsEnd :
      (words : Option Bytes) (printed : Printed)
      → Ends (IsEnd args) (answer around args words printed)
  unfolding answer
  answer-IsEnd words printed =
      Ends-cases _ args.json _ _ (λ json. emit-IsEnd 0 words (ground arith) json)
        (λ other. show-IsEnd printed)

  pub exited-IsEnd : Ends {W = W} (IsEnd args) (pure (exited 0))
  exited-IsEnd = Ends-pure _ _ (ground arith)

  pub note-IsEnd : (words : Bytes) → Ends (IsEnd args) (note around args words)
  unfolding note
  note-IsEnd words = search (ends_rules, exited-IsEnd)

  confirm-Ends :
      (prompt : Bytes) (default_yes : Bool)
      → Ends (λ agreed. Unit) (confirm around args prompt default_yes)
  unfolding confirm
  confirm-Ends prompt default_yes =
      Ends-then _ _ _ (put-Ends prompt) (Ends-after _ _ _ (Ends-watch _) (λ line. Ends-pure _ _ tt))

  pub if_confirmed-IsEnd :
      (confirmed : Bool) (prompt : Bytes) (default_yes : Bool) (rest : Action W Exit)
      → Ends (IsEnd args) rest
      → Ends (IsEnd args) (if_confirmed around args confirmed prompt default_yes rest)
  unfolding if_confirmed
  if_confirmed-IsEnd confirmed prompt default_yes rest h =
      Ends-cases _ confirmed _ _ (λ t. h)
        (λ f.
          Ends-after _ _ _ (confirm-Ends prompt default_yes)
            (λ agreed. Ends-cases _ agreed _ _ (λ t. h) (λ other. note-IsEnd _)))

pub ruleset end_rules = (
  ends_rules, put-Ends, diagnose-Ends, fail_with-IsEnd, unless_failed-IsEnd, answer-IsEnd,
  note-IsEnd, exited-IsEnd, if_confirmed-IsEnd,
)
