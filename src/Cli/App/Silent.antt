-- ===== src/Cli/App/Silent.antt =====
-- CliApp::run: what sends no signal and gives no command, and the answers to its questions.
use lx.Base.{some, none, true, ◌≡◌, Bool, refl, ◌⊎◌, Bytes, Option, ℕ, inl, ap, inr, text, sym, ◌∙◌}
use lx.Cli.App.{
  Arguments, confirm, Console, Surroundings, fail_with, diagnose, unless_failed, show, put,
  if_confirmed, emit, note, answer, Exit,
}
use lx.Exec.{Call, ◌>>◌, Action}
use lx.Cli.Texts.{consents}
use lx.Exec.Moves.{Moves, extension, Moves-cases, calls_rules}
use lx.Domain.{Error, Result, success, failure}
use lx.Cli.Print.{Printed}
use lx.Exec.Returns.{
  Returns, Returns-after, Returns-bind, Returns-observe, Moves-bind-Returns, Returns-pure,
}

-- Somebody answers a question with this default in a way that `confirm` takes for a yes.
abbrev pub Agreed : {W : Type 0} → Console W → Bool → Type 0
Agreed {W} console default_yes = (w : W) × (consents default_yes (console.read_line w).0 ≡ true)

abbrev pub Consent : {W : Type 0} → Console W → Bool → Bool → Type 0
Consent console confirmed default_yes = (confirmed ≡ true) ⊎ Agreed console default_yes

confirm-Agreed :
    {W : Type 0} (around : Surroundings W) (args : Arguments) (prompt : Bytes) (default_yes : Bool)
    → Returns
        (λ agreed. agreed ≡ true → Agreed around.console default_yes)
        (confirm around args prompt default_yes)
unfolding confirm ◌>>◌
confirm-Agreed around args prompt default_yes = Returns-after _ (put around args prompt) _ (λ v.
    Returns-bind _ _ _ _
      (Returns-observe (λ line. (w : _) × (line ≡ (around.console.read_line w).0)) _
        (λ w. (w, refl)))
      (λ line read.
        Returns-pure _ _ (λ yes. (read.0, ap (consents default_yes) (sym read.1) ∙ yes))))

module _ {W : Type 0} (P : Call → Type 0) (around : Surroundings W) (args : Arguments) where
  open around use {console}

  pub put-Moves : (words : Bytes) → Moves (extension P) (put around args words)
  unfolding put
  put-Moves words = search calls_rules

  pub diagnose-Moves : (words : Bytes) → Moves (extension P) (diagnose around args words)
  unfolding diagnose
  diagnose-Moves words = search calls_rules

  emit-Moves : (code : ℕ) (words : Option Bytes) → Moves (extension P) (emit around args code words)
  unfolding emit
  emit-Moves code none = search calls_rules
  emit-Moves code (some words) = search calls_rules

  pub fail_with-Moves :
      (command operation : Bytes) (e : Error)
      → Moves (extension P) (fail_with around args command operation e)
  unfolding fail_with
  fail_with-Moves command operation e = search (calls_rules, emit-Moves)

  pub unless_failed-Moves :
      {A : Type 0} (command operation : Bytes) (r : Result A) (rest : A → Action W Exit)
      → ((a : A) → r ≡ success a → Moves (extension P) (rest a))
      → Moves (extension P) (unless_failed around args command operation r rest)
  unfolding unless_failed
  unless_failed-Moves command operation (success a) rest h = h a refl
  unless_failed-Moves command operation (failure e) rest h = fail_with-Moves command operation e

  show-Moves : (printed : Printed) → Moves (extension P) (show around args printed)
  unfolding show
  show-Moves printed = search (calls_rules, diagnose-Moves)

  pub answer-Moves :
      (words : Option Bytes) (printed : Printed)
      → Moves (extension P) (answer around args words printed)
  unfolding answer
  answer-Moves words printed = search (calls_rules, emit-Moves, show-Moves)

  pub note-Moves : (words : Bytes) → Moves (extension P) (note around args words)
  unfolding note
  note-Moves words = search calls_rules

  confirm-Moves :
      (prompt : Bytes) (default_yes : Bool)
      → Moves (extension P) (confirm around args prompt default_yes)
  unfolding confirm
  confirm-Moves prompt default_yes = search calls_rules

  -- the rest of a command behind a question may use that it was confirmed, or that somebody agreed
  pub if_confirmed-Moves :
      (confirmed : Bool) (prompt : Bytes) (default_yes : Bool) (rest : Action W Exit)
      → (Consent console confirmed default_yes → Moves (extension P) rest)
      → Moves (extension P) (if_confirmed around args confirmed prompt default_yes rest)
  unfolding if_confirmed
  if_confirmed-Moves confirmed prompt default_yes rest h =
      Moves-cases _ confirmed _ _ (λ yes. h (inl yes))
        (λ no.
          Moves-bind-Returns _ _ _ _ (confirm-Moves prompt default_yes)
            (confirm-Agreed around args prompt default_yes)
            (λ agreed a.
              Moves-cases _ agreed _ _ (λ yes. h (inr (a yes)))
                (λ other. note-Moves (text "Cancelled.\n"))))

pub ruleset text_rules = (
  calls_rules, answer-Moves, fail_with-Moves, note-Moves, put-Moves, diagnose-Moves,
  unless_failed-Moves,
)
