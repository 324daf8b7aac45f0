-- ===== src/Cli/App/Logs.antt =====
-- CliApp::run: `lx log`.
use lx.Application.LogService
use lx.Cli.Json.Output
use lx.Base.{none, some, ◌++◌, true, false, ℤ, Option, Bytes, Bool, if◌then◌else◌, text, ◌&&◌}
use lx.Cli.App.{
  Arguments, CliApp, Surroundings, unless_failed, fail_with, answer, Exit, exception, cli_error,
  exited,
}
use lx.Exec.{◌>>=◌, ◌>>◌, Action, pure, attempt, observe, lift}
use lx.Domain.{
  LogQuery, Error, Result, Observation, JournalEntry, Void, operation_failed, success, failure,
  code_eq, interrupted,
}
use lx.Cli.Print.{Printed, new_line}
use lx.Cli.Records.{print_journal_entries, print_journal_entry}
use lx.Application.LogService.Since.{parse_since}

abbrev pub log_query : Arguments → Option ℤ → LogQuery
log_query args since = record {
  unit = args.log_unit;
  pid = args.log_pid;
  since = since;
  limit = args.log_lines;
  follow = false;
}

unfoldable pub handler_error : ℤ → Bytes → Error
handler_error errno words = record {
  code = operation_failed;
  message = text "Unable to install SIGINT handler: " ++ words;
  system_error = errno;
  component = text "cli";
  operation = text "install SIGINT handler";
}

module _ {W : Type 0} (self : CliApp W) (around : Surroundings W) (args : Arguments) where
  open around use {console, format, json, times}

  unfoldable pub read_since : Option Bytes → Action W (Option ℤ)
  read_since none = pure none
  read_since (some words) = do
    now ← observe console.now
    since ← lift (parse_since times words now)
    pure (some since)

  -- what the sink does with the text of an entry: the exception of the JSON library leaves it too
  unfoldable pub sink_text : Option Bytes → W → Result Void × W
  sink_text none w =
      (failure (cli_error operation_failed (text "exception") (text "follow")), (console.throw w).1)
  sink_text (some words) w = (success tt, (console.write (words ++ new_line) w).1)

  unfoldable pub sink_printed : Printed → W → Result Void × W
  sink_printed printed w =
      let w' = (console.write printed.output w).1 in
      (success tt, if args.quiet then w' else (console.write_error printed.diagnostics w').1)

  unfoldable pub sink : Observation JournalEntry → W → Result Void × W
  unfolding sink_text sink_printed
  sink entry =
      if args.json
      then sink_text (Output.log_event json entry)
      else sink_printed (print_journal_entry format entry)

  unfoldable pub after_follow : Bool → Result Void → Action W Exit
  unfolding fail_with
  after_follow true result = pure exception
  after_follow false (success v) = pure (exited 0)
  after_follow false (failure e) =
      if code_eq e.code interrupted
      then pure (exited 130)
      else fail_with around args (text "log") (text "follow") e

  unfoldable pub follow_log : LogQuery → Option (ℤ × Bytes) → Action W Exit
  unfolding fail_with after_follow sink
  follow_log query (some (errno, words)) =
      fail_with around args (text "log") (text "follow") (handler_error errno words)
  follow_log query none = do
    result ← attempt (LogService.follow self.log_service query sink console.requested)
    thrown ← observe console.thrown
    exit ← after_follow (args.json && thrown) result
    observe console.restore
    pure exit

  unfoldable pub read_log : LogQuery → Action W Exit
  unfolding unless_failed answer
  read_log query = do
    result ← attempt (LogService.read self.log_service query)
    unless_failed around args (text "log") (text "read") result (λ entries.
        answer around args (Output.logs json entries) (print_journal_entries format entries))

  unfoldable pub run_log : Action W Exit
  unfolding unless_failed follow_log read_log read_since
  run_log = do
    since ← attempt (read_since args.log_since)
    unless_failed around args (text "log") (text "read") since (λ since.
        if args.follow_log
        then (do installed ← observe console.install; follow_log (log_query args since) installed)
        else read_log (log_query args since))
