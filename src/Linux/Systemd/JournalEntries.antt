-- ===== src/Linux/Systemd/JournalEntries.antt =====
-- SystemdJournalProvider.cpp: what a query selects, and the entry at which the journal stands.
use mathlib.Core.Option
use lx.Base.{
  some, none, inl, inr, Option, Bytes, [], nat_Eq, list_Eq, int_Eq, option_Eq, ℕ, text,
  if◌then◌else◌, ◌⊎◌, ◌==◌, is_nil, leb, ◌++◌, ◌^◌, ◌∷◌,
}
use lx.Domain.{
  Error, ErrorCode, make_error, Observation, JournalEntry, LogQuery, Void, Result, success,
  invalid_argument, warning_from, failure, not_found, parse_error,
}
use lx.Linux.Systemd.SdJournal.{SdJournal, journal_error, value_of, unless_negative}
use lx.Exec.{◌>>=◌, ◌>>◌, Action, observe, attempt, pure, lift, fail}
use lx.Linux.Errno.{Errno}
use lx.Linux.Systemd.JournalFields.{
  JournalFields, journal_field_value, or_empty, journal_entry_from_fields,
}
use lx.Application.ResourceResolver.{show_pid}

abbrev pub data_threshold : ℕ
data_threshold = 1048576

unfoldable pub provider_failure : ErrorCode → Bytes → Bytes → Error
provider_failure code message operation = make_error code message (text "sd-journal") operation

unfoldable pub with_message_warning : Observation JournalEntry → Observation JournalEntry
with_message_warning observed =
    if is_nil observed.value.message
    then record observed {
      warnings =
          observed.warnings
          ++ warning_from (
              provider_failure not_found (text "Journal entry has no MESSAGE field")
                (text "read entry"))
            ∷ [];
    }
    else observed

module _ {W : Type 0} (journal : SdJournal W) where
  open journal use {
    set_data_threshold, add_match, get_data, get_realtime_usec, get_cursor, seek_tail,
    seek_realtime_usec, seek_cursor, previous, next, wait,
  }

  unfoldable pub match_field : ℕ → Option Bytes → Action W Void
  unfolding unless_negative
  match_field handle none = pure tt
  match_field handle (some field) = do
    matched ← observe (add_match handle field)
    unless_negative journal (text "add match") matched

  unfoldable pub configure_journal : ℕ → LogQuery → Action W Void
  unfolding unless_negative match_field
  configure_journal handle query =
      if query.limit == 0
      then fail (
          provider_failure invalid_argument (text "Journal limit must be greater than zero")
            (text "configure query"))
      else do
        threshold ← observe (set_data_threshold handle data_threshold)
        unless_negative journal (text "set data threshold") threshold
        match_field handle (Option.map (λ unit. text "_SYSTEMD_UNIT=" ++ unit) query.unit)
        match_field handle (Option.map (λ pid. text "_PID=" ++ show_pid pid) query.pid)

  unfoldable pub field_value : Bytes → (Errno ⊎ Option Bytes) → Result (Option Bytes)
  unfolding journal_error
  field_value field (inl Errno.enoent) = success none
  field_value field (inl number) = failure (journal_error journal number (text "read field"))
  field_value field (inr bytes) = some_field (journal_field_value field bytes)
    where
      some_field : Result Bytes → Result (Option Bytes)
      some_field (success value) = success (some value)
      some_field (failure e) = failure e

  unfoldable pub read_journal_field : ℕ → Bytes → Action W (Option Bytes)
  unfolding field_value
  read_journal_field handle field = do
    bytes ← observe (get_data handle field)
    lift (field_value field bytes)

  -- The five fields are all read before the first error is returned.
  unfoldable pub read_fields : ℕ → ℕ → Bytes → Action W JournalFields
  unfolding read_journal_field
  read_fields handle timestamp_usec cursor = do
    unit ← attempt (read_journal_field handle (text "_SYSTEMD_UNIT"))
    pid ← attempt (read_journal_field handle (text "_PID"))
    command ← attempt (read_journal_field handle (text "_COMM"))
    message ← attempt (read_journal_field handle (text "MESSAGE"))
    priority ← attempt (read_journal_field handle (text "PRIORITY"))
    unit ← lift unit
    pid ← lift pid
    command ← lift command
    message ← lift message
    priority ← lift priority
    pure (record {
      timestamp_usec = timestamp_usec;
      cursor = cursor;
      systemd_unit = unit;
      pid = pid;
      command = command;
      message = message;
      priority = priority;
    })

  unfoldable pub read_current_entry : ℕ → Action W (Observation JournalEntry)
  unfolding value_of read_fields with_message_warning
  read_current_entry handle = do
    realtime ← observe (get_realtime_usec handle)
    timestamp_usec ← value_of journal (text "read timestamp") realtime
    lift (
        if leb (2 ^ 63) timestamp_usec
        then failure (
            provider_failure parse_error (text "Journal timestamp is out of range")
              (text "read timestamp"))
        else success tt)
    cursor ← observe (get_cursor handle)
    cursor ← value_of journal (text "read cursor") cursor
    fields ← read_fields handle timestamp_usec (or_empty cursor)
    pure (with_message_warning (journal_entry_from_fields fields))
