-- ===== src/Linux/Systemd/JournalProvider.antt =====
-- SystemdJournalProvider.cpp: queries of the journal. The loop over the entries since a time takes fuel:
-- `none` inside the result.
pub mod Follow
pub mod Limit
mod Tests
use mathlib.Core.Option
use lx.Base.{
  some, none, inl, inr, Option, Bytes, List, [], zero, suc, true, false, ℤ, ℕ, pos, ◌++◌, ◌/◌, ◌∷◌,
  Bool, if◌then◌else◌, text, negsuc, ltb, length, drop,
}
use lx.Domain.{Error, ErrorCode, Observation, JournalEntry, Void, LogQuery, invalid_argument}
use lx.Linux.Systemd.SdJournal.{SdJournal, with_journal, unless_negative, value_of}
use lx.Linux.Systemd.JournalEntries.{read_current_entry, configure_journal, provider_failure}
use lx.Exec.{◌>>=◌, ◌>>◌, Action, pure, fail, observe}

abbrev pub Entries : Type 0
Entries = Observation (List JournalEntry)

unfoldable pub append_entry : Entries → Observation JournalEntry → Entries
append_entry target source = record {
  value = target.value ++ source.value ∷ [];
  warnings = target.warnings ++ source.warnings;
}

unfoldable pub append_entries : Entries → List (Observation JournalEntry) → Entries
unfolding append_entry
append_entries target [] = target
append_entries target (source ∷ rest) = append_entries (append_entry target source) rest

abbrev pub no_entries : Entries
no_entries = record { value = []; warnings = [] }

-- the entry is put behind the others, and the first goes if there are more than the limit
unfoldable pub slide :
    ℕ → List (Observation JournalEntry) → Observation JournalEntry → List (Observation JournalEntry)
slide limit window entry =
    let longer = window ++ entry ∷ [] in if ltb limit (length longer) then drop 1 longer else longer

-- microseconds of nanoseconds since the epoch, where they are not negative
unfoldable pub since_usec : ℤ → Option ℕ
since_usec (pos since) = some (since / 1000)
since_usec (negsuc n) = if ltb n 999 then some 0 else none

module _ {W : Type 0} (journal : SdJournal W) where
  open journal use {seek_tail, seek_realtime_usec, previous, next}

  -- The entry that was read last stands first.
  unfoldable pub after_previous :
      ℕ
      → (List (Observation JournalEntry) → Action W (List (Observation JournalEntry)))
      → List (Observation JournalEntry)
      → Bool
      → Action W (List (Observation JournalEntry))
  unfolding read_current_entry
  after_previous handle more entries false = pure entries
  after_previous handle more entries true = do
    entry ← read_current_entry journal handle
    more (entry ∷ entries)

  -- at most as many rounds as the limit has left
  unfoldable pub tail_entries :
      ℕ → ℕ → List (Observation JournalEntry) → Action W (List (Observation JournalEntry))
  unfolding value_of after_previous
  tail_entries handle zero entries = pure entries
  tail_entries handle (suc left) entries = do
    status ← observe (previous handle)
    found ← value_of journal (text "read previous entry") status
    after_previous handle (tail_entries handle left) entries found

  unfoldable pub query_tail : ℕ → ℕ → Action W Entries
  unfolding unless_negative tail_entries append_entries
  query_tail handle limit = do
    status ← observe (seek_tail handle)
    unless_negative journal (text "seek tail") status
    entries ← tail_entries handle limit []
    pure (append_entries no_entries entries)

  unfoldable pub after_next :
      ℕ
      → ℕ
      → (List (Observation JournalEntry) → Action W (Option (List (Observation JournalEntry))))
      → List (Observation JournalEntry)
      → Bool
      → Action W (Option (List (Observation JournalEntry)))
  unfolding read_current_entry slide
  after_next handle limit more window false = pure (some window)
  after_next handle limit more window true = do
    entry ← read_current_entry journal handle
    more (slide limit window entry)

  unfoldable pub since_entries :
      ℕ
      → ℕ
      → ℕ
      → List (Observation JournalEntry)
      → Action W (Option (List (Observation JournalEntry)))
  unfolding value_of after_next
  since_entries zero handle limit window = pure none
  since_entries (suc fuel) handle limit window = do
    status ← observe (next handle)
    found ← value_of journal (text "read next entry") status
    after_next handle limit (since_entries fuel handle limit) window found

  unfoldable pub query_from : ℕ → ℕ → ℕ → Option ℕ → Action W (Option Entries)
  unfolding unless_negative since_entries append_entries
  query_from fuel handle limit none = fail (
      provider_failure invalid_argument (text "Journal since time must not precede the Unix epoch")
        (text "seek time"))
  query_from fuel handle limit (some usec) = do
    status ← observe (seek_realtime_usec handle usec)
    unless_negative journal (text "seek time") status
    window ← since_entries fuel handle limit []
    pure (Option.map (append_entries no_entries) window)

  unfoldable pub query_since : ℕ → ℕ → ℤ → ℕ → Action W (Option Entries)
  unfolding query_from since_usec
  query_since fuel handle since limit = query_from fuel handle limit (since_usec since)

  -- `query.since ? querySince(...) : queryTail(...)`
  unfoldable pub select : ℕ → ℕ → Option ℤ → ℕ → Action W (Option Entries)
  unfolding query_tail query_since
  select fuel handle none limit = do entries ← query_tail handle limit; pure (some entries)
  select fuel handle (some since) limit = query_since fuel handle since limit

  unfoldable pub probe : Action W Void
  unfolding with_journal
  probe = with_journal journal (λ handle. pure tt)

  unfoldable pub query : ℕ → LogQuery → Action W (Option Entries)
  unfolding with_journal configure_journal select
  query fuel log_query = with_journal journal (λ handle. do
    configure_journal journal handle log_query
    select fuel handle log_query.since log_query.limit)
