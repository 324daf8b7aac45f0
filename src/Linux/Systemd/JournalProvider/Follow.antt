-- ===== src/Linux/Systemd/JournalProvider/Follow.antt =====
-- SystemdJournalProvider.cpp: following the journal. The loop over the entries to come has no bound: it
-- takes fuel, and gives `none` inside the result when that ends.
use lx.Base.{
  some, none, inl, inr, Option, Bytes, List, [], zero, suc, true, false, Bool, ◌∷◌, text, ℕ, ◌⊎◌,
  if◌then◌else◌,
}
use lx.Domain.{
  Error, Observation, JournalEntry, interrupted, Result, Void, Warning, LogQuery, conflict,
}
use lx.Linux.Systemd.SdJournal.{
  SdJournal, unless_negative, value_of, journal_error, with_journal, is_interrupted,
}
use lx.Linux.Systemd.JournalEntries.{read_current_entry, configure_journal, provider_failure}
use lx.Exec.{◌>>=◌, ◌>>◌, Action, observe, pure, fail, ask}
use lx.Linux.Errno.{Errno}
use lx.Linux.Systemd.JournalProvider.{Entries, select}

unfoldable pub last_entry : List JournalEntry → Option JournalEntry
last_entry [] = none
last_entry (entry ∷ []) = some entry
last_entry (entry ∷ more ∷ rest) = last_entry (more ∷ rest)

module _ {W : Type 0} (journal : SdJournal W) where
  open journal use {system, seek_tail, seek_cursor, next, wait}

  unfoldable pub follow_interrupted : Error
  follow_interrupted = record {
    code = interrupted;
    message = text "Journal follow was interrupted";
    system_error = system.number Errno.eintr;
    component = text "sd-journal";
    operation = text "follow";
  }

  unfoldable pub next_found : Bool → Action W Void
  next_found true = pure tt
  next_found false = fail (
      provider_failure conflict (text "Initial journal cursor disappeared before follow")
        (text "follow"))

  -- `entries.back()`
  unfoldable pub position_after_initial : ℕ → Option JournalEntry → Action W Void
  unfolding unless_negative value_of next_found
  position_after_initial handle none = do
    status ← observe (seek_tail handle)
    unless_negative journal (text "seek tail") status
  position_after_initial handle (some entry) = do
    status ← observe (seek_cursor handle entry.cursor)
    unless_negative journal (text "seek initial cursor") status
    status ← observe (next handle)
    found ← value_of journal (text "position after initial cursor") status
    next_found found

module _ {W : Type 0} (journal : SdJournal W)
    (sink : Observation JournalEntry → W → Result Void × W) (stop_requested : W → Bool × W) where
  open journal use {next, wait}

  -- `if (stopRequested()) return interrupted();` in front of the rest
  unfoldable pub unless_stopped : {A : Type 0} → Action W A → Action W A
  unfolding follow_interrupted
  unless_stopped rest = do
    stop ← observe stop_requested
    if stop then fail (follow_interrupted journal) else rest

  -- the entries found first; the warnings go with the first of them
  unfoldable pub send_initial : List JournalEntry → List Warning → Action W Void
  unfolding unless_stopped
  send_initial [] warnings = pure tt
  send_initial (entry ∷ rest) warnings =
      unless_stopped
        (do ask (sink (record { value = entry; warnings = warnings })); send_initial rest [])

  -- a negative status: an interruption where one was asked for
  unfoldable pub failed_status : {A : Type 0} → Bytes → Errno → Action W A
  unfolding unless_stopped journal_error
  failed_status operation number =
      if is_interrupted number
      then unless_stopped (fail (journal_error journal number operation))
      else fail (journal_error journal number operation)

  unfoldable pub waited : Action W (Option Void) → Option Errno → Action W (Option Void)
  unfolding failed_status
  waited more none = unless_stopped more
  waited more (some number) = failed_status (text "wait for journal entries") number

  -- a round of the inner loop; `more` is the loop from the next round on
  unfoldable pub followed : ℕ → Action W (Option Void) → (Errno ⊎ Bool) → Action W (Option Void)
  unfolding failed_status read_current_entry unless_stopped waited
  followed handle more (inl number) = failed_status (text "read followed entry") number
  followed handle more (inr false) = do status ← observe (wait handle 1000000); waited more status
  followed handle more (inr true) = do
    entry ← read_current_entry journal handle
    ask (sink entry)
    unless_stopped more

  -- Both loops: the outer one looks for a stop before it starts the inner one again.
  unfoldable pub follow_entries : ℕ → ℕ → Action W (Option Void)
  unfolding followed
  follow_entries zero handle = pure none
  follow_entries (suc fuel) handle = do
    status ← observe (next handle)
    followed handle (follow_entries fuel handle) status

  unfoldable pub follow_from : ℕ → ℕ → Option Entries → Action W (Option Void)
  unfolding position_after_initial send_initial unless_stopped follow_entries
  follow_from fuel handle none = pure none
  follow_from fuel handle (some initial) = do
    position_after_initial journal handle (last_entry initial.value)
    send_initial initial.value initial.warnings
    unless_stopped (follow_entries fuel handle)

  -- The sink and the predicate are functions, never empty.
  unfoldable pub follow : ℕ → LogQuery → Action W (Option Void)
  unfolding with_journal configure_journal select follow_from
  follow fuel query = with_journal journal (λ handle. do
    configure_journal journal handle query
    initial ← select journal fuel handle query.since query.limit
    follow_from fuel handle initial)
