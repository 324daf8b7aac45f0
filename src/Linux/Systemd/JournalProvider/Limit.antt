-- ===== src/Linux/Systemd/JournalProvider/Limit.antt =====
-- How many entries a query returns.
use mathlib.Core.Option
use lx.Base.{
  some, none, Option, List, [], zero, suc, true, false, ◌≡◌, ◌≤◌, ℕ, length, ◌+◌, Bool, arith, ℤ,
  ◌∷◌, length-append, ◌⊎◌, inl, inr,
}
use lx.Linux.Systemd.SdJournal.{SdJournal, owning_journal, with_journal}
use lx.Linux.Systemd.JournalProvider.{
  slide, append_entries, tail_entries, query_from, since_entries, after_previous, select,
  append_entry, after_next, Entries, query_tail, query_since, no_entries, since_usec, query,
}
use lx.Domain.{Observation, JournalEntry, LogQuery}
use lx.Exec.Returns.{
  Returns, Returns-fail, Returns-pure, Returns-bind, Returns-after, Returns-weaken, Returns-then,
  Returns-attempt, Returns-lift,
}
use lx.Exec.{Action, pure}
use lx.Linux.Errno.{Errno}

append_entries-length :
    (target : Entries) (sources : List (Observation JournalEntry))
    → length (append_entries target sources).value ≡ length target.value + length sources
unfolding append_entries append_entry
append_entries-length target [] = omega arith
append_entries-length target (source ∷ rest) =
    let sum = length-append target.value (source.value ∷ []) in
    omega (arith, sum, append_entries-length (append_entry target source) rest)

slide-length :
    (limit : ℕ) (window : List (Observation JournalEntry)) (entry : Observation JournalEntry)
    → length window ≤ limit
    → length (slide limit window entry) ≤ limit
unfolding slide
slide-length limit [] entry h = ground arith
slide-length limit (first ∷ window) entry h =
    let sum = length-append window (entry ∷ []) in ground (arith, sum)

-- the entries of the result, where there is one
abbrev pub AtMost : {A : Type 0} → ℕ → (A → ℕ) → Option A → Type 0
AtMost limit size none = Unit
AtMost limit size (some found) = size found ≤ limit

module _ {W : Type 0} (journal : SdJournal W) (handle : ℕ) where
  after_previous-length :
      (more : List (Observation JournalEntry) → Action W (List (Observation JournalEntry)))
      (left : ℕ) (entries : List (Observation JournalEntry)) (found : Bool)
      → ((longer : List (Observation JournalEntry))
          → Returns (λ all. length all ≤ left + length longer) (more longer))
      → Returns
          (λ all. length all ≤ suc left + length entries)
          (after_previous journal handle more entries found)
  unfolding after_previous
  after_previous-length more left entries false h = Returns-pure _ entries (omega arith)
  after_previous-length more left entries true h =
      Returns-after _ _ _
        (λ entry. Returns-weaken _ _ _ (h (entry ∷ entries)) (λ all bound. omega arith))

  tail_entries-length :
      (left : ℕ) (entries : List (Observation JournalEntry))
      → Returns
          (λ all. length all ≤ left + length entries)
          (tail_entries journal handle left entries)
  unfolding tail_entries
  tail_entries-length zero entries = Returns-pure _ entries (omega arith)
  tail_entries-length (suc left) entries = Returns-after _ _ _ (λ status.
      Returns-after _ _ _ (λ found.
        after_previous-length (tail_entries journal handle left) left entries found
          (tail_entries-length left)))

  after_next-length :
      (limit : ℕ)
      (more : List (Observation JournalEntry) → Action W (Option (List (Observation JournalEntry))))
      (window : List (Observation JournalEntry)) (found : Bool)
      → length window ≤ limit
      → ((next : List (Observation JournalEntry))
          → length next ≤ limit
          → Returns (AtMost limit length) (more next))
      → Returns (AtMost limit length) (after_next journal handle limit more window found)
  unfolding after_next
  after_next-length limit more window false small h = Returns-pure _ (some window) small
  after_next-length limit more window true small h =
      Returns-after _ _ _
        (λ entry. h (slide limit window entry) (slide-length limit window entry small))

  since_entries-length :
      (fuel limit : ℕ) (window : List (Observation JournalEntry))
      → length window ≤ limit
      → Returns (AtMost limit length) (since_entries journal fuel handle limit window)
  unfolding since_entries
  since_entries-length zero limit window small = Returns-pure _ none tt
  since_entries-length (suc fuel) limit window small = Returns-after _ _ _ (λ status.
      Returns-after _ _ _
        (λ found. after_next-length limit _ window found small (since_entries-length fuel limit)))

  query_from-length :
      (fuel limit : ℕ) (usec : Option ℕ)
      → Returns
          (AtMost limit (λ (e : Entries). length e.value))
          (query_from journal fuel handle limit usec)
  unfolding query_from
  query_from-length fuel limit none = Returns-fail _ _
  query_from-length fuel limit (some usec) = Returns-after _ _ _ (λ status.
      Returns-then _ _ _
        (Returns-bind _ _ _ _ (since_entries-length fuel limit [] (omega arith)) appended))
    where
      appended :
          (window : Option (List (Observation JournalEntry)))
          → AtMost limit length window
          → Returns {W = W}
              (AtMost limit (λ (e : Entries). length e.value))
              (pure (Option.map (append_entries no_entries) window))
      appended none small = Returns-pure _ none tt
      appended (some window) small =
          Returns-pure _ (some (append_entries no_entries window))
            (omega (arith, append_entries-length no_entries window))

  select-length :
      (fuel limit : ℕ) (since : Option ℤ)
      → Returns
          (AtMost limit (λ (e : Entries). length e.value))
          (select journal fuel handle since limit)
  unfolding select query_tail query_since
  select-length fuel limit none =
      Returns-bind _ (λ (e : Entries). length e.value ≤ limit) _ _
        (Returns-after _ _ _ (λ status. Returns-then _ _ _ (
          Returns-bind _ _ _ _ (tail_entries-length limit []) (λ entries small.
            Returns-pure _ _ (omega (arith, append_entries-length no_entries entries))))))
        (λ entries small. Returns-pure _ (some entries) small)
  select-length fuel limit (some since) = query_from-length fuel limit (since_usec since)

module _ {W : Type 0} (journal : SdJournal W) where
  owning_journal-Returns :
      {A : Type 0} (P : A → Type 0) (opened : Errno ⊎ ℕ) (rest : ℕ → Action W A)
      → ((handle : ℕ) → Returns P (rest handle))
      → Returns P (owning_journal journal opened rest)
  unfolding owning_journal
  owning_journal-Returns P (inl number) rest h = Returns-fail _ _
  owning_journal-Returns P (inr handle) rest h =
      Returns-bind _ _ _ _ (Returns-attempt P (rest handle) (h handle))
        (λ result valid. Returns-then _ _ _ (Returns-lift _ result valid))

  -- Whatever the journal answers, a query that succeeds returns at most as many entries as its limit,
  -- with a start time or without one.
  pub query-length :
      (fuel : ℕ) (log_query : LogQuery)
      → Returns
          (AtMost log_query.limit (λ (e : Entries). length e.value))
          (query journal fuel log_query)
  unfolding query with_journal
  query-length fuel log_query = Returns-after _ _ _ (λ opened.
      owning_journal-Returns _ opened _ (λ handle.
        Returns-then _ _ _ (select-length journal handle fuel log_query.limit log_query.since)))
