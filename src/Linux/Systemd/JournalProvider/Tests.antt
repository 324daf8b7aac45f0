-- ===== src/Linux/Systemd/JournalProvider/Tests.antt =====
-- The provider at a journal of three entries, of which the last are the first that it gives back.
use lx.Exec.{◌>>=◌, ◌>>◌, observe, attempt, lift, pure}
use lx.Linux.Systemd.JournalFields.{journal_entry_from_fields, or_empty, time_point}
use lx.Base.{
  some, none, inl, inr, [], refl, ◌≡◌, pos, nat_Eq, list_Eq, int_Eq, option_Eq, ◌∷◌, ℕ, Option,
  text, length, List, ℤ, map, not, ◌==◌, ◌-◌, ltb, ◌+◌,
}
use lx.Domain.{LogQuery, Result, any_log, success, JournalEntry}
use lx.Exec.Returns.{Returns}
use lx.Linux.Systemd.SdJournal.{SdJournal}
use lx.Linux.Systemd.JournalProvider.{query, Entries}
use lx.Linux.Systemd.JournalProvider.Limit.{AtMost, query-length}
use lx.Linux.Errno.{enoent}

-- the number of entries in front of the position
abbrev journal : SdJournal ℕ
journal = record {
  system = record { number = λ e. pos 1; message = λ e. [] };
  open_local = λ w. (inr 1, w);
  close = λ h w. (tt, w);
  set_data_threshold = λ h n w. (none, w);
  add_match = λ h field w. (none, w);
  get_data = λ h field w. (inl enoent, w);
  get_realtime_usec = λ h w. (inr w, w);
  get_cursor = λ h w. (inr none, w);
  seek_tail = λ h w. (none, 3);
  seek_realtime_usec = λ h usec w. (none, 0);
  seek_cursor = λ h cursor w. (none, w);
  previous = λ h w. (inr (not (w == 0)), w - 1);
  next = λ h w. (inr (ltb w 3), w + 1);
  wait = λ h usec w. (none, w);
}

abbrev last_two : LogQuery
last_two = record any_log { unit = some (text "web.service"); limit = 2 }

abbrev times : Result (Option Entries) → List ℤ
times (success (some found)) = map (λ (e : JournalEntry). e.timestamp) found.value
times _ = []

found :
    times (query journal 9 last_two (record { world = 0; calls = [] })).0 ≡ pos 1000 ∷ pos 2000 ∷ []
unfolding query ◌>>=◌ observe attempt ◌>>◌ lift pure journal_entry_from_fields or_empty time_point
found = refl

query-length_example :
    Returns (AtMost 2 (λ (e : Entries). length e.value)) (query journal 9 last_two)
query-length_example = query-length journal 9 last_two
