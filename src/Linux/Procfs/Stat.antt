-- ===== src/Linux/Procfs/Stat.antt =====
-- StatParser.cpp: /proc/PID/stat, whose second field is a name in parentheses that may hold anything.
pub mod RoundTrip
use lx.Base.{
  some, none, nat_Eq, list_Eq, int_Eq, option_Eq, [], Option, ℤ, Bytes, starts_with, ℕ, ◌∷◌, text,
  if◌then◌else◌, Bool, any_of, ◌==◌, is_nil, ◌||◌, before, ◌&&◌, leb, length, ltb, drop, ◌+◌,
}
use lx.Base.Decimal.{at_end, parse_unsigned, from_chars_signed, max_u64, max_pid}
use lx.Domain.{Error, Result, failure, make_error, parse_error, success}

pub record StatRecord : Type 0 where
  pub pid : ℤ
  pub name : Bytes
  pub state : ℕ
  pub ppid : ℤ

unfoldable pub stat_error : Bytes → Error
stat_error message = make_error parse_error message (text "procfs-stat") (text "parse")

-- `parsePid` accepts what `from_chars` reads whole, if it is not negative.
unfoldable pub not_negative : Option ℤ → Option ℤ
not_negative none = none
not_negative (some (ℤ.pos n)) = some (ℤ.pos n)
not_negative (some (ℤ.negsuc n)) = none

unfoldable pub parse_pid : Bytes → Option ℤ
unfolding not_negative
parse_pid s = not_negative (at_end (from_chars_signed max_pid s))

-- `parseCounter`
unfoldable pub parse_counter : Bytes → Option ℕ
parse_counter s = parse_unsigned max_u64 s

unfoldable pub is_open : ℕ → Bool
is_open c = c == b'('

unfoldable pub closing : Bytes → Bool
unfolding starts_with text
closing s = starts_with (text ") ") s

abbrev pub extend : ℕ → Bytes → Option (Bytes × Bytes) → Option (Bytes × Bytes)
extend c s (some (p, q)) = some (c ∷ p, q)
extend c s none = if closing (c ∷ s) then some ([], c ∷ s) else none

-- The text in front of the last ") ", and the text from it on: `rfind(") ")`.
unfoldable pub split_close : Bytes → Option (Bytes × Bytes)
unfolding closing
split_close [] = none
split_close (c ∷ s) = extend c s (split_close s)

-- `while (!pidText.empty() && pidText.back() == ' ') pidText.remove_suffix(1);`
unfoldable pub strip_spaces : Bytes → Bytes
strip_spaces [] = []
strip_spaces (c ∷ s) =
    let rest = strip_spaces s in if is_nil rest && c == b' ' then [] else c ∷ rest

-- The text up to the first space, else up to the first newline, else all of it.
unfoldable pub ppid_text : Bytes → Bytes
ppid_text s =
    if any_of (λ c. c == b' ') s then before (λ c. c == b' ') s else before (λ c. c == b'\n') s

-- `contents[close + 2]`
unfoldable pub state_at : Bytes → ℕ
state_at (c ∷ d ∷ e ∷ s) = e
state_at _ = 0

-- the record, from the two numbers
unfoldable pub stat_record : Bytes → ℕ → Option ℤ → Option ℤ → Result StatRecord
stat_record name state none ppid = failure (stat_error (text "Invalid PID in process stat record"))
stat_record name state (some pid) none =
    failure (stat_error (text "Invalid PPID in process stat record"))
stat_record name state (some pid) (some ppid) =
    success (record { pid = pid; name = name; state = state; ppid = ppid })

-- with the position of the name found: `p` stands in front of the last ") ", `q` from it on
unfoldable pub parse_split : Bytes → Option (Bytes × Bytes) → Result StatRecord
parse_split head none = failure (stat_error (text "Malformed process stat record"))
parse_split head (some (p, q)) =
    if is_nil head || leb (length p) (length head) || ltb (length q) 4
    then failure (stat_error (text "Malformed process stat record"))
    else stat_record (drop (length head + 1) p) (state_at q) (parse_pid (strip_spaces head))
        (parse_pid (ppid_text (drop 4 q)))

unfoldable pub parse_stat : Bytes → Result StatRecord
parse_stat contents =
    if any_of is_open contents
    then parse_split (before is_open contents) (split_close contents)
    else failure (stat_error (text "Malformed process stat record"))
