-- ===== src/Linux/Procfs/Status.antt =====
-- StatusParser.cpp: /proc/PID/status, lines of a key, a colon and a value.
pub mod Tokens
pub mod Keys
pub mod Shown
use lx.Base.{
  some, none, true, false, nat_Eq, list_Eq, int_Eq, option_Eq, [], ℕ, List, Bool, Bytes, not,
  pieces, if◌then◌else◌, ◌==◌, before, text, ◌∷◌, ◌||◌, from, ltb, ◌/◌, ◌*◌, ◌%◌, ◌^◌, Option,
}
use lx.Domain.{Result, failure, success, make_error, parse_error}
use lx.Base.Decimal.{parse_unsigned, max_u64, max_u32}

pub record StatusRecord : Type 0 where
  pub uid : ℕ
  pub gid : ℕ
  pub threads : ℕ
  pub rss_bytes : ℕ

-- the record that the loop fills, and the fields that it has seen
pub record Progress : Type 0 where
  pub status : StatusRecord
  pub has_uid : Bool
  pub has_gid : Bool
  pub has_threads : Bool

unfoldable pub status_failure : {T : Type 0} → Bytes → Result T
status_failure message =
    failure (make_error parse_error message (text "procfs-status") (text "parse"))

unfoldable pub leading_blank : ℕ → Bool
leading_blank c = c == b' ' || c == b'\t'

unfoldable pub ends_token : ℕ → Bool
ends_token c = c == b' ' || c == b'\t' || c == b'\r'

unfoldable pub not_leading_blank : ℕ → Bool
not_leading_blank c = not (leading_blank c)

-- What `find_first_not_of` leaves, up to what `find_first_of` finds.
unfoldable pub first_token : Bytes → Bytes
first_token value = before ends_token (from not_leading_blank value)

unfoldable pub is_colon : ℕ → Bool
is_colon c = c == b':'

unfoldable pub fill_field : Bytes → (ℕ → Progress) → Option ℕ → Result Progress
fill_field message fill none = status_failure message
fill_field message fill (some value) = success (fill value)

-- `fill`, if the text is a number of the field's type
unfoldable pub read_field : ℕ → Bytes → Bytes → (ℕ → Progress) → Result Progress
read_field max token message fill = fill_field message fill (parse_unsigned max token)

-- The resident set is in units of 1024 bytes.
unfoldable pub rss_of : Progress → Option ℕ → Result Progress
rss_of seen none = status_failure (text "Invalid VmRSS field")
rss_of seen (some kib) =
    if ltb (max_u64 / 1024) kib
    then status_failure (text "Invalid VmRSS field")
    else success (record seen { status = record seen.status { rss_bytes = kib * 1024 % 2 ^ 64 } })

unfoldable pub read_rss : Bytes → Progress → Result Progress
unfolding rss_of
read_rss token seen = rss_of seen (parse_unsigned max_u64 token)

unfoldable pub read_key : Bytes → Bytes → Progress → Result Progress
read_key key token seen =
    if key == text "Uid"
    then read_field max_u32 token (text "Invalid Uid field")
        (λ n. record seen { status = record seen.status { uid = n }; has_uid = true })
    else if key == text "Gid"
    then read_field max_u32 token (text "Invalid Gid field")
        (λ n. record seen { status = record seen.status { gid = n }; has_gid = true })
    else if key == text "Threads"
    then read_field max_u32 token (text "Invalid Threads field")
        (λ n. record seen { status = record seen.status { threads = n }; has_threads = true })
    else if key == text "VmRSS"
    then read_rss token seen
    else success seen

-- the value behind the colon; a line without a colon is passed over
unfoldable pub read_value : Bytes → Bytes → Progress → Result Progress
read_value key [] seen = success seen
read_value key (colon ∷ value) seen = read_key key (first_token value) seen

unfoldable pub read_line : Bytes → Progress → Result Progress
unfolding read_value
read_line line seen = read_value (before is_colon line) (from is_colon line) seen

unfoldable pub read_lines : List Bytes → Result Progress → Result Progress
read_lines lines (failure e) = failure e
read_lines [] (success seen) = success seen
read_lines (line ∷ lines) (success seen) = read_lines lines (read_line line seen)

unfoldable pub complete : Result Progress → Result StatusRecord
complete (failure e) = failure e
complete (success seen) =
    if not seen.has_uid || not seen.has_gid || not seen.has_threads
    then status_failure (text "Required process status field is missing")
    else success seen.status

abbrev pub nothing_seen : Progress
nothing_seen = record {
  status = record { uid = 0; gid = 0; threads = 0; rss_bytes = 0 };
  has_uid = false;
  has_gid = false;
  has_threads = false;
}

unfoldable pub newline : ℕ → Bool
newline c = c == b'\n'

unfoldable pub parse_status : Bytes → Result StatusRecord
unfolding complete
parse_status contents = complete (read_lines (pieces newline contents) (success nothing_seen))
