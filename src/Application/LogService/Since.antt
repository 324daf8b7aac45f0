-- ===== src/Application/LogService/Since.antt =====
-- LogService::parseSince: a start time, as an age or as a date in local time. Reading a date and
-- converting local times is the C and C++ libraries' part.
use lx.Base.{
  Bytes, Option, ℤ, ℕ, text, ◌==◌, ◌||◌, ◌&&◌, ◌*◌, ◌%◌, ◌^◌, ◌-◌, Bool, false, some, none, is_nil,
  is_space, from, not, if◌then◌else◌, int_Eq, nat_Eq, leb, list_Eq, option_Eq,
}
use lx.Domain.{Result, success, failure}
use lx.Application.LogService.{invalid_log, last_byte, parse_relative}

-- the fields of `std::tm` that the source compares
pub record LocalTime : Type 0 where
  pub year : ℤ
  pub month : ℤ
  pub day : ℤ
  pub hour : ℤ
  pub minute : ℤ
  pub second : ℤ

-- `get_time`: "%Y-%m-%d %H:%M:%S" at the front of a text, with `tm_isdst` -1, and the rest of the text;
-- `make_time`: `mktime`; `local_time`: `localtime_r`
pub record TimeLibrary : Type 0 where
  pub get_time : Bytes → Option (LocalTime × Bytes)
  pub make_time : LocalTime → ℤ
  pub local_time : ℤ → Option LocalTime

unfoldable pub same_time : LocalTime → Option LocalTime → Bool
same_time expected none = false
same_time expected (some actual) =
    actual.year == expected.year
    && actual.month == expected.month
    && actual.day == expected.day
    && actual.hour == expected.hour
    && actual.minute == expected.minute
    && actual.second == expected.second

-- `from_time_t`: nanoseconds in a signed 64-bit count, in two's complement
unfoldable pub from_time : ℕ → ℤ
from_time seconds =
    let since = seconds * 1000000000 % 2 ^ 64 in
    if leb (2 ^ 63) since then ℤ.negsuc (2 ^ 64 - since - 1) else ℤ.pos since

unfoldable pub absolute_time : TimeLibrary → LocalTime → ℤ → Result ℤ
unfolding same_time
absolute_time times expected (ℤ.negsuc n) =
    invalid_log (text "Absolute time is not a valid local date") (text "parse since")
absolute_time times expected (ℤ.pos converted) =
    if same_time expected (times.local_time (ℤ.pos converted))
    then success (from_time converted)
    else invalid_log (text "Absolute time is not a valid local date") (text "parse since")

unfoldable pub parse_absolute : TimeLibrary → Option (LocalTime × Bytes) → Result ℤ
parse_absolute times none =
    invalid_log (text "Invalid absolute time; expected YYYY-MM-DD HH:MM:SS") (text "parse since")
parse_absolute times (some (expected, rest)) =
    if is_nil (from (λ c. not (is_space c)) rest)
    then absolute_time times expected (times.make_time expected)
    else invalid_log (text "Absolute time contains trailing characters") (text "parse since")

unfoldable pub as_time : Result ℕ → Result ℤ
as_time (success since) = success (ℤ.pos since)
as_time (failure e) = failure e

unfoldable pub parse_since : TimeLibrary → Bytes → ℕ → Result ℤ
parse_since times value now =
    let suffix = last_byte value in
    if not (is_nil value) && (suffix == b's' || suffix == b'm' || suffix == b'h' || suffix == b'd')
    then as_time (parse_relative value now)
    else parse_absolute times (times.get_time value)
