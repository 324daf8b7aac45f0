-- ===== src/Application/LogService.antt =====
-- src/application/LogService.cpp: log queries, and times given as an age such as "10m".
pub mod Ages
pub mod Queries
pub mod Since
mod Tests
use lx.Application.ServiceService.{normalize_unit}
use lx.Base.{
  zero, some, none, true, nat_Eq, list_Eq, int_Eq, option_Eq, [], Bytes, ℕ, Option, ℤ, ◌∷◌, take,
  text, if◌then◌else◌, ◌+◌, length, ltb, leb, not, Bool, ◌==◌, ◌^◌, positive, ◌-◌, is_some, ◌*◌,
  ◌&&◌, ◌/◌, ◌||◌, ◌%◌, List,
}
use lx.Domain.{
  Result, LogQuery, failure, success, make_error, invalid_argument, Observation, JournalEntry, Void,
}
use lx.Base.Decimal.{parse_unsigned, max_i64, max_u64}
use lx.Exec.{◌>>=◌, ◌>>◌, Action, lift, ask}
use lx.Contracts.{JournalProvider}

unfoldable pub invalid_log : {T : Type 0} → Bytes → Bytes → Result T
invalid_log message operation = failure (make_error invalid_argument message (text "log") operation)

unfoldable pub invalid_age : Result ℕ
invalid_age =
    invalid_log (text "Invalid relative time; use forms such as 30s, 10m, 2h, or 3d")
      (text "parse since")

-- `value.back()`, and the value without it
unfoldable pub last_byte : Bytes → ℕ
last_byte [] = 0
last_byte (c ∷ []) = c
last_byte (c ∷ d ∷ s) = last_byte (d ∷ s)

unfoldable pub without_last : Bytes → Bytes
without_last value = take (length value - 1) value

-- the seconds of a unit
unfoldable pub multiplier : ℕ → Option ℕ
multiplier c =
    if c == b's'
    then some 1
    else if c == b'm'
    then some 60
    else if c == b'h'
    then some 3600
    else if c == b'd'
    then some 86400
    else none

-- `now - seconds` in a signed 64-bit count of nanoseconds, in two's complement: `now` is not before
-- the epoch, and the numbers from 2 ^ 63 on stand for the negative ones.
unfoldable pub back_by : ℕ → ℕ → ℕ
back_by now seconds = (now + (2 ^ 64 - seconds * 1000000000 % 2 ^ 64)) % 2 ^ 64

unfoldable pub since_epoch : ℕ → Result ℕ
since_epoch since =
    if leb (2 ^ 63) since
    then invalid_log (text "Relative time precedes the Unix epoch") (text "parse since")
    else success since

unfoldable pub age_of : ℕ → ℕ → Option ℕ → Result ℕ
age_of now amount none =
    invalid_log (text "Invalid relative time unit; expected s, m, h, or d") (text "parse since")
age_of now amount (some factor) =
    if ltb (max_i64 / factor) amount
    then invalid_log (text "Relative time is out of range") (text "parse since")
    else since_epoch (back_by now (amount * factor % 2 ^ 64))

unfoldable pub age_from : Bytes → ℕ → Option ℕ → Result ℕ
age_from value now none = invalid_age
age_from value now (some amount) = age_of now amount (multiplier (last_byte value))

unfoldable pub parse_relative : Bytes → ℕ → Result ℕ
parse_relative value now =
    if ltb (length value) 2
    then invalid_age
    else age_from value now (parse_unsigned max_u64 (without_last value))

unfoldable pub valid_pid : Option ℤ → Bool
valid_pid none = true
valid_pid (some pid) = positive pid

unfoldable pub name_unit : LogQuery → Result Bytes → Result LogQuery
name_unit query (success name) = success (record query { unit = some name })
name_unit query (failure e) = failure e

unfoldable pub normalized_unit : LogQuery → Option Bytes → Result LogQuery
normalized_unit query none = success query
normalized_unit query (some unit) = name_unit query (normalize_unit unit)

unfoldable pub normalize : LogQuery → Result LogQuery
normalize query =
    if not (is_some query.unit) && not (is_some query.pid)
    then invalid_log (text "A service unit or PID is required for log queries")
        (text "validate query")
    else if not (valid_pid query.pid)
    then invalid_log (text "PID must be greater than zero") (text "validate query")
    else if query.limit == 0 || ltb 10000 query.limit
    then invalid_log (text "Log line limit must be between 1 and 10000") (text "validate query")
    else normalized_unit query query.unit

pub record LogService (W : Type 0) : Type 0 where
  pub journal_provider : JournalProvider W

module _ {W : Type 0} (self : LogService W) where
  open self use {journal_provider}

  unfoldable pub read : LogQuery → Action W (Observation (List JournalEntry))
  read query = do normalized ← lift (normalize query); ask (journal_provider.query normalized)

  unfoldable pub follow :
      LogQuery → (Observation JournalEntry → W → Result Void × W) → (W → Bool × W) → Action W Void
  follow query sink stop_requested = do
    normalized ← lift (normalize query)
    ask (journal_provider.follow (record normalized { follow = true }) sink stop_requested)
