-- ===== src/Linux/Procfs/Memory.antt =====
-- parseMemoryInfo of src/linux/procfs/SystemMetricsParser.cpp. The string stream is the text that is left.
pub mod Bounds
mod Tests
use lx.Base.{
  some, none, [], ◌∷◌, true, false, zero, suc, nat_Eq, list_Eq, int_Eq, option_Eq, Bytes, ℕ, Option,
  if◌then◌else◌, text, drop, from, is_nil, not, ltb, ◌==◌, ◌*◌, is_space, ◌||◌, before,
}
use lx.Domain.{success, failure, Result}
use lx.Linux.Procfs.Metrics.{metrics_failure}
use lx.Base.Decimal.{parse_unsigned, max_u64}

pub record MemoryRecord : Type 0 where
  pub total_bytes : ℕ
  pub available_bytes : ℕ

-- `input >> word`: the word, empty where there is none, and what is left
unfoldable pub read_word : Bytes → Bytes × Bytes
read_word input =
    let rest = from (λ c. not (is_space c)) input in (before is_space rest, from is_space rest)

pub record Row : Type 0 where
  pub key : Bytes
  pub value_text : Bytes
  pub unit : Bytes
  pub rest : Bytes

-- `input >> key >> valueText >> unit`
unfoldable pub read_row : Bytes → Option Row
read_row input =
    let (key, after_key) = read_word input in
    let (value_text, after_value) = read_word after_key in
    let (unit, rest) = read_word after_value in
    if is_nil key || is_nil value_text || is_nil unit
    then none
    else some (record { key = key; value_text = value_text; unit = unit; rest = rest })

-- `std::getline(input, ignored)`
unfoldable pub skip_line : Bytes → Bytes
skip_line input = drop 1 (from (λ c. c == 10) input)

-- a field is there where `hasTotal` or `hasAvailable` is set
pub record Memory : Type 0 where
  pub total : Option ℕ
  pub available : Option ℕ

abbrev pub total_key : Bytes
total_key = text "MemTotal:"

abbrev pub available_key : Bytes
available_key = text "MemAvailable:"

-- `std::numeric_limits<std::uint64_t>::max() / 1024U`
abbrev pub max_kibibytes : ℕ
max_kibibytes = 18014398509481983

unfoldable pub scaled : Option ℕ → Option ℕ
scaled none = none
scaled (some kibibytes) = if ltb max_kibibytes kibibytes then none else some (kibibytes * 1024)

unfoldable pub row_bytes : Row → Option ℕ
row_bytes row =
    if row.unit == text "kB" then scaled (parse_unsigned max_u64 row.value_text) else none

unfoldable pub put_bytes : Bytes → ℕ → Memory → Memory
put_bytes key bytes memory =
    if key == total_key
    then record memory { total = some bytes }
    else record memory { available = some bytes }

unfoldable pub memory_of : Option ℕ → Option ℕ → Result MemoryRecord
memory_of (some total) (some available) =
    if ltb total available
    then metrics_failure (text "Missing or inconsistent memory fields")
    else success (record { total_bytes = total; available_bytes = available })
memory_of none available = metrics_failure (text "Missing or inconsistent memory fields")
memory_of (some total) none = metrics_failure (text "Missing or inconsistent memory fields")

-- what the loop does with a row: the text and the fields that it goes on with, or an error
unfoldable pub put_row : Row → Option ℕ → Memory → Result (Bytes × Memory)
put_row row none memory = metrics_failure (text "Invalid memory value in /proc/meminfo")
put_row row (some bytes) memory = success (row.rest, put_bytes row.key bytes memory)

unfoldable pub after_row : Row → Memory → Result (Bytes × Memory)
after_row row memory =
    if row.key == total_key || row.key == available_key
    then put_row row (row_bytes row) memory
    else success (skip_line row.rest, memory)

-- the rest of the loop behind a row
unfoldable pub go_on :
    (Bytes → Memory → Option (Result MemoryRecord))
    → Result (Bytes × Memory)
    → Option (Result MemoryRecord)
go_on continue (failure e) = some (failure e)
go_on continue (success next) = continue next.0 next.1

unfoldable pub with_row :
    (Bytes → Memory → Option (Result MemoryRecord))
    → Option Row
    → Memory
    → Option (Result MemoryRecord)
with_row continue none memory = some (memory_of memory.total memory.available)
with_row continue (some row) memory = go_on continue (after_row row memory)

-- the loop, on fuel
unfoldable pub read_rows : ℕ → Bytes → Memory → Option (Result MemoryRecord)
read_rows zero input memory = none
read_rows (suc fuel) input memory = with_row (read_rows fuel) (read_row input) memory

unfoldable pub parse_memory_info : ℕ → Bytes → Option (Result MemoryRecord)
parse_memory_info fuel contents =
    read_rows fuel contents (record { total = none; available = none })
