-- ===== src/Linux/Procfs/Metrics.antt =====
-- SystemMetricsParser.cpp: the aggregate CPU row and the number of CPUs of /proc/stat.
pub mod Sums
use lx.Base.{
  suc, some, none, false, nat_Eq, list_Eq, int_Eq, option_Eq, [], List, ℕ, Bytes, pieces, ◌∷◌,
  Option, Bool, words, text, if◌then◌else◌, ltb, ◌==◌, starts_with, ◌+◌, is_space, ◌-◌, ◌≡◌, ◌&&◌,
  ◌%◌, ◌||◌, before, drop, ◌^◌,
}
use lx.Domain.{Result, failure, success, make_error, parse_error, CpuTimes}
use lx.Base.Decimal.{parse_unsigned, max_u64, is_digit}

unfoldable pub metrics_failure : {T : Type 0} → Bytes → Result T
metrics_failure message =
    failure (make_error parse_error message (text "procfs-metrics") (text "parse"))

unfoldable pub checked_add : ℕ → ℕ → Option ℕ
checked_add sum value = if ltb (max_u64 - sum) value then none else some ((sum + value) % 2 ^ 64)

unfoldable pub invalid_counter : Result CpuTimes
invalid_counter = metrics_failure (text "Invalid CPU counter in /proc/stat")

-- The counters of the idle task and of waiting for input and output.
unfoldable pub is_idle : ℕ → Bool
is_idle index = index == 3 || index == 4

unfoldable pub add_idle : ℕ → ℕ → ℕ → Option ℕ → Result CpuTimes
unfolding is_idle
add_idle index idle value none = invalid_counter
add_idle index idle value (some total) =
    if is_idle index
    then elim (checked_add idle value) [
      | none ↦ metrics_failure (text "CPU idle counter overflow in /proc/stat")
      | some sum ↦ success (record { total_ticks = total; idle_ticks = sum })
    ]
    else success (record { total_ticks = total; idle_ticks = idle })

unfoldable pub add_value : ℕ → CpuTimes → Option ℕ → Result CpuTimes
add_value index times none = invalid_counter
add_value index times (some value) =
    add_idle index times.idle_ticks value (checked_add times.total_ticks value)

unfoldable pub add_counter : ℕ → CpuTimes → Bytes → Result CpuTimes
unfolding add_value
add_counter index times token = add_value index times (parse_unsigned max_u64 token)

-- the loop, and the test behind it
unfoldable pub add_counters : ℕ → List Bytes → Result CpuTimes → Result CpuTimes
add_counters index tokens (failure e) = failure e
add_counters index [] (success times) =
    if ltb index 4
    then metrics_failure (text "Incomplete aggregate CPU row in /proc/stat")
    else success times
add_counters index (token ∷ tokens) (success times) =
    add_counters (suc index) tokens (add_counter index times token)

unfoldable pub cpu_row : List Bytes → Result CpuTimes
cpu_row [] = metrics_failure (text "Missing aggregate CPU row in /proc/stat")
cpu_row (label ∷ tokens) =
    if label == text "cpu"
    then add_counters 0 tokens (success (record { total_ticks = 0; idle_ticks = 0 }))
    else metrics_failure (text "Missing aggregate CPU row in /proc/stat")

unfoldable pub is_newline : ℕ → Bool
is_newline c = c == b'\n'

-- the words of the first line
unfoldable pub row_words : Bytes → List Bytes
row_words contents = words is_space (before is_newline contents)

unfoldable pub parse_cpu_times : Bytes → Result CpuTimes
parse_cpu_times contents = cpu_row (row_words contents)

unfoldable pub first_is_digit : Bytes → Bool
first_is_digit [] = false
first_is_digit (c ∷ s) = is_digit c

-- A row of one CPU: "cpu" and a digit.
unfoldable pub is_cpu_line : Bytes → Bool
unfolding first_is_digit
is_cpu_line line = starts_with (text "cpu") line && first_is_digit (drop 3 line)

-- `count` is a 32-bit number.
unfoldable pub count_lines : ℕ → List Bytes → ℕ
count_lines count [] = count
count_lines count (line ∷ lines) =
    count_lines (if is_cpu_line line then (count + 1) % 2 ^ 32 else count) lines

unfoldable pub at_least_one : ℕ → ℕ
at_least_one count = if count == 0 then 1 else count

unfoldable pub count_logical_cpus : Bytes → ℕ
count_logical_cpus contents = at_least_one (count_lines 0 (pieces is_newline contents))

-- The sum of the idle counters among values whose positions start at `index`.
abbrev pub idle_from : ℕ → List ℕ → ℕ
idle_from index [] = 0
idle_from index (v ∷ vs) = (if is_idle index then v else 0) + idle_from (suc index) vs

abbrev pub sum_of : List ℕ → ℕ
sum_of [] = 0
sum_of (v ∷ vs) = v + sum_of vs

-- The numbers that the words spell.
abbrev pub Spells : List Bytes → List ℕ → Type 0
Spells [] [] = Unit
Spells (w ∷ ws) (v ∷ vs) = (parse_unsigned max_u64 w ≡ some v) × Spells ws vs
Spells _ _ = ⊥
