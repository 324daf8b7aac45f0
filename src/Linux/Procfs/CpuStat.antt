-- ===== src/Linux/Procfs/CpuStat.antt =====
-- StatParser.cpp, `parseProcessCpuStat`: the CPU time of a process.
use lx.Linux.Procfs.Stat.{StatRecord, parse_stat, stat_error, split_close, parse_counter}
use lx.Base.{
  zero, suc, refl, some, none, nat_Eq, list_Eq, int_Eq, option_Eq, [], Bytes, Option, ℤ, ℕ, drop,
  ◌≡◌, Bool, List, ◌==◌, ◌+◌, ◌≤◌, ◌∷◌, if◌then◌else◌, ◌||◌, leb, ltb, ◌-◌, Bool-cases, words,
  length, inl, text, inr, ◌%◌, ◌^◌, arith, ◌<◌, ap, sym, ◌∙◌,
}
use lx.Domain.{Result, failure, success, ProcessCpuSample}
use lx.Base.Decimal.{max_u64, parse_unsigned-le}

-- the separators of the fields: " \t\r\n"
unfoldable pub is_blank : ℕ → Bool
is_blank c = c == b' ' || c == b'\t' || c == b'\r' || c == b'\n'

-- the text from the parent's PID on, `contents.substr(close + 4)`
unfoldable pub behind_state : Option (Bytes × Bytes) → Bytes
behind_state none = []
behind_state (some (p, q)) = drop 4 q

-- `fields[i]`, within the fields
unfoldable pub field_at : ℕ → List Bytes → Bytes
field_at i [] = []
field_at zero (x ∷ xs) = x
field_at (suc i) (x ∷ xs) = field_at i xs

-- the sum of the two times, where it fits
unfoldable pub cpu_sample : ℤ → Option ℕ → Option ℕ → Option ℕ → Result ProcessCpuSample
cpu_sample pid (some user) (some system) (some start) =
    if ltb (max_u64 - user) system
    then failure (stat_error (text "Invalid process CPU stat counters"))
    else success
        (record { pid = pid; start_time_ticks = start; cpu_time_ticks = (user + system) % 2 ^ 64 })
cpu_sample pid _ _ _ = failure (stat_error (text "Invalid process CPU stat counters"))

unfoldable pub cpu_fields : ℤ → List Bytes → Result ProcessCpuSample
cpu_fields pid fields =
    if leb (length fields) 18
    then failure (stat_error (text "Incomplete process CPU stat record"))
    else cpu_sample pid (parse_counter (field_at 10 fields)) (parse_counter (field_at 11 fields))
        (parse_counter (field_at 18 fields))

-- the fields from the parent's PID on
unfoldable pub fields_of : Bytes → List Bytes
fields_of contents = words is_blank (behind_state (split_close contents))

unfoldable pub cpu_of : Bytes → Result StatRecord → Result ProcessCpuSample
cpu_of contents (failure e) = failure e
cpu_of contents (success basic) = cpu_fields basic.pid (fields_of contents)

unfoldable pub parse_process_cpu_stat : Bytes → Result ProcessCpuSample
unfolding cpu_of
parse_process_cpu_stat contents = cpu_of contents (parse_stat contents)

-- What the times of a sample are.
pub record IsCpuTime (user system start : Option ℕ) (sample : ProcessCpuSample) : Type 0 where
  pub user_ticks : ℕ
  pub system_ticks : ℕ
  pub user_read : user ≡ some user_ticks
  pub system_read : system ≡ some system_ticks
  pub start_read : start ≡ some sample.start_time_ticks
  pub exact : sample.cpu_time_ticks ≡ user_ticks + system_ticks

cpu_sample-IsCpuTime :
    (pid : ℤ) (u s t : Option ℕ) (sample : ProcessCpuSample)
    → ((n : ℕ) → u ≡ some n → n ≤ max_u64)
    → cpu_sample pid u s t ≡ success sample
    → IsCpuTime u s t sample
unfolding cpu_sample
cpu_sample-IsCpuTime pid none s t sample b h = absurd cc
cpu_sample-IsCpuTime pid (some u) none t sample b h = absurd cc
cpu_sample-IsCpuTime pid (some u) (some s) none sample b h = absurd cc
cpu_sample-IsCpuTime pid (some u) (some s) (some t) sample b h =
    let fits : u ≤ max_u64 = b u refl in
    elim (Bool-cases (ltb (max_u64 - u) s)) [
      | inl over ↦ absurd (ground arith)
      | inr fine ↦
          let total : (u + s) % 2 ^ 64 ≡ u + s = ground arith in
          let is : ◌≡◌ {A = ProcessCpuSample}
              (record { pid = pid; start_time_ticks = t; cpu_time_ticks = (u + s) % 2 ^ 64 })
              sample =
            ground arith in
          record {
            user_ticks = u;
            system_ticks = s;
            user_read = refl;
            system_read = refl;
            start_read = ap (λ (x : ProcessCpuSample). some x.start_time_ticks) is;
            exact = sym (ap (λ (x : ProcessCpuSample). x.cpu_time_ticks) is) ∙ total;
          }
    ]

cpu_of-IsCpuTime :
    (contents : Bytes) (r : Result StatRecord) (sample : ProcessCpuSample)
    → cpu_of contents r ≡ success sample
    → (18 < length (fields_of contents))
      × IsCpuTime
          (parse_counter (field_at 10 (fields_of contents)))
          (parse_counter (field_at 11 (fields_of contents)))
          (parse_counter (field_at 18 (fields_of contents)))
          sample
unfolding cpu_of cpu_fields parse_counter
cpu_of-IsCpuTime contents (failure e) sample h = absurd cc
cpu_of-IsCpuTime contents (success basic) sample h =
    let fields = fields_of contents in
    elim (Bool-cases (leb (length fields) 18)) [
      | inl few ↦ absurd (ground arith)
      | inr enough ↦ (
        ground arith,
        cpu_sample-IsCpuTime basic.pid _ _ _ sample (parse_unsigned-le max_u64 (field_at 10 fields))
            (ground arith),
      )
    ]

-- A sample comes from a record of at least 19 fields behind the state, three of which are numbers:
-- its start is one of them, and its CPU time is the sum of the other two, which does not wrap around.
pub parse_process_cpu_stat-IsCpuTime :
    (contents : Bytes) (sample : ProcessCpuSample)
    → parse_process_cpu_stat contents ≡ success sample
    → (18 < length (fields_of contents))
      × IsCpuTime
          (parse_counter (field_at 10 (fields_of contents)))
          (parse_counter (field_at 11 (fields_of contents)))
          (parse_counter (field_at 18 (fields_of contents)))
          sample
unfolding parse_process_cpu_stat
parse_process_cpu_stat-IsCpuTime contents sample h =
    cpu_of-IsCpuTime contents (parse_stat contents) sample h
