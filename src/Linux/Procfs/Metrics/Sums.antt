-- ===== src/Linux/Procfs/Metrics/Sums.antt =====
-- What parseCpuTimes of SystemMetricsParser.cpp adds up.
use lx.Linux.Procfs.Metrics.{
  add_idle, checked_add, add_counters, add_value, metrics_failure, invalid_counter, Spells, is_idle,
  sum_of, idle_from, add_counter, cpu_row, parse_cpu_times, row_words,
}
use lx.Base.{
  suc, refl, some, none, [], ℕ, List, ◌≤◌, ◌≡◌, Option, ◌+◌, Bytes, arith, if◌then◌else◌, ◌∷◌,
  length, Bool-cases, inl, inr, false, ltb, ◌-◌, ◌%◌, ◌^◌, ap, sym, ◌∙◌, nat_Eq, list_Eq, int_Eq,
  option_Eq, text, ◌==◌, list_eq_iff,
}
use lx.Base.Decimal.{max_u64, parse_unsigned}
use lx.Domain.{success, Result, failure, CpuTimes}

-- The times grew by the values of the words, whose positions start at `index`, and did not wrap.
pub record SumsFrom (index : ℕ) (start : CpuTimes) (tokens : List Bytes) (times : CpuTimes)
    : Type 0 where
  pub values : List ℕ
  pub spelled : Spells tokens values
  pub enough : 4 ≤ index + length tokens
  pub total : times.total_ticks ≡ start.total_ticks + sum_of values
  pub idle : times.idle_ticks ≡ start.idle_ticks + idle_from index values
  pub idle_le_total : times.idle_ticks ≤ times.total_ticks
  pub fits : times.total_ticks ≤ max_u64

checked_add-exact :
    (s v t : ℕ) → s ≤ max_u64 → checked_add s v ≡ some t → (t ≡ s + v) × (t ≤ max_u64)
unfolding checked_add
checked_add-exact s v t b h = ground arith

record Grows (index : ℕ) (start : CpuTimes) (v : ℕ) (times : CpuTimes) : Type 0 where
  pub total : times.total_ticks ≡ start.total_ticks + v
  pub idle : times.idle_ticks ≡ start.idle_ticks + (if is_idle index then v else 0)
  pub fits : times.total_ticks ≤ max_u64

add_idle-lem :
    (index i v : ℕ) (times : CpuTimes) (total : Option ℕ)
    → i ≤ max_u64
    → add_idle index i v total ≡ success times
    → (total ≡ some times.total_ticks) × (times.idle_ticks ≡ i + (if is_idle index then v else 0))
unfolding add_idle invalid_counter metrics_failure checked_add
add_idle-lem index i v times none b h = absurd cc
add_idle-lem index i v times (some total) b h = elim (Bool-cases (is_idle index)) [
  | inl idle ↦ elim (Bool-cases (ltb (max_u64 - i) v)) [
    | inl over ↦ absurd (ground arith)
    | inr fine ↦
        let w : (i + v) % 2 ^ 64 ≡ i + v = ground arith in
        let is : ◌≡◌ {A = CpuTimes} (record { total_ticks = total; idle_ticks = (i + v) % 2 ^ 64 })
            times =
          ground arith in
        (
          ap (λ (x : CpuTimes). some x.total_ticks) is,
          rw idle (sym (ap (λ (x : CpuTimes). x.idle_ticks) is) ∙ w),
        )
  ]
  | inr busy ↦
      let is : ◌≡◌ {A = CpuTimes} (record { total_ticks = total; idle_ticks = i }) times =
        ground arith in
      (ap (λ (x : CpuTimes). some x.total_ticks) is, rw busy (ground arith))
]

add_value-Grows :
    (index v : ℕ) (start times : CpuTimes)
    → start.idle_ticks ≤ start.total_ticks
    → start.total_ticks ≤ max_u64
    → add_value index start (some v) ≡ success times
    → Grows index start v times
unfolding add_value
add_value-Grows index v start times i b h =
    let (t, e) =
      add_idle-lem index start.idle_ticks v times (checked_add start.total_ticks v) (omega arith)
        h in
    let (a, f) = checked_add-exact start.total_ticks v times.total_ticks b t in
    record { total = a; idle = e; fits = f }

grow_le :
    (index v : ℕ) (start times : CpuTimes)
    → start.idle_ticks ≤ start.total_ticks
    → Grows index start v times
    → times.idle_ticks ≤ times.total_ticks
grow_le index v start times i w = let a = w.total in let b = w.idle in ground (arith, a, b)

prepend :
    (index v : ℕ) (start next times : CpuTimes) (token : Bytes) (tokens : List Bytes)
    → parse_unsigned max_u64 token ≡ some v
    → Grows index start v next
    → SumsFrom (suc index) next tokens times
    → SumsFrom index start (token ∷ tokens) times
prepend index v start next times token tokens q w rest = record {
  values = v ∷ rest.values;
  spelled = (q, rest.spelled);
  enough = omega (arith, rest.enough);
  total = omega (arith, rest.total, w.total);
  idle = omega (arith, rest.idle, w.idle);
  idle_le_total = rest.idle_le_total;
  fits = rest.fits;
}

-- Where the loop succeeds, the word was read, and the loop went on with the times it leaves.
add_value-next :
    (index : ℕ) (start times : CpuTimes) (tokens : List Bytes) (p : Option ℕ) (r : Result CpuTimes)
    → add_value index start p ≡ r
    → add_counters (suc index) tokens r ≡ success times
    → (v : ℕ) × (next : CpuTimes) × (p ≡ some v)
      × (add_value index start (some v) ≡ success next)
      × (add_counters (suc index) tokens (success next) ≡ success times)
unfolding add_counters add_value invalid_counter metrics_failure
add_value-next index start times tokens p (failure e) g k = absurd cc
add_value-next index start times tokens none (success next) g k = absurd cc
add_value-next index start times tokens (some v) (success next) g k = (v, next, refl, g, k)

add_counters-SumsFrom :
    (index : ℕ) (tokens : List Bytes) (start times : CpuTimes)
    → start.idle_ticks ≤ start.total_ticks
    → start.total_ticks ≤ max_u64
    → add_counters index tokens (success start) ≡ success times
    → SumsFrom index start tokens times
unfolding add_counters add_counter add_value invalid_counter metrics_failure
add_counters-SumsFrom index [] start times i b h =
    let long : ltb index 4 ≡ false = ground arith in
    let is : start ≡ times = ground arith in
    let t : start.total_ticks ≡ times.total_ticks = ap (λ (x : CpuTimes). x.total_ticks) is in
    let e : start.idle_ticks ≡ times.idle_ticks = ap (λ (x : CpuTimes). x.idle_ticks) is in
    record {
      values = [];
      spelled = tt;
      enough = ground arith;
      total = omega arith;
      idle = omega arith;
      idle_le_total = omega arith;
      fits = omega arith;
    }
add_counters-SumsFrom index (token ∷ tokens) start times i b h =
    let (v, next, q, g, k) =
      add_value-next index start times tokens (parse_unsigned max_u64 token)
        (add_counter index start token) refl h in
    let w = add_value-Grows index v start next i b g in
    prepend index v start next times token tokens q w (
      add_counters-SumsFrom (suc index) tokens next times (grow_le index v start next i w) w.fits k)

abbrev pub no_ticks : CpuTimes
no_ticks = record { total_ticks = 0; idle_ticks = 0 }

cpu_row-SumsFrom :
    (row : List Bytes) (times : CpuTimes)
    → cpu_row row ≡ success times
    → (tokens : List Bytes) × (row ≡ text "cpu" ∷ tokens) × SumsFrom 0 no_ticks tokens times
unfolding cpu_row metrics_failure
cpu_row-SumsFrom [] times h = absurd cc
cpu_row-SumsFrom (label ∷ tokens) times h = elim (Bool-cases (label == text "cpu")) [
  | inl same ↦ (
    tokens,
    ap (λ (l : Bytes). l ∷ tokens) ((list_eq_iff label (text "cpu")).0 same),
    add_counters-SumsFrom 0 tokens no_ticks times (ground arith) (ground arith) (ground arith),
  )
  | inr other ↦ absurd (ground arith)
]

-- parseCpuTimes succeeds only on a first line of "cpu" and at least four words, each of which is a
-- number. The total is then the sum of all the numbers and the idle time that of the fourth and the
-- fifth, neither of which wraps around, and the idle time is at most the total.
pub parse_cpu_times-SumsFrom :
    (contents : Bytes) (times : CpuTimes)
    → parse_cpu_times contents ≡ success times
    → (tokens : List Bytes) × (row_words contents ≡ text "cpu" ∷ tokens)
      × SumsFrom 0 no_ticks tokens times
unfolding parse_cpu_times
parse_cpu_times-SumsFrom contents times h = cpu_row-SumsFrom (row_words contents) times h
