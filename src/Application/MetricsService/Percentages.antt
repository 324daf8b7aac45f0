-- ===== src/Application/MetricsService/Percentages.antt =====
-- What `compare` of MetricsService.cpp measures.
use lx.Base.{
  some, none, [], ◌∷◌, inl, inr, ℕ, ◌<◌, ◌≡◌, ℤ, ◌≤◌, Option, List, Bool-cases, In, ltb, ◌*◌, arith,
  All, refl, nat_Eq, list_Eq, int_Eq, option_Eq, ◌-◌, if◌then◌else◌, ◌==◌, not, ◌⊎◌, ◌&&◌,
  int_eq_iff, leb, ◌||◌, ap, sym, ◌∙◌, true,
}
use lx.Application.MetricsService.{
  host_percent, memory_used, old_sample, clamp, comparable, at_least_one_cpu, process_percents,
  compare, later_or, process_percent, assign_some, assign,
}
use lx.Domain.{
  MetricsSnapshot, Fraction, SystemMetricsSample, MetricsView, CpuTimes, ProcessCpuSample,
}

-- a quotient of at most `n`
abbrev pub AtMost : ℕ → Fraction → Type 0
AtMost n f = (0 < f.denominator) × (f.numerator ≤ n * f.denominator)

-- A percentage of a process: it is in both samples as one that started at the same time, and its CPU
-- time did not go back.
pub record IsShare (previous current : MetricsSnapshot) (share : ℤ × Fraction) : Type 0 where
  pub old : ProcessCpuSample
  pub new : ProcessCpuSample
  pub was : In old previous.processes
  pub is : In new current.processes
  pub same_pid : (old.pid ≡ share.0) × (new.pid ≡ share.0)
  pub same_start : old.start_time_ticks ≡ new.start_time_ticks
  pub grew : old.cpu_time_ticks ≤ new.cpu_time_ticks
  pub bounded : AtMost (100 * at_least_one_cpu current.system.logical_cpu_count) share.1

pub record IsMeasured (previous current : MetricsSnapshot) (view : MetricsView) : Type 0 where
  pub memory : view.host.memory_used_bytes ≤ view.host.memory_total_bytes
  pub host : (f : Fraction) → view.host.cpu_percent ≡ some f → AtMost 100 f
  pub shares : All (IsShare previous current) view.process_cpu_percent

clamp-AtMost : (f : Fraction) (n : ℕ) → 0 < f.denominator → AtMost n (clamp f n)
unfolding clamp
clamp-AtMost f n h = elim (Bool-cases (ltb (n * f.denominator) f.numerator)) [
  | inl above ↦ rw above (omega arith, omega arith)
  | inr within ↦ rw within (h, ground arith)
]

memory_used-le : (s : SystemMetricsSample) → memory_used s ≤ s.memory_total_bytes
unfolding memory_used
memory_used-le s = ground arith

same_fraction : (a b : Fraction) → ◌≡◌ {A = Option Fraction} (some a) (some b) → a ≡ b
same_fraction a b h = ground arith

host_percent-AtMost :
    (previous current : CpuTimes) (f : Fraction)
    → host_percent previous current ≡ some f
    → AtMost 100 f
unfolding host_percent comparable
host_percent-AtMost previous current f h =
    let total = current.total_ticks - previous.total_ticks in
    let idle = current.idle_ticks - previous.idle_ticks in
    let share : Fraction = record { numerator = 100 * (total - idle); denominator = total } in
    elim (Bool-cases (comparable previous current && leb idle total)) [
      | inl t ↦
          let e : clamp share 100 ≡ f = same_fraction (clamp share 100) f (rw t at h) in
          rw (sym e) (clamp-AtMost share 100 (ground arith))
      | inr n ↦ absurd (ground arith)
    ]

one_sample-In :
    (pid : ℤ) (p found : ProcessCpuSample)
    → (if p.pid == pid then some p else none) ≡ some found
    → (found ≡ p) × (found.pid ≡ pid)
one_sample-In pid p found h = elim (Bool-cases (p.pid == pid)) [
  | inl t ↦
      let e : found ≡ p = ground arith in
      (e, ap (λ (x : ProcessCpuSample). x.pid) e ∙ (int_eq_iff p.pid pid).0 t)
  | inr f ↦ absurd (ground arith)
]

later_or-cases :
    (a b : Option ProcessCpuSample) (found : ProcessCpuSample)
    → later_or a b ≡ some found
    → (a ≡ some found) ⊎ (b ≡ some found)
unfolding later_or
later_or-cases (some later) b found h = inl h
later_or-cases none b found h = inr h

old_sample-In :
    (pid : ℤ) (old : List ProcessCpuSample) (found : ProcessCpuSample)
    → old_sample pid old ≡ some found
    → In found old × (found.pid ≡ pid)
unfolding old_sample
old_sample-In pid [] found h = absurd cc
old_sample-In pid (p ∷ rest) found h = elim (later_or-cases (old_sample pid rest) _ found h) [
  | inl a ↦ let (m, e) = old_sample-In pid rest found a in (inr m, e)
  | inr b ↦ let (q, e) = one_sample-In pid p found b in (inl q, e)
]

comparable-pos :
    (previous current : CpuTimes)
    → comparable previous current ≡ true
    → 0 < current.total_ticks - previous.total_ticks
unfolding comparable
comparable-pos previous current h = ground arith

module _ (previous current : MetricsSnapshot) where
  abbrev cpus : ℕ
  cpus = at_least_one_cpu current.system.logical_cpu_count

  process_percent-IsShare :
      (total : ℕ) (p : ProcessCpuSample) (found : Option ProcessCpuSample) (f : Fraction)
      → 0 < total
      → In p current.processes
      → ((q : ProcessCpuSample) → found ≡ some q → In q previous.processes × (q.pid ≡ p.pid))
      → process_percent total cpus p found ≡ some f
      → IsShare previous current (p.pid, f)
  unfolding process_percent
  process_percent-IsShare total p none f z m was h = absurd cc
  process_percent-IsShare total p (some q) f z m was h =
      elim (Bool-cases
        (not (q.start_time_ticks == p.start_time_ticks) || ltb p.cpu_time_ticks q.cpu_time_ticks)) [
          | inl changed ↦ absurd (ground arith)
          | inr same ↦
              let share : Fraction = record {
                numerator = 100 * (p.cpu_time_ticks - q.cpu_time_ticks) * cpus;
                denominator = total;
              } in
              let e : clamp share (100 * cpus) ≡ f =
                same_fraction (clamp share (100 * cpus)) f (rw same at h) in
              let (i, k) = was q refl in
              record {
                old = q;
                new = p;
                was = i;
                is = m;
                same_pid = (k, refl);
                same_start = ground arith;
                grew = ground arith;
                bounded = rw (sym e) (clamp-AtMost share (100 * cpus) z);
              }
        ]

  assign-IsShare :
      (pid : ℤ) (f : Fraction) (percents : List (ℤ × Fraction))
      → IsShare previous current (pid, f)
      → All (IsShare previous current) percents
      → All (IsShare previous current) (assign pid f percents)
  unfolding assign
  assign-IsShare pid f [] h _ = (h, tt)
  assign-IsShare pid f ((p, v) ∷ rest) h (a, b) = elim (Bool-cases (p == pid)) [
    | inl t ↦ rw t (rw ((int_eq_iff p pid).0 t) h, b)
    | inr n ↦ rw n (a, assign-IsShare pid f rest h b)
  ]

  assign_some-IsShare :
      (pid : ℤ) (o : Option Fraction) (percents : List (ℤ × Fraction))
      → ((f : Fraction) → o ≡ some f → IsShare previous current (pid, f))
      → All (IsShare previous current) percents
      → All (IsShare previous current) (assign_some pid o percents)
  unfolding assign_some
  assign_some-IsShare pid none percents h a = a
  assign_some-IsShare pid (some f) percents h a = assign-IsShare pid f percents (h f refl) a

  process_percents-IsShare :
      (total : ℕ) (ps : List ProcessCpuSample) (percents : List (ℤ × Fraction))
      → 0 < total
      → ((p : ProcessCpuSample) → In p ps → In p current.processes)
      → All (IsShare previous current) percents
      → All (IsShare previous current) (process_percents total cpus previous.processes ps percents)
  unfolding process_percents
  process_percents-IsShare total [] percents z m a = a
  process_percents-IsShare total (p ∷ rest) percents z m a =
      process_percents-IsShare total rest _ z (λ q k. m q (inr k))
        (assign_some-IsShare p.pid _ percents
          (λ f h.
            process_percent-IsShare total p _ f z (m p (inl refl))
              (λ q k. old_sample-In p.pid previous.processes q k) h)
          a)

  -- Of any two samples: the memory in use is at most the total; the load of the host is at most 100
  -- percent; and a percentage of a process is for one that both samples have, started at the same
  -- time and with a CPU time that did not go back, and is at most 100 for each CPU. No quotient has a
  -- denominator of 0.
  pub compare-IsMeasured : IsMeasured previous current (compare previous current)
  unfolding compare
  compare-IsMeasured = record {
    memory = memory_used-le current.system;
    host = λ f h. host_percent-AtMost previous.system.cpu current.system.cpu f h;
    shares = elim (Bool-cases (comparable previous.system.cpu current.system.cpu)) [
      | inl t ↦ rw t (
          process_percents-IsShare _ current.processes []
            (comparable-pos previous.system.cpu current.system.cpu t) (λ q k. k) tt)
      | inr f ↦ rw f tt
    ];
  }
