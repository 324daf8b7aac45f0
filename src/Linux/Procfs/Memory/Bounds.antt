-- ===== src/Linux/Procfs/Memory/Bounds.antt =====
-- The loop of parseMemoryInfo ends, and what it reads fits.
use lx.Base.{
  some, none, [], ◌∷◌, false, inl, inr, refl, zero, suc, ◌≤◌, from, ℕ, Bytes, ◌≡◌, Bool, Option,
  length, is_nil, ◌*◌, arith, drop, ◌<◌, nat_Eq, list_Eq, int_Eq, option_Eq, not, Bool-cases,
  before, ltb, is_space, ◌||◌, ◌==◌, text, sym,
}
use lx.Domain.{success, failure, Result}
use lx.Linux.Procfs.Memory.{
  MemoryRecord, Memory, Row, read_row, read_word, after_row, memory_of, scaled, row_bytes,
  max_kibibytes, put_row, skip_line, parse_memory_info, with_row, put_bytes, go_on, read_rows,
  total_key, available_key,
}
use lx.Linux.Procfs.Metrics.{metrics_failure}
use lx.Exec.Returns.{success-injective}
use lx.Base.Decimal.{parse_unsigned, max_u64}

from-length : (p : ℕ → Bool) (s : Bytes) → length (from p s) ≤ length s
unfolding from
from-length p [] = omega arith
from-length p (c ∷ s) = let r = from-length p s in ground arith

before-length :
    (p : ℕ → Bool) (s : Bytes) → is_nil (before p s) ≡ false → length (from p s) < length s
unfolding before from
before-length p [] h = absurd cc
before-length p (c ∷ s) h = let r = from-length p s in ground arith

-- a word that is there is taken off the text
word-length :
    (s : Bytes)
    → (length (read_word s).1 ≤ length s)
      × (is_nil (read_word s).0 ≡ false → length (read_word s).1 < length s)
unfolding read_word
word-length s =
    let a = from-length (λ c. not (is_space c)) s in
    let b = from-length is_space (from (λ c. not (is_space c)) s) in
    let c = before-length is_space (from (λ c. not (is_space c)) s) in
    (omega arith, λ h. let d = c h in omega arith)

drop-le : (n : ℕ) (s : Bytes) → length (drop n s) ≤ length s
drop-le zero s = omega arith
drop-le (suc n) [] = omega arith
drop-le (suc n) (c ∷ s) = let r = drop-le n s in omega arith

some-value : {A : Type 0} {a b : A} → some a ≡ some b → a ≡ b
some-value e = cc

-- Both fields hold bytes of whole kibibytes that fit into 64 bits.
abbrev pub IsSize : ℕ → Type 0
IsSize bytes = (kibibytes : ℕ) × (bytes ≡ kibibytes * 1024) × (kibibytes ≤ max_kibibytes)

pub record IsMemory (r : MemoryRecord) : Type 0 where
  pub total : IsSize r.total_bytes
  pub available : IsSize r.available_bytes
  pub consistent : r.available_bytes ≤ r.total_bytes

record IsSizes (m : Memory) : Type 0 where
  pub total : (b : ℕ) → m.total ≡ some b → IsSize b
  pub available : (b : ℕ) → m.available ≡ some b → IsSize b

scaled-IsSize : (k : Option ℕ) (b : ℕ) → scaled k ≡ some b → IsSize b
unfolding scaled
scaled-IsSize none b h = absurd cc
scaled-IsSize (some k) b h = elim (Bool-cases (ltb max_kibibytes k)) [
  | inl t ↦ let bad : none ≡ some b = rw t at h in absurd cc
  | inr f ↦
      let same : some (k * 1024) ≡ some b = rw f at h in
      let fits : k ≤ max_kibibytes = ground arith in (k, sym (some-value same), fits)
]

row_bytes-IsSize : (row : Row) (b : ℕ) → row_bytes row ≡ some b → IsSize b
unfolding row_bytes
row_bytes-IsSize row b h = elim (Bool-cases (row.unit == text "kB")) [
  | inl t ↦ scaled-IsSize (parse_unsigned max_u64 row.value_text) b (rw t at h)
  | inr f ↦ let bad : none ≡ some b = rw f at h in absurd cc
]

put_bytes-IsSizes :
    (key : Bytes) (b : ℕ) (m : Memory) → IsSize b → IsSizes m → IsSizes (put_bytes key b m)
unfolding put_bytes
put_bytes-IsSizes key b m fits h = elim (Bool-cases (key == total_key)) [
  | inl t ↦ rw t (record { total = λ c e. rw (← some-value e) fits; available = h.available })
  | inr f ↦ rw f (record { total = h.total; available = λ c e. rw (← some-value e) fits })
]

memory_of-IsMemory :
    (m : Memory) (r : MemoryRecord)
    → IsSizes m
    → memory_of m.total m.available ≡ success r
    → IsMemory r
unfolding memory_of metrics_failure
memory_of-IsMemory m r h e = go m.total m.available h.total h.available e
  where
    go :
        (t a : Option ℕ)
        → ((b : ℕ) → t ≡ some b → IsSize b)
        → ((b : ℕ) → a ≡ some b → IsSize b)
        → memory_of t a ≡ success r
        → IsMemory r
    go none a ht ha e = absurd cc
    go (some t) none ht ha e = absurd cc
    go (some t) (some a) ht ha e = elim (Bool-cases (ltb t a)) [
      | inl above ↦
          let bad : ◌≡◌ {A = Result MemoryRecord}
              (metrics_failure (text "Missing or inconsistent memory fields")) (success r) =
            rw above at e in
          absurd cc
      | inr within ↦
          let same = success-injective (rw within at e) in
          let le : a ≤ t = ground arith in
          rw (← same) (record { total = ht t refl; available = ha a refl; consistent = le })
    ]

-- a row takes three words off the text
read_row-length :
    (input : Bytes) (row : Row) → read_row input ≡ some row → length row.rest < length input
unfolding read_row
read_row-length input row h =
    let (key, after_key) = read_word input in
    let (value_text, after_value) = read_word after_key in
    let (unit, rest) = read_word after_value in
    let a = word-length input in
    let b = word-length after_key in
    let c = word-length after_value in
    elim (Bool-cases (is_nil key || is_nil value_text || is_nil unit)) [
      | inl t ↦ let bad : none ≡ some row = rw t at h in absurd cc
      | inr f ↦
          let same = some-value (rw f at h) in
          let there : is_nil key ≡ false = ground arith in
          let shorter = a.1 there in rw (← same) (omega arith)
    ]

put_row-IsSizes :
    (row : Row) (bytes : Option ℕ) (m : Memory) (next : Bytes × Memory)
    → IsSizes m
    → ((b : ℕ) → bytes ≡ some b → IsSize b)
    → put_row row bytes m ≡ success next
    → IsSizes next.1 × (length next.0 ≤ length row.rest)
unfolding put_row metrics_failure
put_row-IsSizes row none m next h fits e = absurd cc
put_row-IsSizes row (some b) m next h fits e =
    rw (← success-injective e) (put_bytes-IsSizes row.key b m (fits b refl) h, omega arith)

after_row-IsSizes :
    (row : Row) (m : Memory) (next : Bytes × Memory)
    → IsSizes m
    → after_row row m ≡ success next
    → IsSizes next.1 × (length next.0 ≤ length row.rest)
unfolding after_row skip_line
after_row-IsSizes row m next h e =
    elim (Bool-cases (row.key == total_key || row.key == available_key)) [
      | inl t ↦
          put_row-IsSizes row (row_bytes row) m next h (λ b q. row_bytes-IsSize row b q) (rw t at e)
      | inr f ↦
          let same = success-injective (rw f at e) in
          let a = drop-le 1 (from (λ c. c == 10) row.rest) in
          let b = from-length (λ c. c == 10) row.rest in rw (← same) (h, omega arith)
    ]

-- a run that has a result, which fits where it is a success
abbrev pub Reads : Option (Result MemoryRecord) → Type 0
Reads none = ⊥
Reads (some r) = (m : MemoryRecord) → r ≡ success m → IsMemory m

go_on-Reads :
    (continue : Bytes → Memory → Option (Result MemoryRecord)) (next : Result (Bytes × Memory))
    → ((n : Bytes × Memory) → next ≡ success n → Reads (continue n.0 n.1))
    → Reads (go_on continue next)
unfolding go_on
go_on-Reads continue (failure e) h = λ m q. absurd cc
go_on-Reads continue (success n) h = h n refl

with_row-Reads :
    (continue : Bytes → Memory → Option (Result MemoryRecord)) (row : Option Row) (m : Memory)
    → IsSizes m
    → ((x : Row) (n : Bytes × Memory)
        → row ≡ some x
        → IsSizes n.1
        → length n.0 ≤ length x.rest
        → Reads (continue n.0 n.1))
    → Reads (with_row continue row m)
unfolding with_row
with_row-Reads continue none m h next = λ r e. memory_of-IsMemory m r h e
with_row-Reads continue (some x) m h next =
    go_on-Reads continue (after_row x m)
      (λ n e. let (sizes, shorter) = after_row-IsSizes x m n h e in next x n refl sizes shorter)

read_rows-Reads :
    (fuel : ℕ) (input : Bytes) (m : Memory)
    → length input < fuel
    → IsSizes m
    → Reads (read_rows fuel input m)
unfolding read_rows
read_rows-Reads zero input m enough h = absurd (omega arith)
read_rows-Reads (suc fuel) input m enough h =
    with_row-Reads (read_rows fuel) (read_row input) m h (λ x n e sizes shorter.
      let l = read_row-length input x e in read_rows-Reads fuel n.0 n.1 (omega arith) sizes)

-- Whatever the kernel shows, parseMemoryInfo has a result within one round more than the bytes of the
-- text; and where it is a success, the memory that is available is at most the total, and both are whole
-- kibibytes whose bytes fit into 64 bits.
pub parse_memory_info-Reads :
    (contents : Bytes) → Reads (parse_memory_info (suc (length contents)) contents)
unfolding parse_memory_info
parse_memory_info-Reads contents =
    read_rows-Reads (suc (length contents)) contents _ (omega arith)
      (record { total = λ b e. absurd cc; available = λ b e. absurd cc })
