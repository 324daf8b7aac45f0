-- ===== src/Application/LogService/Ages.antt =====
-- Times given as an age, LogService.cpp.
use lx.Application.LogService.{
  parse_relative, without_last, age_from, last_byte, multiplier, since_epoch, back_by, age_of,
  invalid_log,
}
use lx.Base.{
  refl, some, true, false, [], ℕ, Bytes, ◌≡◌, ◌≤◌, ◌⊎◌, ◌++◌, ◌*◌, ◌∷◌, arith, length-append, ◌%◌,
  ltb, ◌/◌, ◌^◌, if◌then◌else◌, length, leb, ◌-◌, take-append, ap, inl, text, inr, Bool-cases,
  length-pos, ◌+◌,
}
use lx.Base.Decimal.{max_i64, to_string, max_u64, to_string-ne-nil, parse_unsigned-to_string}
use lx.Domain.{success}

factor_cases : (c k : ℕ) → multiplier c ≡ some k → (k ≡ 1) ⊎ (k ≡ 60) ⊎ (k ≡ 3600) ⊎ (k ≡ 86400)
unfolding multiplier
factor_cases c k h = ground arith

in_range :
    (n k : ℕ)
    → (k ≡ 1) ⊎ (k ≡ 60) ⊎ (k ≡ 3600) ⊎ (k ≡ 86400)
    → n * k ≤ max_i64
    → (ltb (max_i64 / k) n ≡ false) × (n ≤ max_u64)
in_range n k cases h =
    let by : (j : ℕ) → k ≡ j → n * k ≡ n * j = λ j e. ap (λ (x : ℕ). n * x) e in
    elim cases [
      | inl e ↦ let g = by 1 e in rw e (ground arith)
      | inr (inl e) ↦ let g = by 60 e in rw e (ground arith)
      | inr (inr (inl e)) ↦ let g = by 3600 e in rw e (ground arith)
      | inr (inr (inr e)) ↦ let g = by 86400 e in rw e (ground arith)
    ]

since_epoch-back_by :
    (now x : ℕ)
    → now ≤ max_i64
    → x * 1000000000 ≤ max_i64
    → since_epoch (back_by now (x % 2 ^ 64)) ≡ (
        if leb (x * 1000000000) now
        then success (now - x * 1000000000)
        else invalid_log (text "Relative time precedes the Unix epoch") (text "parse since"))
unfolding since_epoch back_by
since_epoch-back_by now x p q = elim (Bool-cases (leb (x * 1000000000) now)) [
  | inl past ↦
      let e : (now + (2 ^ 64 - (x % 2 ^ 64) * 1000000000 % 2 ^ 64)) % 2 ^ 64
          ≡ now - x * 1000000000 =
        ground arith in
      let f : leb (2 ^ 63) (now - x * 1000000000) ≡ false = ground arith in rw (e, f, past)
  | inr early ↦
      let e : leb (2 ^ 63) ((now + (2 ^ 64 - (x % 2 ^ 64) * 1000000000 % 2 ^ 64)) % 2 ^ 64) ≡ true =
        ground arith in
      rw (e, early)
]

last_byte-append : (s : Bytes) (c : ℕ) → last_byte (s ++ c ∷ []) ≡ c
unfolding last_byte
last_byte-append [] c = refl
last_byte-append (d ∷ []) c = refl
last_byte-append (d ∷ e ∷ s) c = last_byte-append (e ∷ s) c

without_last-append : (s : Bytes) (c : ℕ) → without_last (s ++ c ∷ []) ≡ s
unfolding without_last
without_last-append s c =
    let n = length-append s (c ∷ []) in
    let k : length (s ++ c ∷ []) - 1 ≡ length s = ground (arith, n) in rw k (take-append s (c ∷ []))

-- On a clock that is not before the epoch, an age whose nanoseconds fit into 63 bits is read as that
-- much earlier than now, or refused if that is before the epoch.
pub parse_relative-exact :
    (n c k now : ℕ)
    → multiplier c ≡ some k
    → now ≤ max_i64
    → n * k * 1000000000 ≤ max_i64
    → parse_relative (to_string n ++ c ∷ []) now ≡ (
        if leb (n * k * 1000000000) now
        then success (now - n * k * 1000000000)
        else invalid_log (text "Relative time precedes the Unix epoch") (text "parse since"))
unfolding parse_relative age_from age_of
parse_relative-exact n c k now h p q =
    let s = to_string n in
    let len = length-append s (c ∷ []) in
    let full = length-pos s (to_string-ne-nil n) in
    let long : ltb (length (s ++ c ∷ [])) 2 ≡ false = ground (arith, len, full) in
    let (fits, small) = in_range n k (factor_cases c k h) (omega arith) in
    rw
      (
        long,
        without_last-append s c,
        parse_unsigned-to_string max_u64 n small,
        last_byte-append s c,
        h,
        fits,
      )
      (since_epoch-back_by now (n * k) p q)
