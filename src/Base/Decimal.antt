-- ===== src/Base/Decimal.antt =====
-- `std::from_chars` in base 10 and `std::to_string`, as the C++ standard describes them.
use lx.Base.{
  Option, ℕ, Bytes, before, Bool, ℤ, All, if◌then◌else◌, from, suc, ◌∷◌, ◌≤◌, ◌<◌, ◌^◌, ◌≢◌, some,
  not, ◌-◌, leb, [], ◌+◌, none, ◌*◌, ◌≡◌, ◌==◌, arith, ◌%◌, ltb, Bool-cases, ◌&&◌, ap, true, ◌/◌,
  ◌∙◌, inl, cons-ne-nil, inr, zero, refl, nat_Eq, list_Eq, int_Eq, option_Eq, false,
}

abbrev pub is_digit : ℕ → Bool
is_digit c = leb b'0' c && leb c b'9'

abbrev pub not_digit : ℕ → Bool
not_digit c = not (is_digit c)

-- the number that digits spell behind `n`
unfoldable pub number_of : ℕ → Bytes → ℕ
number_of n [] = n
number_of n (c ∷ s) = number_of (n * 10 + (c - b'0')) s

-- The value and the text behind the number; `none` where there is no digit, or where the number is
-- above `max`, the greatest value of the unsigned type.
unfoldable pub from_chars : ℕ → Bytes → Option (ℕ × Bytes)
from_chars max s =
    if before not_digit s == []
    then none
    else if ltb max (number_of 0 (before not_digit s))
    then none
    else some (number_of 0 (before not_digit s), from not_digit s)

-- `parsed.ec == std::errc{} && parsed.ptr == end`
unfoldable pub at_end {ℓ} : {A : Type ℓ} → Option (A × Bytes) → Option A
at_end none = none
at_end (some (a, [])) = some a
at_end (some (a, c ∷ s)) = none

unfoldable pub parse_unsigned : ℕ → Bytes → Option ℕ
parse_unsigned max s = at_end (from_chars max s)

-- -n
abbrev pub negated : ℕ → ℤ
negated zero = ℤ.pos 0
negated (suc n) = ℤ.negsuc n

abbrev negative_part : Option (ℕ × Bytes) → Option (ℤ × Bytes)
negative_part none = none
negative_part (some (n, s)) = some (negated n, s)

abbrev positive_part : Option (ℕ × Bytes) → Option (ℤ × Bytes)
positive_part none = none
positive_part (some (n, s)) = some (ℤ.pos n, s)

-- A signed type takes a minus sign, and one more value below 0 than above.
unfoldable pub from_chars_signed : ℕ → Bytes → Option (ℤ × Bytes)
unfolding from_chars
from_chars_signed max [] = none
from_chars_signed max (c ∷ s) =
    if c == b'-'
    then negative_part (from_chars (max + 1) s)
    else positive_part (from_chars max (c ∷ s))

abbrev pub max_u64 : ℕ
max_u64 = 2 ^ 64 - 1

abbrev pub max_i64 : ℕ
max_i64 = 2 ^ 63 - 1

abbrev pub max_u32 : ℕ
max_u32 = 2 ^ 32 - 1

-- the greatest `pid_t`
abbrev pub max_pid : ℕ
max_pid = 2 ^ 31 - 1

-- INT_MAX
abbrev pub max_int : ℕ
max_int = 2 ^ 31 - 1

-- the digits of `n` in front of `out`; the fuel is enough where it is above `n`
unfoldable pub decimal : ℕ → ℕ → Bytes → Bytes
decimal zero n out = out
decimal (suc f) n out =
    let d = b'0' + n % 10 in
    let more = decimal f (n / 10) (d ∷ out) in if ltb n 10 then d ∷ out else more

unfoldable pub to_string : ℕ → Bytes
unfolding decimal
to_string n = decimal (suc n) n []

abbrev pub IsDigits : Bytes → Type 0
IsDigits = All (λ c. is_digit c ≡ true)

before-IsDigits : (s : Bytes) → IsDigits s → (before not_digit s ≡ s) × (from not_digit s ≡ [])
unfolding before from
before-IsDigits [] _ = (refl, refl)
before-IsDigits (c ∷ s) (hc, hs) =
    let (p, q) = before-IsDigits s hs in (rw hc (ap (λ t. c ∷ t) p), rw hc q)

pub parse_unsigned-digits :
    (max : ℕ) (s : Bytes)
    → IsDigits s
    → s ≢ []
    → number_of 0 s ≤ max
    → parse_unsigned max s ≡ some (number_of 0 s)
unfolding parse_unsigned from_chars at_end
parse_unsigned-digits max [] d e fits = absurd (e refl)
parse_unsigned-digits max (c ∷ s) d e fits =
    let (p, q) = before-IsDigits (c ∷ s) d in rw (p, q) (ground arith)

decimal-IsDigits : (f n : ℕ) (out : Bytes) → IsDigits out → IsDigits (decimal f n out)
unfolding decimal
decimal-IsDigits zero n out h = h
decimal-IsDigits (suc f) n out h =
    let d : is_digit (b'0' + n % 10) ≡ true = ground arith in
    elim (Bool-cases (ltb n 10)) [
      | inl t ↦ rw t (d, h)
      | inr t ↦ rw t (decimal-IsDigits f (n / 10) ((b'0' + n % 10) ∷ out) (d, h))
    ]

number_of-decimal :
    (f n : ℕ) (out : Bytes) → n < f → number_of 0 (decimal f n out) ≡ number_of n out
unfolding decimal number_of
number_of-decimal zero n out h = absurd (omega arith)
number_of-decimal (suc f) n out h = elim (Bool-cases (ltb n 10)) [
  | inl t ↦ rw t (ap (λ (k : ℕ). number_of k out) (ground arith))
  | inr t ↦ rw t (
      number_of-decimal f (n / 10) ((b'0' + n % 10) ∷ out) (ground arith)
      ∙ ap (λ (k : ℕ). number_of k out) (ground arith))
]

decimal-ne-nil : (f n : ℕ) (out : Bytes) → out ≢ [] → decimal f n out ≢ []
unfolding decimal
decimal-ne-nil zero n out h = h
decimal-ne-nil (suc f) n out h = elim (Bool-cases (ltb n 10)) [
  | inl t ↦ rw t (cons-ne-nil _ out)
  | inr t ↦ rw t (decimal-ne-nil f (n / 10) ((b'0' + n % 10) ∷ out) (cons-ne-nil _ out))
]

pub to_string-ne-nil : (n : ℕ) → to_string n ≢ []
unfolding to_string
to_string-ne-nil n = elim (Bool-cases (ltb n 10)) [
  | inl t ↦ rw t (cons-ne-nil _ [])
  | inr t ↦ rw t (decimal-ne-nil n (n / 10) _ (cons-ne-nil _ []))
]

pub to_string-IsDigits : (n : ℕ) → IsDigits (to_string n)
unfolding to_string
to_string-IsDigits n = decimal-IsDigits (suc n) n [] tt

-- What `std::to_string` prints, `std::from_chars` reads.
pub parse_unsigned-to_string : (max n : ℕ) → n ≤ max → parse_unsigned max (to_string n) ≡ some n
parse_unsigned-to_string max n fits =
    let v : number_of 0 (to_string n) ≡ n =
      unfold to_string number_of in number_of-decimal (suc n) n [] (omega arith) in
    parse_unsigned-digits max (to_string n) (to_string-IsDigits n) (to_string-ne-nil n) (rw v fits)
    ∙ ap some v

signed-digits :
    (max : ℕ) (s : Bytes)
    → IsDigits s
    → s ≢ []
    → number_of 0 s ≤ max
    → at_end (from_chars_signed max s) ≡ some (ℤ.pos (number_of 0 s))
unfolding from_chars_signed at_end
signed-digits max [] d e fits = absurd (e refl)
signed-digits max (c ∷ s) d e fits =
    let (p, q) = before-IsDigits (c ∷ s) d in
    let plain : (c == b'-') ≡ false = ground arith in rw (plain, p, q) (ground arith)

pub signed-to_string :
    (max n : ℕ) → n ≤ max → at_end (from_chars_signed max (to_string n)) ≡ some (ℤ.pos n)
signed-to_string max n fits =
    let v : number_of 0 (to_string n) ≡ n =
      unfold to_string number_of in number_of-decimal (suc n) n [] (omega arith) in
    signed-digits max (to_string n) (to_string-IsDigits n) (to_string-ne-nil n) (rw v fits)
    ∙ ap (λ (k : ℕ). some (ℤ.pos k)) v

at_end-exact : (k n : ℕ) (rest : Bytes) → at_end (some (k, rest)) ≡ some n → k ≡ n
unfolding at_end
at_end-exact k n [] h = cc
at_end-exact k n (c ∷ rest) h = absurd cc

-- What is read is in the range of the type.
pub parse_unsigned-le : (max : ℕ) (s : Bytes) (n : ℕ) → parse_unsigned max s ≡ some n → n ≤ max
unfolding parse_unsigned from_chars at_end
parse_unsigned-le max s n h =
    let e = at_end-exact (number_of 0 (before not_digit s)) n (from not_digit s) in
    ground (arith, e)
