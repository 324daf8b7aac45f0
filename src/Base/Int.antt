-- ===== src/Base/Int.antt =====
-- Signed integers, for `pid_t` and `int`.
use Prim.Native.Nat.{ℕ}
use mathlib.Core.Path.{◌≡◌}
use mathlib.Core.Logic.{◌↔◌}
use mathlib.Core.Bool.{Bool, true, false}
use native.Mathlib.Omega.{arith}
use lx.Base.Tests.{Comparable, nat_eq, ltb}
use lx.Base.Sort.{IsTotal}

-- `negsuc n` is -(n + 1).
pub data ℤ : Type 0 where
  pos : ℕ → ℤ
  negsuc : ℕ → ℤ

abbrev pub int_eq : ℤ → ℤ → Bool
int_eq (pos a) (pos b) = nat_eq a b
int_eq (negsuc a) (negsuc b) = nat_eq a b
int_eq _ _ = false

pub int_eq_iff : (a b : ℤ) → (int_eq a b ≡ true) ↔ (a ≡ b)
int_eq_iff (pos a) (pos b) = (λ h. ground arith, λ h. ground arith)
int_eq_iff (negsuc a) (negsuc b) = (λ h. ground arith, λ h. ground arith)
int_eq_iff (pos a) (negsuc b) = (λ h. ground arith, λ h. ground arith)
int_eq_iff (negsuc a) (pos b) = (λ h. ground arith, λ h. ground arith)

instance abbrev pub int_Eq : Comparable ℤ
int_Eq = record { equals = int_eq; equals_iff = int_eq_iff }

-- a < b
abbrev pub int_ltb : ℤ → ℤ → Bool
int_ltb (pos a) (pos b) = ltb a b
int_ltb (pos a) (negsuc b) = false
int_ltb (negsuc a) (pos b) = true
int_ltb (negsuc a) (negsuc b) = ltb b a

-- 0 < a
abbrev pub positive : ℤ → Bool
positive (pos n) = ltb 0 n
positive (negsuc n) = false

pub int_ltb-IsTotal : IsTotal int_ltb
int_ltb-IsTotal = record { irrefl = irrefl; trans = trans; total = total }
  where
    irrefl : (a : ℤ) → int_ltb a a ≡ false
    irrefl (pos a) = ground arith
    irrefl (negsuc a) = ground arith

    trans : (a b c : ℤ) → int_ltb a b ≡ true → int_ltb b c ≡ true → int_ltb a c ≡ true
    trans a b c h k = ground arith

    total : (a b : ℤ) → int_ltb a b ≡ false → int_ltb b a ≡ false → a ≡ b
    total a b h k = ground arith
