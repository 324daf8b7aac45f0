-- ===== src/Base/Strings.antt =====
-- `std::string` as a list of bytes, with the comparisons and searches that the source makes, and the
-- equality and order of lists and pairs.
use Prim.Native.Nat.{ℕ}
use Prim.Native.Char.{code}
use Prim.Native.String.{String}
use mathlib.Core.Path.{◌≡◌, refl, ap}
use mathlib.Core.Logic.{◌↔◌}
use mathlib.Core.Bool.{Bool, true, false, not, ◌&&◌, ◌||◌}
use mathlib.Core.Option.{Option, none, some}
use mathlib.Core.List.{List, [], ◌∷◌, ◌++◌}
use native.Mathlib.Omega.{arith}
use lx.Base.Tests.{Comparable, ◌==◌, nat_Eq, if◌then◌else◌, leb}
use lx.Base.Lists.{All, keep, is_nil}

abbrev pub Bytes : Type 0
Bytes = List ℕ

-- The bytes of an ASCII literal. Shut, so that a message stays as it is written.
unfoldable pub text : String → Bytes
text String.[] = []
text (String.◌∷◌ c s) = code c ∷ text s

module _ {A : Type 0} ⦃e : Comparable A⦄ where
  abbrev pub list_eq : List A → List A → Bool
  list_eq [] [] = true
  list_eq (x ∷ xs) (y ∷ ys) = x == y && list_eq xs ys
  list_eq _ _ = false

  pub list_eq_iff : (xs ys : List A) → (list_eq xs ys ≡ true) ↔ (xs ≡ ys)
  list_eq_iff [] [] = (λ h. refl, λ h. refl)
  list_eq_iff [] (y ∷ ys) = (λ h. cc, λ h. cc)
  list_eq_iff (x ∷ xs) [] = (λ h. cc, λ h. cc)
  list_eq_iff (x ∷ xs) (y ∷ ys) =
      let r = list_eq_iff xs ys in
      let i = e.equals_iff x y in (λ h. ground (arith, r.0, i.0), λ h. ground (arith, r.1, i.1))

  abbrev pub option_eq : Option A → Option A → Bool
  option_eq none none = true
  option_eq (some x) (some y) = x == y
  option_eq _ _ = false

  pub option_eq_iff : (x y : Option A) → (option_eq x y ≡ true) ↔ (x ≡ y)
  option_eq_iff none none = (λ h. refl, λ h. refl)
  option_eq_iff none (some y) = (λ h. cc, λ h. cc)
  option_eq_iff (some x) none = (λ h. cc, λ h. cc)
  option_eq_iff (some x) (some y) =
      let i = e.equals_iff x y in (λ h. ground (arith, i.0), λ h. ground (arith, i.1))

instance abbrev pub list_Eq : {A : Type 0} ⦃e : Comparable A⦄ → Comparable (List A)
list_Eq = record { equals = list_eq; equals_iff = list_eq_iff }

instance abbrev pub option_Eq : {A : Type 0} ⦃e : Comparable A⦄ → Comparable (Option A)
option_Eq = record { equals = option_eq; equals_iff = option_eq_iff }

-- `std::lexicographical_compare`, the `<` of strings and vectors.
unfoldable pub list_ltb : {A : Type 0} ⦃e : Comparable A⦄ → (A → A → Bool) → List A → List A → Bool
list_ltb lt [] [] = false
list_ltb lt [] (y ∷ ys) = true
list_ltb lt (x ∷ xs) [] = false
list_ltb lt (x ∷ xs) (y ∷ ys) = lt x y || (x == y && list_ltb lt xs ys)

-- The text before the first byte with the property, and the text from it on; the second is empty
-- where `find_first_of` answers `npos`.
unfoldable pub before {ℓ} : {A : Type ℓ} → (A → Bool) → List A → List A
before p [] = []
before p (c ∷ s) = if p c then [] else c ∷ before p s

unfoldable pub from {ℓ} : {A : Type ℓ} → (A → Bool) → List A → List A
from p [] = []
from p (c ∷ s) = if p c then c ∷ s else from p s

-- `value.size() >= suffix.size()` and its last bytes are the suffix.
unfoldable pub starts_with : Bytes → Bytes → Bool
starts_with [] s = true
starts_with (c ∷ p) [] = false
starts_with (c ∷ p) (d ∷ s) = c == d && starts_with p s

-- `c` in front of the first piece
abbrev pub grow : ℕ → List Bytes → List Bytes
grow c [] = (c ∷ []) ∷ []
grow c (p ∷ ps) = (c ∷ p) ∷ ps

-- The pieces that separators end, and the rest behind the last separator if it is not empty: the loop
-- `while (begin < size) { end = find(separator, begin); …; begin = end + 1; }`.
unfoldable pub pieces : (ℕ → Bool) → Bytes → List Bytes
pieces p [] = []
pieces p (c ∷ s) = let rest = pieces p s in if p c then [] ∷ rest else grow c rest

-- The runs of other bytes between separators: `find_first_not_of` and `find_first_of` in turns, and
-- `stream >> word`.
unfoldable pub words : (ℕ → Bool) → Bytes → List Bytes
unfolding pieces
words p s = keep (λ w. not (is_nil w)) (pieces p s)

pub before-append {ℓ} :
    {A : Type ℓ} (p : A → Bool) (xs ys : List A)
    → All (λ c. p c ≡ false) xs
    → (before p (xs ++ ys) ≡ xs ++ before p ys) × (from p (xs ++ ys) ≡ from p ys)
unfolding before from
before-append p [] ys _ = (refl, refl)
before-append p (c ∷ xs) ys (hc, hs) =
    let (b, f) = before-append p xs ys hs in (rw hc (ap (λ t. c ∷ t) b), rw hc f)

-- `std::isspace` in the "C" locale.
abbrev pub is_space : ℕ → Bool
is_space c = c == b' ' || (leb 9 c && leb c 13)

pub starts_with-append : (p s : Bytes) → starts_with p (p ++ s) ≡ true
unfolding starts_with
starts_with-append [] s = refl
starts_with-append (c ∷ p) s = ground (arith, starts_with-append p s)

pub pieces-append :
    (p : ℕ → Bool) (word rest : Bytes) (sep : ℕ)
    → All (λ c. p c ≡ false) word
    → p sep ≡ true
    → pieces p (word ++ sep ∷ rest) ≡ word ∷ pieces p rest
unfolding pieces
pieces-append p [] rest sep _ h = rw h
pieces-append p (c ∷ word) rest sep (hc, hs) h =
    rw hc (ap (grow c) (pieces-append p word rest sep hs h))
