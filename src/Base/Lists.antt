-- ===== src/Base/Lists.antt =====
-- Lists over the native numbers, membership and predicates by recursion, and a pair of searches.
use Prim.Native.Nat.{ℕ, zero, suc, ◌+◌, ◌<◌}
use mathlib.Core.Path.{◌≡◌, refl, sym, ap}
use mathlib.Core.Logic.{◌⊎◌, ◌↔◌, ◌≢◌, inl, inr}
use mathlib.Core.Bool.{Bool, true, false, ◌&&◌, ◌||◌}
use mathlib.Core.Option.{Option, none, some}
use mathlib.Core.List.{List, [], ◌∷◌, ◌++◌, cons-ne-nil, map}
use native.Mathlib.Omega.{arith}
use lx.Base.Tests.{Comparable, ◌==◌, if◌then◌else◌, Bool-cases}

module _ {ℓ} {A : Type ℓ} where
  abbrev pub length : List A → ℕ
  length [] = 0
  length (x ∷ xs) = suc (length xs)

  pub length-append : (xs ys : List A) → length (xs ++ ys) ≡ length xs + length ys
  length-append [] ys = omega arith
  length-append (x ∷ xs) ys = omega (arith, length-append xs ys)

  abbrev pub drop : ℕ → List A → List A
  drop zero xs = xs
  drop (suc n) [] = []
  drop (suc n) (x ∷ xs) = drop n xs

  pub drop_nil : (n : ℕ) → drop n [] ≡ []
  drop_nil zero = refl
  drop_nil (suc n) = refl

  pub drop-append : (xs ys : List A) → drop (length xs) (xs ++ ys) ≡ ys
  drop-append [] ys = refl
  drop-append (x ∷ xs) ys = drop-append xs ys

  -- `std::all_of`.
  abbrev pub all_of : (A → Bool) → List A → Bool
  all_of p [] = true
  all_of p (x ∷ xs) = p x && all_of p xs

  pub all_of-append :
      (p : A → Bool) (xs ys : List A) → all_of p (xs ++ ys) ≡ (all_of p xs && all_of p ys)
  all_of-append p [] ys = refl
  all_of-append p (x ∷ xs) ys = ground (arith, all_of-append p xs ys)

  -- The values for which a test holds, in their order: `continue` or `push_back` in a loop.
  abbrev pub keep : (A → Bool) → List A → List A
  keep p [] = []
  keep p (x ∷ xs) = if p x then x ∷ keep p xs else keep p xs

  -- `std::any_of`.
  abbrev pub any_of : (A → Bool) → List A → Bool
  any_of p [] = false
  any_of p (x ∷ xs) = p x || any_of p xs

  -- `std::find_if`; `none` is the end iterator.
  abbrev pub find_if : (A → Bool) → List A → Option A
  find_if p [] = none
  find_if p (x ∷ xs) = if p x then some x else find_if p xs

module _ {ℓ κ} {A : Type ℓ} (P : A → Type κ) where
  abbrev pub All : List A → Type κ
  All [] = Unit
  All (x ∷ xs) = P x × All xs

  pub All-append : (xs ys : List A) → All xs → All ys → All (xs ++ ys)
  All-append [] ys _ hy = hy
  All-append (x ∷ xs) ys (px, hx) hy = (px, All-append xs ys hx hy)

pub All-map {ℓ κ μ} :
    {A : Type ℓ} {P : A → Type κ} {Q : A → Type μ} (xs : List A)
    → ((a : A) → P a → Q a)
    → All P xs
    → All Q xs
All-map [] f _ = tt
All-map (x ∷ xs) f (px, hx) = (f x px, All-map xs f hx)

module _ {A : Type 0} where
  -- `a` is an element; a value says where it stands.
  abbrev pub In : A → List A → Type 0
  In a [] = ⊥
  In a (x ∷ xs) = (a ≡ x) ⊎ In a xs

  pub In-append : (a : A) (xs ys : List A) → In a (xs ++ ys) ↔ (In a xs ⊎ In a ys)
  In-append a [] ys = (λ h. inr h, λ h. elim h [ inl n ↦ absurd n | inr m ↦ m ])
  In-append a (x ∷ xs) ys = (
    λ h. elim h [
      | inl e ↦ inl (inl e)
      | inr m ↦ elim ((In-append a xs ys).0 m) [ inl p ↦ inl (inr p) | inr q ↦ inr q ]
    ],
    λ h. elim h [
      | inl p ↦ elim p [ inl e ↦ inl e | inr m ↦ inr ((In-append a xs ys).1 (inl m)) ]
      | inr q ↦ inr ((In-append a xs ys).1 (inr q))
    ],
  )

  pub All-In : (P : A → Type 0) (a : A) (xs : List A) → All P xs → In a xs → P a
  All-In P a [] _ m = absurd m
  All-In P a (x ∷ xs) (px, hx) (inl e) = rw e px
  All-In P a (x ∷ xs) (px, hx) (inr m) = All-In P a xs hx m

  pub All-of-In : (P : A → Type 0) (xs : List A) → ((a : A) → In a xs → P a) → All P xs
  All-of-In P [] f = tt
  All-of-In P (x ∷ xs) f = (f x (inl refl), All-of-In P xs (λ a m. f a (inr m)))

  pub find_if-some :
      (p : A → Bool) (xs : List A) {a : A} → find_if p xs ≡ some a → (p a ≡ true) × In a xs
  find_if-some p [] h = cc
  find_if-some p (x ∷ xs) {a} h = elim (Bool-cases (p x)) [
    | inl t ↦ let e : x ≡ a = ground arith in (rw (← e) t, inl (sym e))
    | inr f ↦ let (t, m) = find_if-some p xs {a = a} (ground arith) in (t, inr m)
  ]

module _ {A : Type 0} ⦃e : Comparable A⦄ where
  -- `find(first, last, a) != last`, and `count(a) != 0` of a set.
  abbrev pub contains : A → List A → Bool
  contains a [] = false
  contains a (x ∷ xs) = a == x || contains a xs

  pub contains-In : (a : A) (xs : List A) → (contains a xs ≡ true) ↔ In a xs
  contains-In a [] = (λ h. absurd (ground arith), λ h. absurd h)
  contains-In a (x ∷ xs) = (
    λ h. elim (Bool-cases (a == x)) [
      | inl t ↦ inl ((e.equals_iff a x).0 t)
      | inr f ↦ inr ((contains-In a xs).0 (ground arith))
    ],
    λ h. elim h [
      | inl p ↦ rw ((e.equals_iff a x).1 p)
      | inr m ↦ let t = (contains-In a xs).1 m in ground arith
    ],
  )

abbrev pub is_some {ℓ} : {A : Type ℓ} → Option A → Bool
is_some none = false
is_some (some a) = true

-- `empty()`
abbrev pub is_nil {ℓ} : {A : Type ℓ} → List A → Bool
is_nil [] = true
is_nil (x ∷ xs) = false

pub is_nil-cases {ℓ} :
    {A : Type ℓ} (xs : List A) → (is_nil xs ≡ true) ⊎ ((is_nil xs ≡ false) × (xs ≢ []))
is_nil-cases [] = inl refl
is_nil-cases (x ∷ xs) = inr (refl, cons-ne-nil x xs)

pub is_nil-false {ℓ} : {A : Type ℓ} (xs : List A) → is_nil xs ≡ false → xs ≢ []
is_nil-false [] h = cc
is_nil-false (x ∷ xs) h = cons-ne-nil x xs

module _ {A B : Type 0} (f : A → B) where
  pub In-map : (a : A) (xs : List A) → In a xs → In (f a) (map f xs)
  In-map a [] m = absurd m
  In-map a (x ∷ xs) (inl e) = inl (ap f e)
  In-map a (x ∷ xs) (inr m) = inr (In-map a xs m)

  pub In-of-map : (b : B) (xs : List A) → In b (map f xs) → (a : A) × In a xs × (b ≡ f a)
  In-of-map b [] m = absurd m
  In-of-map b (x ∷ xs) (inl e) = (x, inl refl, e)
  In-of-map b (x ∷ xs) (inr m) = let (a, i, e) = In-of-map b xs m in (a, inr i, e)

module _ {ℓ} {A : Type ℓ} where
  abbrev pub take : ℕ → List A → List A
  take zero xs = []
  take (suc n) [] = []
  take (suc n) (x ∷ xs) = x ∷ take n xs

  pub take-append : (xs ys : List A) → take (length xs) (xs ++ ys) ≡ xs
  take-append [] ys = refl
  take-append (x ∷ xs) ys = ap (λ t. x ∷ t) (take-append xs ys)

pub length-pos {ℓ} : {A : Type ℓ} (xs : List A) → xs ≢ [] → 0 < length xs
length-pos [] h = absurd (h refl)
length-pos (x ∷ xs) h = omega arith

module _ {ℓ} {A : Type ℓ} where
  pub any_of-append :
      (p : A → Bool) (xs ys : List A) → any_of p ys ≡ true → any_of p (xs ++ ys) ≡ true
  any_of-append p [] ys h = h
  any_of-append p (x ∷ xs) ys h = ground (arith, any_of-append p xs ys h)

  pub drop-append_cons :
      (xs : List A) (y : A) (ys : List A) → drop (length xs + 1) (xs ++ y ∷ ys) ≡ ys
  drop-append_cons [] y ys = refl
  drop-append_cons (x ∷ xs) y ys =
      let e : length (x ∷ xs) + 1 ≡ suc (length xs + 1) = omega arith in
      rw e (drop-append_cons xs y ys)

pub is_nil-append {ℓ} :
    {A : Type ℓ} (xs : List A) (y : A) (ys : List A) → is_nil (xs ++ y ∷ ys) ≡ false
is_nil-append [] y ys = refl
is_nil-append (x ∷ xs) y ys = refl

module _ {A : Type 0} (p : A → Bool) where
  pub In-keep : (a : A) (xs : List A) → In a (keep p xs) ↔ ((p a ≡ true) × In a xs)
  In-keep a [] = (λ h. absurd h, λ h. absurd h.1)
  In-keep a (x ∷ xs) = elim (Bool-cases (p x)) [
    | inl t ↦ rw t (
      λ h. elim h [
        | inl e ↦ (rw e t, inl e)
        | inr m ↦ let (q, k) = (In-keep a xs).0 m in (q, inr k)
      ],
      λ h. elim h.1 [ inl e ↦ inl e | inr m ↦ inr ((In-keep a xs).1 (h.0, m)) ],
    )
    | inr f ↦ rw f (
      λ h. let (q, k) = (In-keep a xs).0 h in (q, inr k),
      λ h. elim h.1 [
        | inl e ↦ let bad : p x ≡ true = rw (sym e) h.0 in absurd (ground arith)
        | inr m ↦ (In-keep a xs).1 (h.0, m)
      ],
    )
  ]
