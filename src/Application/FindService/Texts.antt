-- ===== src/Application/FindService/Texts.antt =====
-- The search in texts of FindService.cpp.
use lx.Base.{
  [], ◌∷◌, true, inl, inr, refl, starts_with, Bytes, ◌≡◌, ◌++◌, ◌↔◌, Bool-cases, arith, ap, ℕ,
  starts_with-append,
}
use lx.Application.FindService.{occurs}

-- `find` has a position: what is before the needle and what is behind it
abbrev pub IsPart : Bytes → Bytes → Type 0
IsPart needle value = (front : Bytes) × (back : Bytes) × (value ≡ front ++ (needle ++ back))

starts_with-heads :
    (c d : ℕ) (p s : Bytes)
    → starts_with (c ∷ p) (d ∷ s) ≡ true
    → (c ≡ d) × (starts_with p s ≡ true)
unfolding starts_with
starts_with-heads c d p s h = (ground arith, ground arith)

starts_with-rest : (p s : Bytes) → starts_with p s ≡ true → (back : Bytes) × (s ≡ p ++ back)
unfolding starts_with
starts_with-rest [] s h = (s, refl)
starts_with-rest (c ∷ p) [] h = absurd (cc)
starts_with-rest (c ∷ p) (d ∷ s) h =
    let (same, rest) = starts_with-heads c d p s h in
    let (back, e) = starts_with-rest p s rest in (back, cc)

occurs-IsPart : (needle value : Bytes) → occurs needle value ≡ true → IsPart needle value
unfolding occurs
occurs-IsPart [] [] h = ([], [], refl)
occurs-IsPart (c ∷ needle) [] h = absurd (cc)
occurs-IsPart needle (c ∷ rest) h = elim (Bool-cases (starts_with needle (c ∷ rest))) [
  | inl t ↦ let (back, e) = starts_with-rest needle (c ∷ rest) t in ([], back, e)
  | inr f ↦
      let (front, back, e) = occurs-IsPart needle rest (ground arith) in
      (c ∷ front, back, ap (λ s. c ∷ s) e)
]

occurs-append : (needle front back : Bytes) → occurs needle (front ++ (needle ++ back)) ≡ true
unfolding occurs starts_with
occurs-append [] [] [] = refl
occurs-append [] [] (c ∷ back) = refl
occurs-append (c ∷ needle) [] back = let t = starts_with-append (c ∷ needle) back in ground arith
occurs-append needle (c ∷ front) back = let t = occurs-append needle front back in ground arith

pub occurs_iff : (needle value : Bytes) → (occurs needle value ≡ true) ↔ IsPart needle value
occurs_iff needle value =
    (occurs-IsPart needle value, λ (front, back, e). rw e (occurs-append needle front back))
