-- ===== src/Base/Sort.antt =====
-- `std::sort`, `std::unique` and `std::includes` of `<algorithm>`, on lists. The source sorts numbers and
-- tuples of numbers and texts, whose order is total, so every sorting algorithm gives the same list; where
-- it sorts by a member, by `std::stable_sort`, equal elements keep their order, as they do here.
use lx.Base.Tests.{Comparable, ◌==◌, if◌then◌else◌, Bool-cases}
use lx.Base.Lists.{All, In, All-In, All-of-In}
use mathlib.Core.Path.{◌≡◌, sym, ◌∙◌}
use mathlib.Core.Logic.{◌↔◌, inl, inr}
use mathlib.Core.Bool.{Bool, true, false}
use mathlib.Core.List.{List, [], ◌∷◌}
use native.Mathlib.Omega.{arith}

module _ {ℓ} {A : Type ℓ} (lt : A → A → Bool) where
  unfoldable pub insert_sorted : A → List A → List A
  insert_sorted x [] = x ∷ []
  insert_sorted x (y ∷ ys) = if lt y x then y ∷ insert_sorted x ys else x ∷ y ∷ ys

  unfoldable pub sort : List A → List A
  unfolding insert_sorted
  sort [] = []
  sort (x ∷ xs) = insert_sorted x (sort xs)

  -- no element stands behind one that is above it
  abbrev pub IsSorted : List A → Type 0
  IsSorted [] = Unit
  IsSorted (x ∷ xs) = All (λ y. lt y x ≡ false) xs × IsSorted xs

  -- every element is above those in front of it
  abbrev pub IsAscending : List A → Type 0
  IsAscending [] = Unit
  IsAscending (x ∷ xs) = All (λ y. lt x y ≡ true) xs × IsAscending xs

module _ {A : Type 0} (lt : A → A → Bool) where
  In-insert_sorted : (a x : A) (ys : List A) → In a (insert_sorted lt x ys) ↔ In a (x ∷ ys)
  unfolding insert_sorted
  In-insert_sorted a x [] = (λ h. h, λ h. h)
  In-insert_sorted a x (y ∷ ys) =
      let r = In-insert_sorted a x ys in
      elim (Bool-cases (lt y x)) [
        | inl t ↦ rw t (
          λ h. elim h [
            | inl e ↦ inr (inl e)
            | inr m ↦ elim (r.0 m) [ inl e ↦ inl e | inr k ↦ inr (inr k) ]
          ],
          λ h. elim h [
            | inl e ↦ inr (r.1 (inl e))
            | inr k ↦ elim k [ inl e ↦ inl e | inr j ↦ inr (r.1 (inr j)) ]
          ],
        )
        | inr f ↦ rw f (λ h. h, λ h. h)
      ]

  pub In-sort : (a : A) (xs : List A) → In a (sort lt xs) ↔ In a xs
  unfolding sort
  In-sort a [] = (λ h. h, λ h. h)
  In-sort a (x ∷ xs) =
      let i = In-insert_sorted a x (sort lt xs) in
      let r = In-sort a xs in
      (
        λ h. elim (i.0 h) [ inl e ↦ inl e | inr m ↦ inr (r.0 m) ],
        λ h. i.1 (elim h [ inl e ↦ inl e | inr m ↦ inr (r.1 m) ]),
      )

-- The order of a `<` on numbers, pairs and texts.
pub record IsTotal {A : Type 0} (lt : A → A → Bool) : Type 0 where
  pub irrefl : (a : A) → lt a a ≡ false
  pub trans : (a b c : A) → lt a b ≡ true → lt b c ≡ true → lt a c ≡ true
  pub total : (a b : A) → lt a b ≡ false → lt b a ≡ false → a ≡ b

-- The order of a `<` that may not tell values apart, such as one that compares a member.
pub record IsWeak {A : Type 0} (lt : A → A → Bool) : Type 0 where
  pub asym : (a b : A) → lt a b ≡ true → lt b a ≡ false
  pub not_lt_trans : (a b c : A) → lt b a ≡ false → lt c b ≡ false → lt c a ≡ false

module _ {A : Type 0} (lt : A → A → Bool) (o : IsTotal lt) where
  lt_asym : (a b : A) → lt a b ≡ true → lt b a ≡ false
  lt_asym a b h = elim (Bool-cases (lt b a)) [
    | inl t ↦ let c = o.trans a b a h t in let i = o.irrefl a in absurd (ground arith)
    | inr f ↦ f
  ]

  -- b is not above a, and c is not above b
  not_lt_trans : (a b c : A) → lt b a ≡ false → lt c b ≡ false → lt c a ≡ false
  not_lt_trans a b c h k = elim (Bool-cases (lt c a)) [
    | inr f ↦ f
    | inl t ↦ elim (Bool-cases (lt a b)) [
      | inl u ↦ let v = o.trans c a b t u in absurd (ground arith)
      | inr u ↦ let e : a ≡ b = o.total a b u h in rw e k
    ]
  ]

  IsTotal-IsWeak : IsWeak lt
  IsTotal-IsWeak = record { asym = lt_asym; not_lt_trans = not_lt_trans }

module _ {A : Type 0} (lt : A → A → Bool) (o : IsWeak lt) where
  insert_sorted-IsSorted :
      (x : A) (ys : List A) → IsSorted lt ys → IsSorted lt (insert_sorted lt x ys)
  unfolding insert_sorted
  insert_sorted-IsSorted x [] _ = (tt, tt)
  insert_sorted-IsSorted x (y ∷ ys) (low, rest) = elim (Bool-cases (lt y x)) [
    | inl t ↦ rw t (
      All-of-In _ (insert_sorted lt x ys) (λ a m. elim ((In-insert_sorted lt a x ys).0 m) [
        | inl e ↦ rw e (o.asym y x t)
        | inr k ↦ All-In _ a ys low k
      ]),
      insert_sorted-IsSorted x ys rest,
    )
    | inr f ↦ rw f (
      (f, All-of-In _ ys (λ a m. o.not_lt_trans x y a f (All-In (λ b. lt b y ≡ false) a ys low m))),
      (low, rest),
    )
  ]

  pub weak_sort-IsSorted : (xs : List A) → IsSorted lt (sort lt xs)
  unfolding sort
  weak_sort-IsSorted [] = tt
  weak_sort-IsSorted (x ∷ xs) = insert_sorted-IsSorted x (sort lt xs) (weak_sort-IsSorted xs)

pub sort-IsSorted :
    {A : Type 0} (lt : A → A → Bool) → IsTotal lt → (xs : List A) → IsSorted lt (sort lt xs)
sort-IsSorted lt o xs = weak_sort-IsSorted lt (IsTotal-IsWeak lt o) xs

-- the order of a member
pub member-IsWeak :
    {A B : Type 0} (lt : B → B → Bool) (f : A → B) → IsTotal lt → IsWeak (λ x y. lt (f x) (f y))
member-IsWeak lt f o =
    let w = IsTotal-IsWeak lt o in
    record {
      asym = λ a b. w.asym (f a) (f b);
      not_lt_trans = λ a b c. w.not_lt_trans (f a) (f b) (f c);
    }

module _ {A : Type 0} ⦃e : Comparable A⦄ where
  -- the elements behind `x` that differ from their neighbour in front; equal neighbours are the same
  -- value, so the neighbour may be the dropped one
  unfoldable pub skip_equal : A → List A → List A
  skip_equal x [] = []
  skip_equal x (y ∷ ys) = let rest = skip_equal y ys in if x == y then rest else y ∷ rest

  -- `erase(unique(first, last), last)`.
  unfoldable pub unique : List A → List A
  unfolding skip_equal
  unique [] = []
  unique (x ∷ xs) = x ∷ skip_equal x xs

  In-skip_equal : (a x : A) (ys : List A) → In a (x ∷ skip_equal x ys) ↔ In a (x ∷ ys)
  unfolding skip_equal
  In-skip_equal a x [] = (λ h. h, λ h. h)
  In-skip_equal a x (y ∷ ys) =
      let r = In-skip_equal a y ys in
      elim (Bool-cases (x == y)) [
        | inl t ↦ rw t (
            let p : x ≡ y = (e.equals_iff x y).0 t in
            rw p (λ h. inr (r.0 h), λ h. elim h [ inl q ↦ inl q | inr m ↦ r.1 m ]))
        | inr f ↦ rw f (
          λ h. elim h [ inl q ↦ inl q | inr m ↦ inr (r.0 m) ],
          λ h. elim h [ inl q ↦ inl q | inr m ↦ inr (r.1 m) ],
        )
      ]

  pub In-unique : (a : A) (xs : List A) → In a (unique xs) ↔ In a xs
  unfolding unique
  In-unique a [] = (λ h. h, λ h. h)
  In-unique a (x ∷ xs) = In-skip_equal a x xs

  module _ (lt : A → A → Bool) (o : IsTotal lt) where
    skip_equal-IsAscending :
        (x : A) (ys : List A) → IsSorted lt (x ∷ ys) → IsAscending lt (x ∷ skip_equal x ys)
    unfolding skip_equal
    skip_equal-IsAscending x [] _ = (tt, tt)
    skip_equal-IsAscending x (y ∷ ys) ((yx, low), (lowy, rest)) = elim (Bool-cases (x == y)) [
      | inl t ↦
          let p : x ≡ y = (e.equals_iff x y).0 t in
          rw t (rw p (skip_equal-IsAscending y ys (lowy, rest)))
      | inr f ↦
          let r = skip_equal-IsAscending y ys (lowy, rest) in
          let xy : lt x y ≡ true = elim (Bool-cases (lt x y)) [
            | inl u ↦ u
            | inr u ↦ let w = (e.equals_iff x y).1 (o.total x y u yx) in absurd (ground arith)
          ] in
          rw f (
            (
              xy,
              All-of-In _ (skip_equal y ys)
                  (λ a m. o.trans x y a xy (All-In (λ b. lt y b ≡ true) a (skip_equal y ys) r.0 m)),
            ),
            r,
          )
    ]

    -- Sorting and dropping equal neighbours leaves the values once each, in ascending order.
    pub unique-sort-IsAscending : (xs : List A) → IsAscending lt (unique (sort lt xs))
    unfolding unique
    unique-sort-IsAscending xs = go (sort lt xs) (sort-IsSorted lt o xs)
      where
        go : (ys : List A) → IsSorted lt ys → IsAscending lt (unique ys)
        go [] _ = tt
        go (y ∷ ys) s = skip_equal-IsAscending y ys s

-- `std::includes`: walks both ascending ranges at once.
unfoldable pub includes {ℓ} : {A : Type ℓ} → (A → A → Bool) → List A → List A → Bool
includes lt xs [] = true
includes lt [] (y ∷ ys) = false
includes lt (x ∷ xs) (y ∷ ys) =
    let rest = includes lt xs (if lt x y then y ∷ ys else ys) in if lt y x then false else rest

-- What `includes` accepts is a subset.
pub includes-In :
    {A : Type 0} (lt : A → A → Bool) (o : IsTotal lt) (xs ys : List A) (a : A)
    → includes lt xs ys ≡ true
    → In a ys
    → In a xs
unfolding includes
includes-In lt o xs [] a h m = absurd m
includes-In lt o [] (y ∷ ys) a h m = absurd (ground arith)
includes-In lt o (x ∷ xs) (y ∷ ys) a h m = elim (Bool-cases (lt y x)) [
  | inl t ↦ absurd (ground arith)
  | inr f ↦ elim (Bool-cases (lt x y)) [
    | inl u ↦ inr (includes-In lt o xs (y ∷ ys) a (ground arith) m)
    | inr u ↦
        let e : x ≡ y = o.total x y u f in
        let rest : includes lt xs ys ≡ true = ground arith in
        elim m [ inl p ↦ inl (p ∙ sym e) | inr k ↦ inr (includes-In lt o xs ys a rest k) ]
  ]
]
