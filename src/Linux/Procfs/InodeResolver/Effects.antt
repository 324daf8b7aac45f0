-- ===== src/Linux/Procfs/InodeResolver/Effects.antt =====
-- What each step of the scan adds to the ownership, SocketInodeResolver.cpp.
use lx.Base.{[], ◌∷◌}
use lx.Linux.Procfs.InodeResolver.{Scan, add_owner}
use lx.Base.{
  nat_Eq, list_Eq, int_Eq, option_Eq, [], false, ◌≡◌, ℕ, ℤ, ◌==◌, inr, List, arith, ◌↔◌, ◌⊎◌, In,
  inl, Bool-cases, sym, nat_eq_iff, if◌then◌else◌, In-append, ◌∙◌,
}
use lx.Domain.{SocketOwnership}

-- `ownership.find(inode)`, with no owners where it is `end()`
abbrev pub owners_in : ℕ → SocketOwnership → List ℤ
owners_in inode [] = []
owners_in inode ((i, pids) ∷ rest) = if i == inode then pids else owners_in inode rest

differ : (i j : ℕ) → (j == i) ≡ false → i ≡ j → ⊥
differ i j f e = ground arith

pub In-add_owner :
    (i j : ℕ) (p q : ℤ) (o : SocketOwnership)
    → In p (owners_in i (add_owner j q o)) ↔ (((i ≡ j) × (p ≡ q)) ⊎ In p (owners_in i o))
unfolding add_owner
In-add_owner i j p q [] = elim (Bool-cases (j == i)) [
  | inl t ↦ rw t (
    λ h. elim h [ inl e ↦ inl (sym ((nat_eq_iff j i).0 t), e) | inr n ↦ absurd n ],
    λ h. elim h [ inl e ↦ inl e.1 | inr n ↦ absurd n ],
  )
  | inr f ↦
      rw f (λ h. absurd h, λ h. elim h [ inl e ↦ absurd (differ i j f e.0) | inr n ↦ absurd n ])
]
In-add_owner i j p q ((k, pids) ∷ rest) = elim (Bool-cases (k == j)) [
  | inl t ↦ elim (Bool-cases (k == i)) [
    | inl u ↦
        rw (t, u)
          (
            λ h. elim ((In-append p pids (q ∷ [])).0 h) [
              | inl old ↦ inr old
              | inr new ↦ elim new [
                | inl e ↦ inl (sym ((nat_eq_iff k i).0 u) ∙ (nat_eq_iff k j).0 t, e)
                | inr n ↦ absurd n
              ]
            ],
            λ h.
                (In-append p pids (q ∷ [])).1
                  (elim h [ inl e ↦ inr (inl e.1) | inr old ↦ inl old ]),
          )
    | inr f ↦
        rw (t, f)
          (
            λ h. inr h,
            λ h. elim h [
              | inl e ↦ absurd (differ i k f (e.0 ∙ sym ((nat_eq_iff k j).0 t)))
              | inr old ↦ old
            ],
          )
  ]
  | inr g ↦ elim (Bool-cases (k == i)) [
    | inl u ↦
        rw (g, u)
          (
            λ h. inr h,
            λ h. elim h [
              | inl e ↦ absurd (differ j k g (sym e.0 ∙ sym ((nat_eq_iff k i).0 u)))
              | inr old ↦ old
            ],
          )
    | inr f ↦ rw (g, f) (In-add_owner i j p q rest)
  ]
]

-- The step adds exactly the owners that `E` describes.
pub record Adds (E : ℕ → ℤ → Type 0) (f : Scan → Scan) : Type 0 where
  pub exact :
      (s : Scan) (i : ℕ) (p : ℤ)
      → In p (owners_in i (f s).ownership) ↔ (E i p ⊎ In p (owners_in i s.ownership))

abbrev pub Nothing : ℕ → ℤ → Type 0
Nothing i p = ⊥

pub Adds-Nothing : (f : Scan → Scan) → ((s : Scan) → (f s).ownership ≡ s.ownership) → Adds Nothing f
Adds-Nothing f same = record {
  exact = λ s i p. rw (same s) (λ h. inr h, λ h. elim h [ inl n ↦ absurd n | inr o ↦ o ]);
}

pub Adds-then :
    (E F : ℕ → ℤ → Type 0) (f g : Scan → Scan)
    → Adds E f
    → Adds F g
    → Adds (λ i p. E i p ⊎ F i p) (λ s. g (f s))
Adds-then E F f g a b = record {
  exact = λ s i p. (
    λ h. elim ((b.exact (f s) i p).0 h) [
      | inl new ↦ inl (inr new)
      | inr old ↦ elim ((a.exact s i p).0 old) [ inl e ↦ inl (inl e) | inr o ↦ inr o ]
    ],
    λ h. (b.exact (f s) i p).1 (elim h [
      | inl n ↦ elim n [ inl e ↦ inr ((a.exact s i p).1 (inl e)) | inr new ↦ inl new ]
      | inr o ↦ inr ((a.exact s i p).1 (inr o))
    ]),
  );
}

pub Adds-same :
    (E F : ℕ → ℤ → Type 0) (f : Scan → Scan)
    → Adds E f
    → ((i : ℕ) (p : ℤ) → E i p ↔ F i p)
    → Adds F f
Adds-same E F f a same = record {
  exact = λ s i p. (
    λ h. elim ((a.exact s i p).0 h) [ inl e ↦ inl ((same i p).0 e) | inr o ↦ inr o ],
    λ h. (a.exact s i p).1 (elim h [ inl e ↦ inl ((same i p).1 e) | inr o ↦ inr o ]),
  );
}
