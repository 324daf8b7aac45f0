-- ===== src/Linux/Procfs/Status/Keys.antt =====
-- What one line of a status does to the fields, `read_key`.
use lx.Base.{
  refl, some, none, true, false, nat_Eq, list_Eq, int_Eq, option_Eq, Bytes, Option, ℕ, ◌≡◌, Bool,
  text, ◌==◌, ◌⊎◌, ◌∙◌, inl, arith, ◌*◌, ◌≤◌, Bool-cases, ltb, ◌/◌, inr, ◌%◌, ◌^◌, list_eq_iff, sym,
}
use lx.Linux.Procfs.Status.{
  rss_of, fill_field, status_failure, Progress, read_key, read_rss, read_field,
}
use lx.Base.Decimal.{parse_unsigned, max_u64, max_u32}
use lx.Domain.{success}
use lx.Linux.Procfs.Status.Tokens.{chosen, IsNumber, later, IsSize}

-- A field and its mark before and after a text that says `o` of it.
pub data Shows (R : Bytes → ℕ → Type 0) (old new : ℕ) (had has : Bool) : Option Bytes → Type 0 where
  kept : new ≡ old → has ≡ had → Shows R old new had has none
  shown : (token : Bytes) → R token new → has ≡ true → Shows R old new had has (some token)

module _ {R : Bytes → ℕ → Type 0} where
  Shows-hit :
      {old new : ℕ} {had has : Bool} (key token field : Bytes)
      → (key == field) ≡ true
      → R token new
      → has ≡ true
      → Shows R old new had has (chosen key token field)
  Shows-hit key token field t r e = rw t (shown token r e)

  Shows-miss :
      {n : ℕ} {had : Bool} (key token field : Bytes)
      → (key == field) ≡ false
      → Shows R n n had had (chosen key token field)
  Shows-miss key token field f = rw f (kept refl refl)

  pub Shows-later :
      {x y z : ℕ} {a b c : Bool} {o p : Option Bytes}
      → Shows R x y a b o
      → Shows R y z b c p
      → Shows R x z a c (later p o)
  Shows-later s (shown token r e) = shown token r e
  Shows-later (kept e f) (kept g h) = kept (g ∙ e) (h ∙ f)
  Shows-later (shown token r e) (kept g h) = shown token (rw g r) (h ∙ e)

  pub Shows-required :
      (n : ℕ) (has : Bool) (o : Option Bytes)
      → Shows R 0 n false has o
      → has ≡ true
      → (token : Bytes) × (o ≡ some token) × R token n
  Shows-required n has none (kept e f) h = absurd cc
  Shows-required n has (some t) (shown token r e) h = (token, refl, r)

  pub Shows-optional :
      (n : ℕ) (o : Option Bytes)
      → Shows R 0 n true true o
      → ((o ≡ none) × (n ≡ 0)) ⊎ ((token : Bytes) × (o ≡ some token) × R token n)
  Shows-optional n none (kept e f) = inl (refl, e)
  Shows-optional n (some t) (shown token r e) = inr (token, refl, r)

-- What a text that says `says` of each field does to the four of them.
pub record Steps (says : Bytes → Option Bytes) (seen next : Progress) : Type 0 where
  pub uid :
      Shows IsNumber seen.status.uid next.status.uid seen.has_uid next.has_uid (says (text "Uid"))
  pub gid :
      Shows IsNumber seen.status.gid next.status.gid seen.has_gid next.has_gid (says (text "Gid"))
  pub threads :
      Shows IsNumber seen.status.threads next.status.threads seen.has_threads next.has_threads
        (says (text "Threads"))
  pub rss : Shows IsSize seen.status.rss_bytes next.status.rss_bytes true true (says (text "VmRSS"))

fill_field-success :
    (message : Bytes) (fill : ℕ → Progress) (o : Option ℕ) (next : Progress)
    → fill_field message fill o ≡ success next
    → (n : ℕ) × (o ≡ some n) × (fill n ≡ next)
unfolding fill_field status_failure
fill_field-success message fill none next h = absurd cc
fill_field-success message fill (some n) next h = (n, refl, ground arith)

rss_of-success :
    (seen next : Progress) (o : Option ℕ)
    → rss_of seen o ≡ success next
    → (kib : ℕ) × (o ≡ some kib)
      × (kib * 1024 % 2 ^ 64 ≡ kib * 1024)
      × (kib * 1024 ≤ max_u64)
      × (record seen { status = record seen.status { rss_bytes = kib * 1024 % 2 ^ 64 } } ≡ next)
unfolding rss_of status_failure
rss_of-success seen next none h = absurd cc
rss_of-success seen next (some kib) h = elim (Bool-cases (ltb (max_u64 / 1024) kib)) [
  | inl over ↦ absurd (ground arith)
  | inr fine ↦ (kib, refl, ground arith, ground arith, ground arith)
]

-- a name is not another's
other : (key a b : Bytes) → (key == a) ≡ true → (a == b) ≡ false → (key == b) ≡ false
other key a b t f = let same = (list_eq_iff key a).0 t in rw same f

-- the four names, none of which is another
record AreDistinct : Type 0 where
  pub uid_gid : (text "Uid" == text "Gid") ≡ false
  pub uid_threads : (text "Uid" == text "Threads") ≡ false
  pub uid_rss : (text "Uid" == text "VmRSS") ≡ false
  pub gid_threads : (text "Gid" == text "Threads") ≡ false
  pub gid_rss : (text "Gid" == text "VmRSS") ≡ false
  pub threads_rss : (text "Threads" == text "VmRSS") ≡ false

names-AreDistinct : AreDistinct
unfolding text
names-AreDistinct = record {
  uid_gid = refl;
  uid_threads = refl;
  uid_rss = refl;
  gid_threads = refl;
  gid_rss = refl;
  threads_rss = refl;
}

module _ (key token : Bytes) (seen next : Progress) where
  uid-Steps :
      (key == text "Uid") ≡ true
      → read_field max_u32 token
          (text "Invalid Uid field")
          (λ n. record seen { status = record seen.status { uid = n }; has_uid = true })
        ≡ success next
      → Steps (chosen key token) seen next
  unfolding read_field
  uid-Steps t h =
      let (n, read, is) =
        fill_field-success _
          (λ n. record seen { status = record seen.status { uid = n }; has_uid = true })
          (parse_unsigned max_u32 token) next h in
      let d = names-AreDistinct in
      rw (sym is) (record {
        uid = Shows-hit key token _ t read refl;
        gid = Shows-miss key token _ (other key _ _ t d.uid_gid);
        threads = Shows-miss key token _ (other key _ _ t d.uid_threads);
        rss = Shows-miss key token _ (other key _ _ t d.uid_rss);
      })

  gid-Steps :
      (key == text "Uid") ≡ false
      → (key == text "Gid") ≡ true
      → read_field max_u32 token
          (text "Invalid Gid field")
          (λ n. record seen { status = record seen.status { gid = n }; has_gid = true })
        ≡ success next
      → Steps (chosen key token) seen next
  unfolding read_field
  gid-Steps u t h =
      let (n, read, is) =
        fill_field-success _
          (λ n. record seen { status = record seen.status { gid = n }; has_gid = true })
          (parse_unsigned max_u32 token) next h in
      let d = names-AreDistinct in
      rw (sym is) (record {
        uid = Shows-miss key token _ u;
        gid = Shows-hit key token _ t read refl;
        threads = Shows-miss key token _ (other key _ _ t d.gid_threads);
        rss = Shows-miss key token _ (other key _ _ t d.gid_rss);
      })

  threads-Steps :
      (key == text "Uid") ≡ false
      → (key == text "Gid") ≡ false
      → (key == text "Threads") ≡ true
      → read_field max_u32 token
          (text "Invalid Threads field")
          (λ n. record seen { status = record seen.status { threads = n }; has_threads = true })
        ≡ success next
      → Steps (chosen key token) seen next
  unfolding read_field
  threads-Steps u g t h =
      let (n, read, is) =
        fill_field-success _
          (λ n. record seen { status = record seen.status { threads = n }; has_threads = true })
          (parse_unsigned max_u32 token) next h in
      rw (sym is) (record {
        uid = Shows-miss key token _ u;
        gid = Shows-miss key token _ g;
        threads = Shows-hit key token _ t read refl;
        rss = Shows-miss key token _ (other key _ _ t names-AreDistinct.threads_rss);
      })

  rss-Steps :
      (key == text "Uid") ≡ false
      → (key == text "Gid") ≡ false
      → (key == text "Threads") ≡ false
      → (key == text "VmRSS") ≡ true
      → read_rss token seen ≡ success next
      → Steps (chosen key token) seen next
  unfolding read_rss
  rss-Steps u g n t h =
      let (kib, read, whole, small, is) =
        rss_of-success seen next (parse_unsigned max_u64 token) h in
      rw (sym is) (record {
        uid = Shows-miss key token _ u;
        gid = Shows-miss key token _ g;
        threads = Shows-miss key token _ n;
        rss = Shows-hit key token _ t (kib, read, whole, small) refl;
      })

  pub read_key-Steps : read_key key token seen ≡ success next → Steps (chosen key token) seen next
  unfolding read_key
  read_key-Steps h = elim (Bool-cases (key == text "Uid")) [
    | inl t ↦ uid-Steps t (ground arith)
    | inr u ↦ elim (Bool-cases (key == text "Gid")) [
      | inl t ↦ gid-Steps u t (ground arith)
      | inr g ↦ elim (Bool-cases (key == text "Threads")) [
        | inl t ↦ threads-Steps u g t (ground arith)
        | inr n ↦ elim (Bool-cases (key == text "VmRSS")) [
          | inl t ↦ rss-Steps u g n t (ground arith)
          | inr v ↦
              let is : seen ≡ next = ground arith in
              rw (sym is) (record {
                uid = Shows-miss key token _ u;
                gid = Shows-miss key token _ g;
                threads = Shows-miss key token _ n;
                rss = Shows-miss key token _ v;
              })
        ]
      ]
    ]
  ]
