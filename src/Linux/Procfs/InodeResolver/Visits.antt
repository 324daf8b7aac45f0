-- ===== src/Linux/Procfs/InodeResolver/Visits.antt =====
-- What the loops of `resolve` add, SocketInodeResolver.cpp.
use lx.Base.{
  [], ◌∷◌, some, none, inl, inr, refl, Bytes, List, ℕ, ◌⊎◌, ℤ, In, ◌≡◌, Option, ◌↔◌, true, nat_Eq,
  list_Eq, int_Eq, option_Eq, arith, contains-In, sym, Bool-cases, ap, contains,
}
use lx.Domain.{success, failure, Result}
use lx.Linux.Procfs.InodeResolver.{
  Listing, end, entry, last, Tree, visit_link, own, wanted, parse_pid_name, visit_processes,
  visit_descriptors, visit_process, count_error, visit_directory, Scan, visit_pid,
}
use lx.Linux.Errno.{Errno}
use lx.Linux.Procfs.InodeResolver.Effects.{Adds, Adds-same, Adds-Nothing, In-add_owner, Adds-then}
use lx.Linux.Procfs.SocketFdTarget.{parse_socket_fd_target}

abbrev pub names : Listing → List Bytes
names end = []
names (entry name rest) = name ∷ names rest
names (last name e) = name ∷ []

-- The link of a descriptor can be read and names the socket.
abbrev pub Shows : Errno ⊎ Bytes → ℕ → Type 0
Shows link inode =
    (target : Bytes) × (link ≡ inr target) × (parse_socket_fd_target target ≡ success (some inode))

-- The directory can be opened, and one of its links shows the socket.
abbrev pub Holds : (Bytes → Errno ⊎ Bytes) → Errno ⊎ Listing → ℕ → Type 0
Holds link directory inode =
    (listing : Listing) × (directory ≡ inr listing)
    × (name : Bytes) × In name (names listing)
    × Shows (link name) inode

-- A directory among the names is the process's, and it holds the socket.
abbrev pub Owns : Tree → List Bytes → ℤ → ℕ → Type 0
Owns tree entries pid inode =
    (name : Bytes) × In name entries
    × (parse_pid_name name ≡ some pid)
    × Holds (tree.link name) (tree.descriptors name) inode

same_some : (a b : ℕ) → ◌≡◌ {A = Option ℕ} (some a) (some b) → a ≡ b
same_some a b h = ground arith

pub same_listing : (a b : Listing) → ◌≡◌ {A = Errno ⊎ Listing} (inr a) (inr b) → a ≡ b
same_listing a b h = cc

not_opened : (e : Errno) (l : Listing) → ◌≡◌ {A = Errno ⊎ Listing} (inl e) (inr l) → ⊥
not_opened e l h = cc

no_pid : (p : ℤ) → ◌≡◌ {A = Option ℤ} none (some p) → ⊥
no_pid p h = cc

same_pid : (a b : ℤ) → ◌≡◌ {A = Option ℤ} (some a) (some b) → a ≡ b
same_pid a b h = cc

at_name :
    (tree : Tree) (n name : Bytes) (p : ℤ) (i : ℕ)
    → n ≡ name
    → (parse_pid_name n ≡ some p) × Holds (tree.link n) (tree.descriptors n) i
    → (parse_pid_name name ≡ some p) × Holds (tree.link name) (tree.descriptors name) i
at_name tree n name p i e w = rw (sym e) w

same_inr : (a b : Bytes) → ◌≡◌ {A = Errno ⊎ Bytes} (inr a) (inr b) → a ≡ b
same_inr a b h = cc

no_target : (i : ℕ) (e : Errno) → Shows (inl e) i → ⊥
no_target i e (target, h, q) = cc

moved :
    (link : Bytes → Errno ⊎ Bytes) (i : ℕ) (n name : Bytes)
    → n ≡ name
    → Shows (link n) i
    → Shows (link name) i
moved link i n name e w = rw (sym e) w

count_error-ownership : (e : Errno) (s : Scan) → (count_error e s).ownership ≡ s.ownership
unfolding count_error
count_error-ownership e s = ground arith

module _ (targets : List ℕ) where
  Adds-own : (pid : ℤ) (o : Option ℕ) → Adds (λ i p. (o ≡ some i) × (p ≡ pid)) (own pid o)
  unfolding own
  Adds-own pid none =
      Adds-same _ _ _ (Adds-Nothing _ (λ s. refl))
        (λ i p. (λ n. absurd n, λ h. absurd (unset i h.0)))
    where
      unset : (i : ℕ) → ◌≡◌ {A = Option ℕ} none (some i) → ⊥
      unset i h = cc
  Adds-own pid (some inode) = record {
    exact = λ s i p.
        let step = In-add_owner i inode p pid s.ownership in
        (
          λ h. elim (step.0 h) [ inl e ↦ inl (ap some (sym e.0), e.1) | inr o ↦ inr o ],
          λ h. step.1 (elim h [ inl e ↦ inl (sym (same_some inode i e.0), e.1) | inr o ↦ inr o ]),
        );
  }

  wanted_iff :
      (r : Result (Option ℕ)) (i : ℕ)
      → (wanted targets r ≡ some i) ↔ ((r ≡ success (some i)) × In i targets)
  unfolding wanted
  wanted_iff (failure e) i = (λ h. absurd cc, λ h. absurd cc)
  wanted_iff (success none) i = (λ h. absurd cc, λ h. absurd cc)
  wanted_iff (success (some j)) i = (
    λ h.
        let here = contains-In j targets in
        elim (Bool-cases (contains j targets)) [
          | inl t ↦ let same : j ≡ i = ground arith in (rw same refl, rw (sym same) (here.0 t))
          | inr f ↦ absurd (ground arith)
        ],
    λ h.
        let same : j ≡ i = ground arith in
        let t : contains j targets ≡ true = rw same ((contains-In i targets).1 h.1) in
        rw t (ap some same),
  )

  Adds-visit_link :
      (pid : ℤ) (link : Errno ⊎ Bytes)
      → Adds (λ i p. (p ≡ pid) × In i targets × Shows link i) (visit_link targets pid link)
  unfolding visit_link
  Adds-visit_link pid (inl e) =
      Adds-same _ _ _ (Adds-Nothing _ (count_error-ownership e))
        (λ i p. (λ n. absurd n, λ h. absurd (no_target i e h.2)))
  Adds-visit_link pid (inr target) =
      let seen = parse_socket_fd_target target in
      Adds-same _ _ _ (Adds-own pid (wanted targets seen)) (λ i p. (
        λ h. let (q, m) = (wanted_iff seen i).0 h.0 in (h.1, m, (target, refl, q)),
        λ h.
            let (t, e, q) = h.2 in
            let same : target ≡ t = same_inr target t e in
            ((wanted_iff seen i).1 (rw same q, h.1), h.0),
      ))

  Adds-visit_descriptors :
      (pid : ℤ) (link : Bytes → Errno ⊎ Bytes) (listing : Listing)
      → Adds
          (λ i p.
            (p ≡ pid)
            × In i targets
            × ((name : Bytes) × In name (names listing) × Shows (link name) i))
          (visit_descriptors targets pid link listing)
  unfolding visit_descriptors
  Adds-visit_descriptors pid link end =
      Adds-same _ _ _ (Adds-Nothing _ (λ s. refl)) (λ i p. (λ n. absurd n, λ h. absurd h.2.1))
  Adds-visit_descriptors pid link (entry name rest) =
      Adds-same _ _ _
        (Adds-then _ _ _ _ (Adds-visit_link pid (link name)) (Adds-visit_descriptors pid link rest))
        (λ i p. (
          λ h. elim h [
            | inl a ↦ (a.0, a.1, (name, inl refl, a.2))
            | inr b ↦ let (n, m, w) = b.2 in (b.0, b.1, (n, inr m, w))
          ],
          λ h.
              let (n, m, w) = h.2 in
              elim m [
                | inl e ↦ inl (h.0, h.1, moved link i n name e w)
                | inr k ↦ inr (h.0, h.1, (n, k, w))
              ],
        ))
  Adds-visit_descriptors pid link (last name e) =
      Adds-same _ _ _
        (Adds-then _ _ _ _ (Adds-Nothing _ (count_error-ownership e))
          (Adds-visit_link pid (link name)))
        (λ i p. (
          λ h. elim h [ inl n ↦ absurd n | inr a ↦ (a.0, a.1, (name, inl refl, a.2)) ],
          λ h.
              let (n, m, w) = h.2 in
              elim m [ inl q ↦ inr (h.0, h.1, moved link i n name q w) | inr k ↦ absurd k ],
        ))

  Adds-visit_directory :
      (pid : ℤ) (link : Bytes → Errno ⊎ Bytes) (directory : Errno ⊎ Listing)
      → Adds
          (λ i p. (p ≡ pid) × In i targets × Holds link directory i)
          (visit_directory targets pid link directory)
  unfolding visit_directory
  Adds-visit_directory pid link (inl e) =
      Adds-same _ _ _ (Adds-Nothing _ (count_error-ownership e))
        (λ i p. (λ n. absurd n, λ h. absurd (not_opened e h.2.0 h.2.1)))
  Adds-visit_directory pid link (inr listing) =
      Adds-same _ _ _ (Adds-visit_descriptors pid link listing) (λ i p. (
        λ h. let (n, m, w) = h.2 in (h.0, h.1, (listing, refl, n, m, w)),
        λ h.
            let (l, e, n, m, w) = h.2 in
            let same : listing ≡ l = same_listing listing l e in (h.0, h.1, (n, rw same m, w)),
      ))

  Adds-visit_pid :
      (tree : Tree) (name : Bytes) (o : Option ℤ)
      → Adds
          (λ i p. (o ≡ some p) × In i targets × Holds (tree.link name) (tree.descriptors name) i)
          (visit_pid targets tree name o)
  unfolding visit_pid
  Adds-visit_pid tree name none =
      Adds-same _ _ _ (Adds-Nothing _ (λ s. refl))
        (λ i p. (λ n. absurd n, λ h. absurd (no_pid p h.0)))
  Adds-visit_pid tree name (some pid) =
      Adds-same _ _ _ (Adds-visit_directory pid (tree.link name) (tree.descriptors name))
        (λ i p. (λ h. (ap some (sym h.0), h.1, h.2), λ h. (sym (same_pid pid p h.0), h.1, h.2)))

  Adds-visit_process :
      (tree : Tree) (name : Bytes)
      → Adds
          (λ i p.
            (parse_pid_name name ≡ some p)
            × In i targets
            × Holds (tree.link name) (tree.descriptors name) i)
          (visit_process targets tree name)
  unfolding visit_process
  Adds-visit_process tree name = Adds-visit_pid tree name (parse_pid_name name)

  pub Adds-visit_processes :
      (tree : Tree) (listing : Listing)
      → Adds
          (λ i p. In i targets × Owns tree (names listing) p i)
          (visit_processes targets tree listing)
  unfolding visit_processes
  Adds-visit_processes tree end =
      Adds-same _ _ _ (Adds-Nothing _ (λ s. refl)) (λ i p. (λ n. absurd n, λ h. absurd h.1.1))
  Adds-visit_processes tree (entry name rest) =
      Adds-same _ _ _
        (Adds-then _ _ _ _ (Adds-visit_process tree name) (Adds-visit_processes tree rest))
        (λ i p. (
          λ h. elim h [
            | inl a ↦ (a.1, (name, inl refl, a.0, a.2))
            | inr b ↦ let (n, m, q, w) = b.1 in (b.0, (n, inr m, q, w))
          ],
          λ h.
              let (n, m, r, w) = h.1 in
              elim m [
                | inl q ↦ let here = at_name tree n name p i q (r, w) in inl (here.0, h.0, here.1)
                | inr k ↦ inr (h.0, (n, k, r, w))
              ],
        ))
  Adds-visit_processes tree (last name e) =
      Adds-same _ _ _
        (Adds-then _ _ _ _ (Adds-Nothing _ (count_error-ownership e))
          (Adds-visit_process tree name))
        (λ i p. (
          λ h. elim h [ inl n ↦ absurd n | inr a ↦ (a.1, (name, inl refl, a.0, a.2)) ],
          λ h.
              let (n, m, r, w) = h.1 in
              elim m [
                | inl q ↦ let here = at_name tree n name p i q (r, w) in inr (here.0, h.0, here.1)
                | inr k ↦ absurd k
              ],
        ))
