-- ===== src/Linux/Procfs/InodeResolver/Owners.antt =====
-- What `resolve` finds, SocketInodeResolver.cpp.
use lx.Base.{
  [], ◌∷◌, inl, inr, refl, List, ℕ, ◌⊎◌, ℤ, In, ◌≡◌, ◌↔◌, true, nat_Eq, list_Eq, int_Eq, option_Eq,
  arith, sym, Bool-cases, ap, ◌≢◌, int_ltb, ◌==◌, not, In-keep, All, int_ltb-IsTotal, is_nil, ◌∙◌,
}
use lx.Domain.{success, SocketOwnership, Observation}
use lx.Linux.Procfs.InodeResolver.{
  Listing, Tree, visit_processes, target_inodes, sort_owners, resolve, resolve_root, observation_of,
  nothing_scanned,
}
use lx.Linux.Errno.{Errno, System}
use lx.Linux.Procfs.InodeResolver.Effects.{owners_in}
use lx.Base.Sort.{unique, sort, In-sort, IsAscending, In-unique, unique-sort-IsAscending}
use lx.Exec.Returns.{success-injective}
use lx.Linux.Procfs.InodeResolver.Visits.{names, Owns, Adds-visit_processes, same_listing}

owners_in-sort_owners :
    (i : ℕ) (o : SocketOwnership)
    → owners_in i (sort_owners o) ≡ unique (sort int_ltb (owners_in i o))
unfolding sort_owners unique sort
owners_in-sort_owners i [] = refl
owners_in-sort_owners i ((j, pids) ∷ rest) = elim (Bool-cases (j == i)) [
  | inl t ↦ rw t refl
  | inr f ↦ rw f (owners_in-sort_owners i rest)
]

nonzero : (i : ℕ) → i ≡ 0 → not (i == 0) ≡ true → ⊥
nonzero i e h = ground arith

positive_inode : (i : ℕ) → i ≢ 0 → not (i == 0) ≡ true
positive_inode i h = ground arith

In-target_inodes : (i : ℕ) (inodes : List ℕ) → In i (target_inodes inodes) ↔ ((i ≢ 0) × In i inodes)
unfolding target_inodes
In-target_inodes i inodes =
    let step = In-keep (λ (k : ℕ). not (k == 0)) i inodes in
    (λ h. (λ e. nonzero i e (step.0 h).0, (step.0 h).1), λ h. step.1 (positive_inode i h.0, h.1))

-- The process has a directory in /proc with a descriptor whose link names the socket, and every
-- directory and link on the way can be read.
abbrev pub IsOwner : Tree → ℤ → ℕ → Type 0
IsOwner tree pid inode =
    (listing : Listing) × (tree.root ≡ inr listing) × Owns tree (names listing) pid inode

Ascending-sort_owners :
    (o : SocketOwnership) → All (λ (e : ℕ × List ℤ). IsAscending int_ltb e.1) (sort_owners o)
unfolding sort_owners
Ascending-sort_owners [] = tt
Ascending-sort_owners ((i, pids) ∷ rest) =
    (unique-sort-IsAscending int_ltb int_ltb-IsTotal pids, Ascending-sort_owners rest)

In-sort_owners :
    (p : ℤ) (i : ℕ) (o : SocketOwnership)
    → In p (owners_in i (sort_owners o)) ↔ In p (owners_in i o)
In-sort_owners p i o = rw (owners_in-sort_owners i o) (
  λ h. (In-sort int_ltb p (owners_in i o)).0 ((In-unique p (sort int_ltb (owners_in i o))).0 h),
  λ h. (In-unique p (sort int_ltb (owners_in i o))).1 ((In-sort int_ltb p (owners_in i o)).1 h),
)

resolve_root-IsOwner :
    (system : System) (targets : List ℕ) (tree : Tree) (root : Errno ⊎ Listing)
    (o : Observation SocketOwnership) (p : ℤ) (i : ℕ)
    → tree.root ≡ root
    → resolve_root system targets tree root ≡ success o
    → (In p (owners_in i o.value) ↔ (In i targets × IsOwner tree p i))
      × All (λ (e : ℕ × List ℤ). IsAscending int_ltb e.1) o.value
unfolding resolve_root observation_of
resolve_root-IsOwner system targets tree (inl e) o p i r h = absurd cc
resolve_root-IsOwner system targets tree (inr listing) o p i r h =
    let found = (visit_processes targets tree listing nothing_scanned).ownership in
    let same : sort_owners found ≡ o.value =
      ap (λ (x : Observation SocketOwnership). x.value) (success-injective h) in
    let step = (Adds-visit_processes targets tree listing).exact nothing_scanned i p in
    rw (sym same) (
      (
        λ m. elim (step.0 ((In-sort_owners p i found).0 m)) [
          | inl new ↦ (new.0, (listing, r, new.1))
          | inr old ↦ absurd old
        ],
        λ m.
            let (l, e, w) = m.1 in
            let here : listing ≡ l = same_listing listing l (sym r ∙ e) in
            (In-sort_owners p i found).1 (step.1 (inl (m.0, rw here w))),
      ),
      Ascending-sort_owners found,
    )

nil-In : (i : ℕ) (xs : List ℕ) → is_nil xs ≡ true → In i xs → ⊥
nil-In i [] h m = m
nil-In i (x ∷ xs) h m = cc

-- Where the search succeeds, each inode has exactly these owners: none if it is 0 or not asked for,
-- else the processes that have a directory in /proc with a descriptor whose link names the socket, as
-- far as the directories and links on the way can be read. The owners are ascending, once each.
pub resolve-IsOwner :
    (system : System) (tree : Tree) (inodes : List ℕ) (o : Observation SocketOwnership) (p : ℤ)
    (i : ℕ)
    → resolve system tree inodes ≡ success o
    → (In p (owners_in i o.value) ↔ ((i ≢ 0) × In i inodes × IsOwner tree p i))
      × All (λ (e : ℕ × List ℤ). IsAscending int_ltb e.1) o.value
unfolding resolve
resolve-IsOwner system tree inodes o p i h = elim (Bool-cases (is_nil (target_inodes inodes))) [
  | inl none_asked ↦
      let same : [] ≡ o.value =
        ap (λ (x : Observation SocketOwnership). x.value)
          (success-injective (rw none_asked at h)) in
      rw (sym same) (
        (
          λ m. absurd m,
          λ m. absurd (
              nil-In i (target_inodes inodes) none_asked
                ((In-target_inodes i inodes).1 (m.0, m.1))),
        ),
        tt,
      )
  | inr asked ↦
      let (owners, sorted) =
        resolve_root-IsOwner system (target_inodes inodes) tree tree.root o p i refl
          (rw asked at h) in
      (
        (
          λ m. let (t, w) = owners.0 m in let (z, a) = (In-target_inodes i inodes).0 t in (z, a, w),
          λ m. owners.1 ((In-target_inodes i inodes).1 (m.0, m.1), m.2),
        ),
        sorted,
      )
]
