-- ===== src/Linux/Procfs/Processes/Listed.antt =====
-- What `get` and `list` of ProcFsProcessProvider.cpp return.
use lx.Base.{
  [], ◌∷◌, some, none, inl, inr, refl, nat_Eq, list_Eq, int_Eq, option_Eq, List, ℤ, ◌≡◌, ◌++◌, sym,
  append-nil, ◌∙◌, append_assoc, int_ltb, Option, int_ltb-IsTotal, ◌⊎◌,
}
use lx.Domain.{success, failure, ProcessInfo, Observation, Result}
use lx.Linux.Procfs.Processes.{
  get, list, ProcFsProcessProvider, gather, add_process, Counts, with_ids, count_code, count_codes,
  for_ids,
}
use lx.Exec.Returns.{Returns, Returns-bind, Returns-pure, Returns-weaken, Returns-tried}
use lx.Exec.{Machine, Action}
use lx.Linux.Procfs.InodeResolver.{Listing}
use lx.Linux.Procfs.Reader.{entry_ids, sorted_ids, process_ids}
use lx.Base.Sort.{IsSorted, sort, sort-IsSorted}
use lx.Linux.Errno.{System, Errno}
use lx.Linux.Procfs.Processes.Reads.{IsUnreadable, get-IsUnreadable, get-IsProcess, IsProcess}

-- The PIDs in their order, each with its process, or left out because it cannot be read.
module _ {W : Type 0} (self : ProcFsProcessProvider W) where
  pub data Picks : List ℤ → List ProcessInfo → Type 0 where
    nothing : Picks [] []
    skip :
        {pid : ℤ} {ids : List ℤ} {infos : List ProcessInfo}
        → IsUnreadable self pid
        → Picks ids infos
        → Picks (pid ∷ ids) infos
    pick :
        {pid : ℤ} {ids : List ℤ} {info : ProcessInfo} {infos : List ProcessInfo}
        → IsProcess self pid info
        → Picks ids infos
        → Picks (pid ∷ ids) (info ∷ infos)

  -- what the loop makes of the other PIDs, as a step of the induction
  abbrev Gathered : List ℤ → List ProcessInfo → Observation (List ProcessInfo) → Type 0
  Gathered ids found o = (more : List ProcessInfo) × (o.value ≡ found ++ more) × Picks ids more

  after-Picks :
      (pid : ℤ) (rest : List ℤ) (found : List ProcessInfo) (counts : Counts)
      (r : Result (Observation ProcessInfo)) (n : Machine W)
      → (get self pid n).0 ≡ r
      → ((f : List ProcessInfo) (c : Counts) → Returns (Gathered rest f) (gather self rest (f, c)))
      → Returns (Gathered (pid ∷ rest) found) (gather self rest (add_process r (found, counts)))
  unfolding add_process
  after-Picks pid rest found counts (failure e) n got next =
      Returns-weaken _ _ _ (next found (count_code counts e.code)) (λ o g.
        let (more, same, picks) = g in
        (more, same, skip ((get-IsUnreadable self pid).at n e got) picks))
  after-Picks pid rest found counts (success process) n got next =
      Returns-weaken _ _ _
        (next (found ++ process.value ∷ []) (count_codes counts process.warnings))
        (λ o g.
          let (more, e, picks) = g in
          (
            process.value ∷ more,
            e ∙ append_assoc found (process.value ∷ []) more,
            pick ((get-IsProcess self pid).at n process got) picks,
          ))

  gather-Picks :
      (ids : List ℤ) (found : List ProcessInfo) (counts : Counts)
      → Returns (Gathered ids found) (gather self ids (found, counts))
  unfolding gather
  gather-Picks [] found counts = Returns-pure _ _ ([], sym (append-nil found), nothing)
  gather-Picks (pid ∷ rest) found counts =
      Returns-bind _ (λ r. (n : Machine W) × ((get self pid n).0 ≡ r)) _ _ (Returns-tried _)
        (λ r p. after-Picks pid rest found counts r p.0 p.1 (gather-Picks rest))

for_ids-success :
    {W A : Type 0} (f : List ℤ → Action W A) (x : Option (Result (List ℤ))) (m m' : Machine W)
    (a : A)
    → for_ids f x m ≡ (some (success a), m')
    → (ids : List ℤ) × (x ≡ some (success ids)) × ((f ids m).0 ≡ success a)
unfolding for_ids
for_ids-success f none m m' a h = absurd cc
for_ids-success f (some (failure e)) m m' a h = absurd cc
for_ids-success f (some (success ids)) m m' a h = (ids, refl, cc)

sorted_ids-success :
    (raw : Option (List ℤ)) (ids : List ℤ)
    → sorted_ids raw ≡ some (success ids)
    → (xs : List ℤ) × (raw ≡ some xs) × (sort int_ltb xs ≡ ids)
unfolding sorted_ids
sorted_ids-success none ids h = absurd cc
sorted_ids-success (some xs) ids h = (xs, refl, cc)

process_ids-success :
    (system : System) (root : Errno ⊎ Listing) (ids : List ℤ)
    → process_ids system root ≡ some (success ids)
    → (listing : Listing) × (raw : List ℤ) × (root ≡ inr listing)
      × (entry_ids listing ≡ some raw)
      × (sort int_ltb raw ≡ ids)
unfolding process_ids
process_ids-success system (inl e) ids h = absurd cc
process_ids-success system (inr listing) ids h =
    let (raw, read, same) = sorted_ids-success (entry_ids listing) ids h in
    (listing, raw, refl, read, same)

-- Whatever the files of /proc hold at each moment, `list` goes through the entries of /proc that are
-- PIDs in ascending order. It returns a process for each but those whose stat or status file could not
-- be read, held no record, or showed another PID; and what it returns is what the stat file and the
-- status file of that process held when they were read.
pub list-Picks :
    {W : Type 0} (self : ProcFsProcessProvider W) (m m' : Machine W)
    (o : Observation (List ProcessInfo))
    → list self m ≡ (some (success o), m')
    → (listing : Listing) × (ids : List ℤ) × ((self.files.open_root m.world).0 ≡ inr listing)
      × (entry_ids listing ≡ some ids)
      × IsSorted int_ltb (sort int_ltb ids)
      × Picks self (sort int_ltb ids) o.value
unfolding list with_ids
list-Picks self m m' o h =
    let (root, w) = self.files.open_root m.world in
    let (ids, found, run) = for_ids-success _ (process_ids self.system root) _ m' o h in
    let (listing, raw, opened, read, sorted) = process_ids-success self.system root ids found in
    let (more, same, picks) =
      (gather-Picks self ids [] (record { permission = 0; disappeared = 0; detail = 0 })).at _ o
        run in
    (listing, raw, opened, read, sort-IsSorted int_ltb int_ltb-IsTotal raw, rw (sorted, same) picks)
