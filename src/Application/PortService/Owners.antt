-- ===== src/Application/PortService/Owners.antt =====
-- What a release plan promises, and that looking at ports changes nothing outside.
use lx.Base.{
  refl, some, List, ℤ, ℕ, ◌∷◌, ◌≡◌, ◌≢◌, [], ◌++◌, All, In, ◌↔◌, int_ltb, Bytes, In-append,
  is_nil-cases, inl, inr, none, nat_Eq, list_Eq, int_Eq, option_Eq, arith, Option, ◌∙◌, ◌⊎◌, ap,
  Bool-cases, ◌==◌, is_nil, sym, list_eq_iff, is_nil-false, int_ltb-IsTotal,
}
use lx.Application.ProcessService.{ProcessService, validate_signal_target}
use lx.Application.PortService.Prepare.{
  collect_owners, prepend, unit_of, owner_process, common_unit, validate_all, join_unit,
  prepare_release, plan_for, plan_of, sorted_owners,
}
use lx.Domain.{PortInfo, Result, PortReleasePlan, success, failure, Void, Observation}
use lx.Exec.Returns.{
  success-injective, Returns, Returns-if, Returns-fail, Returns-after, Returns-bind, Returns-lift,
  Returns-pure,
}
use lx.Base.Sort.{IsAscending, In-sort, In-unique, sort, unique-sort-IsAscending}
use lx.Application.ProcessService.Signals.{IsSafeTarget, validate-IsSafeTarget}
use lx.Application.PortService.{PortService}
use lx.Exec.{◌>>◌}

-- The process owns one of the sockets.
abbrev pub IsOwner : ℤ → List PortInfo → Type 0
IsOwner pid ports = (p : PortInfo) × In p ports × In pid p.socket.owner_pids

-- A plan that is safe to carry out.
pub record IsPlan {W : Type 0} (service : ProcessService W) (port : ℕ) (plan : PortReleasePlan)
    : Type 0 where
  pub local_port : plan.local_port ≡ port
  pub sockets : plan.ports ≢ []
  pub owned : All (λ p. p.socket.owner_pids ≢ []) plan.ports
  pub owners : (pid : ℤ) → In pid plan.owner_pids ↔ IsOwner pid plan.ports
  pub ascending : IsAscending int_ltb plan.owner_pids
  pub safe : All (IsSafeTarget service) plan.owner_pids
  pub unit :
      (u : Bytes)
      → plan.recommended_unit ≡ some u
      → All (λ pid. unit_of (owner_process pid plan.ports) ≡ some u) plan.owner_pids

prepend-success :
    (pids : List ℤ) (r : Result (List ℤ)) (all : List ℤ)
    → prepend pids r ≡ success all
    → (more : List ℤ) × (r ≡ success more) × (pids ++ more ≡ all)
prepend-success pids (success more) all h = (more, refl, success-injective h)
prepend-success pids (failure e) all h = absurd (cc)

collect_owners-cons :
    (p : PortInfo) (rest : List PortInfo) (all : List ℤ)
    → collect_owners (p ∷ rest) ≡ success all
    → (p.socket.owner_pids ≢ [])
      × ((more : List ℤ) × (collect_owners rest ≡ success more)
          × (p.socket.owner_pids ++ more ≡ all))
unfolding collect_owners
collect_owners-cons p rest all h = elim (is_nil-cases p.socket.owner_pids) [
  | inl e ↦
      let bad : ◌≡◌ {A = Result (List ℤ)} (failure _) (success all) = rw (e, collect_owners) at h in
      absurd (cc)
  | inr (e, ne) ↦ (
    ne,
    prepend-success p.socket.owner_pids (collect_owners rest) all (rw (e, collect_owners) at h),
  )
]

collect_owners-lem :
    (ports : List PortInfo) (all : List ℤ)
    → collect_owners ports ≡ success all
    → All (λ p. p.socket.owner_pids ≢ []) ports × ((pid : ℤ) → In pid all ↔ IsOwner pid ports)
collect_owners-lem [] all h =
    unfold collect_owners in
    (tt, λ pid. rw (← success-injective h) (λ m. absurd m, λ o. absurd o.1))
collect_owners-lem (p ∷ rest) all h =
    let (ne, found) = collect_owners-cons p rest all h in
    let (more, r, e) = found in
    let (owned, iff) = collect_owners-lem rest more r in
    (
      (ne, owned),
      λ pid. rw (← e) (
        λ m. elim ((In-append pid p.socket.owner_pids more).0 m) [
          | inl k ↦ (p, inl refl, k)
          | inr k ↦ let (q, i, j) = (iff pid).0 k in (q, inr i, j)
        ],
        λ o.
            (In-append pid p.socket.owner_pids more).1
              (elim o.1 [ inl q ↦ inl (rw (← q) o.2) | inr i ↦ inr ((iff pid).1 (o.0, i, o.2)) ]),
      ),
    )

validate_all-cons :
    {W : Type 0} (service : ProcessService W) (pid : ℤ) (rest : List ℤ) {v : Void}
    → validate_all service (pid ∷ rest) ≡ success v
    → (validate_signal_target service pid ≡ success tt) × (validate_all service rest ≡ success v)
unfolding validate_all
validate_all-cons service pid rest h = ground arith

validate_all-IsSafeTarget :
    {W : Type 0} (service : ProcessService W) (pids : List ℤ) {v : Void}
    → validate_all service pids ≡ success v
    → All (IsSafeTarget service) pids
validate_all-IsSafeTarget service [] h = tt
validate_all-IsSafeTarget service (pid ∷ rest) h =
    let (first, others) = validate_all-cons service pid rest h in
    (validate-IsSafeTarget service pid first, validate_all-IsSafeTarget service rest others)

-- a round either stops or finds the unit that the rounds before it found
join_unit-cases :
    (c : Bytes) (found : Option Bytes)
    → (join_unit (some c) found ≡ none) ⊎ ((join_unit (some c) found ≡ some c) × (found ≡ some c))
unfolding join_unit
join_unit-cases c none = inl refl
join_unit-cases c (some d) = elim (Bool-cases (c == d)) [
  | inl t ↦ inr (rw t, ap some (sym ((list_eq_iff c d).0 t)))
  | inr f ↦ inl (rw f)
]

common_unit-some :
    (ports : List PortInfo) (pids : List ℤ) (c u : Bytes)
    → common_unit ports (some c) pids ≡ some u
    → (c ≡ u) × All (λ pid. unit_of (owner_process pid ports) ≡ some u) pids
unfolding common_unit
common_unit-some ports [] c u h = (cc, tt)
common_unit-some ports (pid ∷ rest) c u h =
    elim (join_unit-cases c (unit_of (owner_process pid ports))) [
      | inl stopped ↦
          let bad : ◌≡◌ {A = Option Bytes} none (some u) = rw (stopped, common_unit) at h in
          absurd (cc)
      | inr (same, found) ↦
          let (e, others) = common_unit-some ports rest c u (rw (same, common_unit) at h) in
          (e, (found ∙ ap some e, others))
    ]

-- The unit of the plan is the unit of every owner.
common_unit-none :
    (ports : List PortInfo) (pids : List ℤ) (u : Bytes)
    → common_unit ports none pids ≡ some u
    → All (λ pid. unit_of (owner_process pid ports) ≡ some u) pids
unfolding common_unit
common_unit-none ports [] u h = tt
common_unit-none ports (pid ∷ rest) u h = go (unit_of (owner_process pid ports)) refl
  where
    go :
        (found : Option Bytes)
        → unit_of (owner_process pid ports) ≡ found
        → (unit_of (owner_process pid ports) ≡ some u)
          × All (λ p. unit_of (owner_process p ports) ≡ some u) rest
    go none e =
        let bad : ◌≡◌ {A = Option Bytes} none (some u) = rw (e, common_unit, join_unit) at h in
        absurd (cc)
    go (some c) e =
        let (same, others) =
          common_unit-some ports rest c u (rw (e, common_unit, join_unit) at h) in
        (e ∙ ap some same, others)

module _ {W : Type 0} (self : PortService W) where
  plan_of-IsPlan :
      (port : ℕ) (ports : List PortInfo) (pids : List ℤ) {v : Void}
      → ports ≢ []
      → collect_owners ports ≡ success pids
      → validate_all self.process_service (plan_of port ports pids).owner_pids ≡ success v
      → IsPlan self.process_service port (plan_of port ports pids)
  unfolding plan_of
  plan_of-IsPlan port ports pids some_socket collected valid =
      let (owned, iff) = collect_owners-lem ports pids collected in
      record {
        local_port = refl;
        sockets = some_socket;
        owned = owned;
        owners = λ pid.
            let s = In-sort int_ltb pid pids in
            let d = In-unique pid (sort int_ltb pids) in
            (λ m. (iff pid).0 (s.0 (d.0 m)), λ o. d.1 (s.1 ((iff pid).1 o)));
        ascending = unique-sort-IsAscending int_ltb int_ltb-IsTotal pids;
        safe = validate_all-IsSafeTarget self.process_service _ valid;
        unit = λ u e. common_unit-none ports (sorted_owners pids) u e;
      }

  plan_for-IsPlan :
      (port : ℕ) (inspected : Observation (List PortInfo))
      → Returns (λ o. IsPlan self.process_service port o.value) (plan_for self port inspected)
  unfolding plan_for ◌>>◌
  plan_for-IsPlan port inspected =
      Returns-if _ (is_nil inspected.value) _ _ (λ _. Returns-fail _ _)
        (λ some_socket.
          Returns-bind _ (λ pids. collect_owners inspected.value ≡ success pids) _ _
            (Returns-lift _ _ (λ pids e. e))
            (λ pids collected.
              Returns-bind _
                (λ v.
                  validate_all self.process_service (plan_of port inspected.value pids).owner_pids
                  ≡ success v)
                _ _ (Returns-lift _ _ (λ v e. e))
                (λ v valid. Returns-pure _ _ (
                  plan_of-IsPlan port inspected.value pids
                    (is_nil-false inspected.value some_socket) collected valid))))

  -- Every plan that `prepareRelease` returns is for the port, holds at least one socket, each with an
  -- owner, lists exactly the owners of these sockets, ascending and once each, all of which may be
  -- signalled, and recommends a unit only if every owner belongs to it.
  pub prepare_release-IsPlan :
      (port : ℕ)
      → Returns (λ o. IsPlan self.process_service port o.value) (prepare_release self port)
  unfolding prepare_release
  prepare_release-IsPlan port =
      Returns-if _ (port == 0) _ _ (λ _. Returns-fail _ _)
        (λ _. Returns-after _ _ _ (plan_for-IsPlan port))
