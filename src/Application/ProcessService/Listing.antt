-- ===== src/Application/ProcessService/Listing.antt =====
-- What `list` returns.
use lx.Base.{
  some, false, Option, List, Bytes, ◌≡◌, ◌⊎◌, All, arith, Bool-cases, ◌∷◌, inl, inr, All-append,
  refl, none, nat_Eq, list_Eq, int_Eq, option_Eq, list_eq_iff, [], option_eq_iff, ◌∙◌, ◌||◌,
  All-map,
}
use lx.Application.ProcessService.{
  ProcessService, other_name, keep_unit, list, other_user, after_unit, collect, consider,
  other_unit, consider_unit, Round, query_unit, requested_uid, is_empty,
}
use lx.Domain.{ProcessQuery, ProcessInfo, Warning, Result, Observation, success, Error, failure}
use lx.Application.ServiceService.{ServiceService, normalize_unit}
use lx.Exec.Returns.{
  Returns, Returns-pure, Returns-bind, Returns-if, success-injective, Returns-after, Returns-fail,
  Returns-lift, Returns-weaken,
}
use lx.Base.Decimal.{parse_unsigned, max_u32}

-- The process is one that the query asks for.
pub record Fits (query : ProcessQuery) (process : ProcessInfo) : Type 0 where
  pub name : (n : Bytes) → query.name ≡ some n → process.name ≡ n
  pub user :
      (u : Bytes)
      → query.user ≡ some u
      → (process.user ≡ u) ⊎ (parse_unsigned max_u32 u ≡ some process.uid)
  pub unit :
      (s : Bytes)
      → query.systemd_unit ≡ some s
      → (n : Bytes) × (normalize_unit s ≡ success n) × (process.systemd_unit ≡ some n)

-- no test of the loop drops the process
record Passes (query : ProcessQuery) (process : ProcessInfo) : Type 0 where
  pub name : other_name query.name process ≡ false
  pub user : other_user query.user process ≡ false
  pub unit : other_unit query.systemd_unit process ≡ false

keep_unit-Passes :
    (query : ProcessQuery) (process : ProcessInfo) (warnings : List Warning)
    → other_name query.name process ≡ false
    → other_user query.user process ≡ false
    → All (Passes query) (keep_unit query.systemd_unit process warnings).0
unfolding keep_unit
keep_unit-Passes query process warnings n u =
    elim (Bool-cases (other_unit query.systemd_unit process)) [
      | inl t ↦ rw t tt
      | inr f ↦ rw f (record { name = n; user = u; unit = f }, tt)
    ]

other-with_unit :
    (query : ProcessQuery) (process : ProcessInfo) (found : Option Bytes)
    → (other_name query.name (record process { systemd_unit = found })
        ≡ other_name query.name process)
      × (other_user query.user (record process { systemd_unit = found })
          ≡ other_user query.user process)
unfolding other_name other_user
other-with_unit query process found = (ground arith, ground arith)

after_unit-keeps :
    (unit : Option Bytes) (process : ProcessInfo) (e : Error) (round : Round)
    → after_unit unit process (failure e) ≡ success round
    → round.0 ≡ (keep_unit unit process []).0
unfolding after_unit keep_unit
after_unit-keeps unit process e round h = ground arith

after_unit-Passes :
    (query : ProcessQuery) (process : ProcessInfo) (found : Result (Option Bytes)) (round : Round)
    → other_name query.name process ≡ false
    → other_user query.user process ≡ false
    → after_unit query.systemd_unit process found ≡ success round
    → All (Passes query) round.0
after_unit-Passes query process (success found) round n u e =
    let (sn, su) = other-with_unit query process found in
    let same : keep_unit query.systemd_unit (record process { systemd_unit = found }) [] ≡ round =
      unfold after_unit in success-injective e in
    rw (← same)
      (keep_unit-Passes query (record process { systemd_unit = found }) [] (sn ∙ n) (su ∙ u))
after_unit-Passes query process (failure x) round n u e =
    rw (after_unit-keeps query.systemd_unit process x round e)
      (keep_unit-Passes query process [] n u)

module _ {W : Type 0} (query : ProcessQuery) where
  consider_unit-Passes :
      (services : Option (ServiceService W)) (process : ProcessInfo)
      → other_name query.name process ≡ false
      → other_user query.user process ≡ false
      → Returns
          (λ round. All (Passes query) round.0)
          (consider_unit services query.systemd_unit process)
  unfolding consider_unit
  consider_unit-Passes none process n u = Returns-pure _ _ (keep_unit-Passes query process [] n u)
  consider_unit-Passes (some services) process n u =
      Returns-after _ _ _
        (λ found. Returns-lift _ _ (λ round e. after_unit-Passes query process found round n u e))

  consider-Passes :
      (services : Option (ServiceService W)) (process : ProcessInfo)
      → Returns (λ round. All (Passes query) round.0) (consider services query process)
  unfolding consider
  consider-Passes services process =
      Returns-if _ (other_name query.name process || other_user query.user process) _ _
        (λ _. Returns-pure _ _ tt)
        (λ h. consider_unit-Passes services process (ground arith) (ground arith))

  collect-Passes :
      (services : Option (ServiceService W)) (processes : List ProcessInfo)
      (found : Observation (List ProcessInfo))
      → All (Passes query) found.value
      → Returns (λ o. All (Passes query) o.value) (collect services query processes found)
  unfolding collect
  collect-Passes services [] found h = Returns-pure _ found h
  collect-Passes services (p ∷ rest) found h =
      Returns-bind _ (λ round. All (Passes query) round.0) _ _ (consider-Passes services p)
        (λ round r. collect-Passes services rest _ (All-append _ found.value round.0 h r))

name-Fits :
    (name : Option Bytes) (p : ProcessInfo) (n : Bytes)
    → other_name name p ≡ false
    → name ≡ some n
    → p.name ≡ n
unfolding other_name
name-Fits none p n h e = cc
name-Fits (some m) p n h e = let i = (list_eq_iff p.name m).0 in ground (arith, i)

user-Fits :
    (user : Option Bytes) (p : ProcessInfo) (u : Bytes)
    → other_user user p ≡ false
    → user ≡ some u
    → (p.user ≡ u) ⊎ (parse_unsigned max_u32 u ≡ some p.uid)
unfolding other_user requested_uid
user-Fits none p u h e = absurd (cc)
user-Fits (some v) p u h e =
    let i = (list_eq_iff p.user v).0 in
    let j = (option_eq_iff (parse_unsigned max_u32 v) (some p.uid)).0 in ground (arith, i, j)

unit-Fits :
    {W : Type 0} (services : Option (ServiceService W)) (asked unit : Option Bytes)
    (p : ProcessInfo) (s : Bytes)
    → query_unit services asked ≡ success unit
    → other_unit unit p ≡ false
    → asked ≡ some s
    → (n : Bytes) × (normalize_unit s ≡ success n) × (p.systemd_unit ≡ some n)
unfolding query_unit other_unit
unit-Fits services none unit p s q h e = absurd (cc)
unit-Fits none (some t) unit p s q h e = absurd (cc)
unit-Fits (some services) (some t) unit p s q h e = go (normalize_unit t) refl
  where
    go :
        (r : Result Bytes)
        → normalize_unit t ≡ r
        → (n : Bytes) × (normalize_unit s ≡ success n) × (p.systemd_unit ≡ some n)
    go (success name) k =
        let named : some name ≡ unit = success-injective (rw (k, query_unit) at q) in
        let same : t ≡ s = cc in
        let i = (option_eq_iff p.systemd_unit (some name)).0 in
        let kept : other_unit (some name) p ≡ false = rw (← named) at h in
        (name, rw (← same) k, ground (arith, i, kept))
    go (failure x) k =
        let bad : ◌≡◌ {A = Result (Option Bytes)} (failure x) (success unit) =
          rw (k, query_unit) at q in
        cc

module _ {W : Type 0} (self : ProcessService W) (query : ProcessQuery) where
  -- Every process that `list` returns is one that the query asks for: it has the name, the user by
  -- name or by number, and the service of the query, as far as the query gives them.
  pub list-Fits : Returns (λ o. All (Fits query) o.value) (list self query)
  unfolding list
  list-Fits =
      Returns-if _ (is_empty query.name) _ _ (λ _. Returns-fail _ _)
        (λ _.
          Returns-if _ (is_empty query.user) _ _ (λ _. Returns-fail _ _)
            (λ _.
              Returns-bind _
                (λ unit. query_unit self.service_service query.systemd_unit ≡ success unit) _ _
                (Returns-lift _ _ (λ unit e. e))
                (λ unit q. Returns-after _ _ _ (λ observed.
                  Returns-weaken _ _ _
                    (collect-Passes (record query { systemd_unit = unit }) self.service_service
                      observed.value _ tt)
                    (λ o h.
                      All-map o.value
                        (λ p t. record {
                          name = λ n e. name-Fits query.name p n t.name e;
                          user = λ u e. user-Fits query.user p u t.user e;
                          unit = λ s e.
                              unit-Fits self.service_service query.systemd_unit unit p s q t.unit e;
                        })
                        h)))))
