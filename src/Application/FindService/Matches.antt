-- ===== src/Application/FindService/Matches.antt =====
-- What the tests of FindService.cpp hold of.
use lx.Base.{
  [], ◌∷◌, some, none, true, false, inl, inr, refl, nat_Eq, list_Eq, int_Eq, option_Eq, Bool, List,
  Bytes, ◌≡◌, Option, ◌⊎◌, In, ◌↔◌, ◌||◌, any_of, keep, In-keep, contains-In, In-of-map, ap, sym,
  In-map, ℤ,
}
use mathlib.Core.Path.{subst}
use lx.Application.FindService.Texts.{IsPart, occurs_iff}
use lx.Application.FindService.{
  executable_matches, process_matches, contains_text, lower, processes_found, in_units, units_found,
  process_found, service_matches, listed,
}
use lx.Domain.{ServiceInfo, ProcessInfo, Result, Observation}

-- the text of the query stands in a text, both in lower case
abbrev pub Names : Bytes → Bytes → Type 0
Names query value = IsPart (lower query) (lower value)

-- by its name, its user, its executable or an argument
abbrev pub IsNamed : Bytes → ProcessInfo → Type 0
IsNamed query p =
    ((Names query p.name ⊎ Names query p.user)
      ⊎ ((path : Bytes) × (p.executable ≡ some path) × Names query path))
    ⊎ ((argument : Bytes) × In argument p.argv × Names query argument)

abbrev pub InUnit : List ServiceInfo → ProcessInfo → Type 0
InUnit services p = (s : ServiceInfo) × In s services × (p.systemd_unit ≡ some s.unit_name)

-- a PID of one of the processes
abbrev pub IsPidOf : List ProcessInfo → ℤ → Type 0
IsPidOf processes pid = (p : ProcessInfo) × In p processes × (pid ≡ p.pid)

pub some-value : {A : Type 0} {a b : A} → some a ≡ some b → a ≡ b
some-value e = cc

pub or_iff :
    {P Q : Type 0} (a b : Bool) → ((a ≡ true) ↔ P) → ((b ≡ true) ↔ Q) → ((a || b) ≡ true) ↔ (P ⊎ Q)
or_iff true b f g = (λ h. inl (f.0 refl), λ h. refl)
or_iff false b f g =
    (λ h. inr (g.0 h), λ h. elim h [ inl p ↦ absurd (let bad = f.1 p in cc) | inr q ↦ g.1 q ])

pub any_of_iff :
    {A : Type 0} {P : A → Type 0} (p : A → Bool) (xs : List A)
    → ((a : A) → (p a ≡ true) ↔ P a)
    → (any_of p xs ≡ true) ↔ ((a : A) × In a xs × P a)
any_of_iff {P} p [] f = (λ h. absurd cc, λ (a, m, q). absurd m)
any_of_iff {P} p (x ∷ xs) f =
    let r = or_iff (p x) (any_of p xs) (f x) (any_of_iff p xs f) in
    (
      λ h. elim (r.0 h) [ inl q ↦ (x, inl refl, q) | inr (a, m, q) ↦ (a, inr m, q) ],
      λ (a, m, q). elim m [ inl e ↦ r.1 (inl (subst P e q)) | inr k ↦ r.1 (inr (a, k, q)) ],
    )

pub names_iff :
    (query value : Bytes) → (contains_text value (lower query) ≡ true) ↔ Names query value
unfolding contains_text
names_iff query value = occurs_iff (lower query) (lower value)

executable_iff :
    (query : Bytes) (executable : Option Bytes)
    → (executable_matches executable (lower query) ≡ true)
      ↔ ((path : Bytes) × (executable ≡ some path) × Names query path)
unfolding executable_matches
executable_iff query none = (λ h. absurd cc, λ (path, e, n). absurd cc)
executable_iff query (some path) =
    let r = names_iff query path in
    (λ h. (path, refl, r.0 h), λ (other, e, n). r.1 (subst (Names query) (sym (some-value e)) n))

matches-IsNamed :
    (query : Bytes) (p : ProcessInfo) → (process_matches p (lower query) ≡ true) ↔ IsNamed query p
unfolding process_matches
matches-IsNamed query p =
    or_iff _ _
      (or_iff _ _ (or_iff _ _ (names_iff query p.name) (names_iff query p.user))
        (executable_iff query p.executable))
      (any_of_iff _ p.argv (λ argument. names_iff query argument))

pub unit_iff :
    (query : Bytes) (services : Result (Observation (List ServiceInfo))) (unit : Option Bytes)
    → (in_units (units_found query services) unit ≡ true) ↔ (
        (s : ServiceInfo) × In s (keep (service_matches query) (listed services))
        × (unit ≡ some s.unit_name))
unfolding in_units units_found
unit_iff query services none = (λ h. absurd cc, λ (s, m, e). absurd cc)
unit_iff query services (some unit) =
    let i = contains-In unit (units_found query services) in
    (
      λ h.
          let (s, m, e) =
            In-of-map (λ (s : ServiceInfo). s.unit_name) unit
              (keep (service_matches query) (listed services)) (i.0 h) in
          (s, m, ap some e),
      λ (s, m, e). i.1 (rw (some-value e) (In-map (λ (s : ServiceInfo). s.unit_name) s _ m)),
    )

pub found_iff :
    (query : Bytes) (services : Result (Observation (List ServiceInfo)))
    (processes : Observation (List ProcessInfo)) (p : ProcessInfo)
    → In p (processes_found (lower query) services processes) ↔ (
        (IsNamed query p ⊎ InUnit (keep (service_matches (lower query)) (listed services)) p)
        × In p processes.value)
unfolding processes_found process_found
found_iff query services processes p =
    let k = In-keep _ p processes.value in
    let o = or_iff _ _ (matches-IsNamed query p) (unit_iff (lower query) services p.systemd_unit) in
    (λ m. (o.0 (k.0 m).0, (k.0 m).1), λ (n, m). k.1 (o.1 n, m))
