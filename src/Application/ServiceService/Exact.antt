-- ===== src/Application/ServiceService/Exact.antt =====
-- The calls of ServiceService.cpp in full: what it gives to the service manager, and what it refuses.
use lx.Base.{
  Bytes, refl, true, false, [], All, ◌≢◌, all_of, ℕ, ◌≤◌, ◌≡◌, length, ◌⊎◌, ◌∷◌, arith, Bool-cases,
  ◌++◌, cons-ne-nil, inl, inr,
}
use lx.Application.ServiceService.{
  normalize_unit, ends_with, ServiceService, valid_unit_character, service_suffix, is_alnum,
  invalid_unit, inspect, start, stop, restart,
}
use lx.Exec.{Machine, starts, stops, restarts, ◌>>=◌, lift, proceed, perform, ask}
use lx.Domain.{success, Result, Error, invalid_argument, failure}

-- an ASCII letter or digit, or one of : _ - . @ \
abbrev pub IsUnitCharacter : ℕ → Type 0
IsUnitCharacter c =
    ((48 ≤ c) × (c ≤ 57))
    ⊎ ((65 ≤ c) × (c ≤ 90))
    ⊎ ((97 ≤ c) × (c ≤ 122))
    ⊎ (c ≡ 58)
    ⊎ (c ≡ 95)
    ⊎ (c ≡ 45)
    ⊎ (c ≡ 46)
    ⊎ (c ≡ 64)
    ⊎ (c ≡ 92)

pub record IsAcceptable (unit : Bytes) : Type 0 where
  pub nonempty : unit ≢ []
  pub short : length unit ≤ 247
  pub characters : All IsUnitCharacter unit

-- The unit itself where it ends in ".service", and the unit with that behind it where it does not.
abbrev pub IsNamed : Bytes → Bytes → Type 0
IsNamed unit name =
    ((ends_with service_suffix unit ≡ true) × (name ≡ unit))
    ⊎ ((ends_with service_suffix unit ≡ false) × (name ≡ unit ++ service_suffix))

character-valid : (c : ℕ) → IsUnitCharacter c → valid_unit_character c ≡ true
unfolding valid_unit_character is_alnum
character-valid c h = ground arith

valid-IsUnitCharacter : (c : ℕ) → valid_unit_character c ≡ true → IsUnitCharacter c
unfolding valid_unit_character is_alnum
valid-IsUnitCharacter c h = ground arith

all-valid : (unit : Bytes) → All IsUnitCharacter unit → all_of valid_unit_character unit ≡ true
all-valid [] h = refl
all-valid (c ∷ rest) (h, more) = rw (character-valid c h, all-valid rest more) refl

all-IsUnitCharacter :
    (unit : Bytes) → all_of valid_unit_character unit ≡ true → All IsUnitCharacter unit
all-IsUnitCharacter [] h = tt
all-IsUnitCharacter (c ∷ rest) h =
    (valid-IsUnitCharacter c (ground arith), all-IsUnitCharacter rest (ground arith))

normalize_unit-accepts :
    (unit : Bytes)
    → IsAcceptable unit
    → (name : Bytes) × (normalize_unit unit ≡ success name) × IsNamed unit name
unfolding normalize_unit
normalize_unit-accepts [] a = absurd (a.nonempty refl)
normalize_unit-accepts (c ∷ u) a =
    let short = a.short in
    let valid = all-valid (c ∷ u) a.characters in
    elim (Bool-cases (ends_with service_suffix (c ∷ u))) [
      | inl t ↦ (c ∷ u, ground arith, inl (t, refl))
      | inr f ↦ ((c ∷ u) ++ service_suffix, ground arith, inr (f, refl))
    ]

normalize_unit-IsAcceptable :
    (unit name : Bytes) → normalize_unit unit ≡ success name → IsAcceptable unit
unfolding normalize_unit invalid_unit
normalize_unit-IsAcceptable [] name h = cc
normalize_unit-IsAcceptable (c ∷ u) name h = record {
  nonempty = cons-ne-nil c u;
  short = ground arith;
  characters = all-IsUnitCharacter (c ∷ u) (ground arith);
}

normalize_unit-code :
    (unit : Bytes) (e : Error) → normalize_unit unit ≡ failure e → e.code ≡ invalid_argument
unfolding normalize_unit invalid_unit
normalize_unit-code unit e h = ground arith

module _ {W : Type 0} (self : ServiceService W) (unit : Bytes) (m : Machine W) where
  -- one call, of the method for the completed name
  pub record IsDone (name : Bytes) : Type 0 where
    pub inspect_done :
        ((inspect self unit m).0 ≡ (self.service_provider.get name m.world).0)
        × ((inspect self unit m).1.calls ≡ m.calls)
    pub start_done :
        ((start self unit m).0 ≡ (self.service_provider.start name m.world).0)
        × ((start self unit m).1.calls ≡ starts name ∷ m.calls)
    pub stop_done :
        ((stop self unit m).0 ≡ (self.service_provider.stop name m.world).0)
        × ((stop self unit m).1.calls ≡ stops name ∷ m.calls)
    pub restart_done :
        ((restart self unit m).0 ≡ (self.service_provider.restart name m.world).0)
        × ((restart self unit m).1.calls ≡ restarts name ∷ m.calls)

  -- the same error of all four, and the machine as it was
  pub record IsRefused : Type 0 where
    pub error : Error
    pub code : error.code ≡ invalid_argument
    pub not_inspected : inspect self unit m ≡ (failure error, m)
    pub not_started : start self unit m ≡ (failure error, m)
    pub not_stopped : stop self unit m ≡ (failure error, m)
    pub not_restarted : restart self unit m ≡ (failure error, m)

  done : (name : Bytes) → normalize_unit unit ≡ success name → IsDone name
  unfolding inspect start stop restart ◌>>=◌ lift proceed perform ask
  done name h = record {
    inspect_done = (rw h, rw h);
    start_done = (rw h, rw h);
    stop_done = (rw h, rw h);
    restart_done = (rw h, rw h);
  }

  refused : (e : Error) → normalize_unit unit ≡ failure e → IsRefused
  unfolding inspect start stop restart ◌>>=◌ lift proceed
  refused e h = record {
    error = e;
    code = normalize_unit-code unit e h;
    not_inspected = rw h;
    not_started = rw h;
    not_stopped = rw h;
    not_restarted = rw h;
  }

  refused-unless : (r : Result Bytes) → normalize_unit unit ≡ r → ¬ IsAcceptable unit → IsRefused
  refused-unless (success name) h other = absurd (other (normalize_unit-IsAcceptable unit name h))
  refused-unless (failure e) h other = refused e h

  -- A unit of 1 to 247 bytes, all of them letters, digits or one of `:_-.@\`, is given to the service
  -- manager once, with ".service" behind it if it does not end in that, and what the manager answers is
  -- returned; `inspect` makes no call that changes anything. On every other unit `inspect`, `start`,
  -- `stop` and `restart` fail with the same InvalidArgument error and leave the machine as it was.
  pub commands_exact :
      (IsAcceptable unit → (name : Bytes) × IsNamed unit name × IsDone name)
      × (¬ IsAcceptable unit → IsRefused)
  commands_exact = (
    λ accepted.
        let (name, h, named) = normalize_unit-accepts unit accepted in (name, named, done name h),
    refused-unless (normalize_unit unit) refl,
  )
