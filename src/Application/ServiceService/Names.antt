-- ===== src/Application/ServiceService/Names.antt =====
-- What `normalizeUnit` accepts and returns.
use lx.Base.{
  ◌-◌, ◌≤◌, true, Bytes, ◌++◌, ◌≡◌, length, length-append, drop-append, all_of, arith, refl,
  if◌then◌else◌, ltb, ◌⊎◌, text, ◌≢◌, [], ◌∷◌, ltb→lt, all_of-append, cons-ne-nil,
}
use lx.Application.ServiceService.{
  service_suffix, ends_with, valid_unit_character, normalize_unit, invalid_unit,
}
use lx.Domain.{success}

-- A complete unit name: characters that systemd allows, and the suffix.
pub record IsUnitName (unit : Bytes) : Type 0 where
  pub characters : all_of valid_unit_character unit ≡ true
  pub suffix : ends_with service_suffix unit ≡ true
  pub bounded : length unit ≤ 255

ends_with-append : (u : Bytes) → ends_with service_suffix (u ++ service_suffix) ≡ true
unfolding ends_with service_suffix
ends_with-append u =
    let len = length-append u service_suffix in
    let at : length (u ++ service_suffix) - 8 ≡ length u = omega (arith, len) in
    rw at (rw drop-append (ground (arith, len)))

suffix-characters : all_of valid_unit_character service_suffix ≡ true
unfolding valid_unit_character service_suffix
suffix-characters = refl

-- An accepted unit becomes a complete unit name: the unit itself, or the unit with the suffix. The
-- accepted unit is not empty and has at most 247 bytes.
pub normalize_unit-IsUnitName :
    (unit name : Bytes)
    → normalize_unit unit ≡ success name
    → IsUnitName name
      × ((name ≡ unit) ⊎ (name ≡ unit ++ service_suffix))
      × (unit ≢ [])
      × (length unit ≤ 247)
unfolding normalize_unit invalid_unit
normalize_unit-IsUnitName [] name h = cc
normalize_unit-IsUnitName (c ∷ u) name h =
    let long = ltb→lt 247 (length (c ∷ u)) in
    let sum = length-append (c ∷ u) service_suffix in
    let tail = all_of-append valid_unit_character (c ∷ u) service_suffix in
    let suf = suffix-characters in
    let ends = ends_with-append (c ∷ u) in
    (
      record {
        characters = ground (arith, tail, suf);
        suffix = ground (arith, ends);
        bounded = unfold service_suffix in ground (arith, sum);
      },
      ground arith,
      cons-ne-nil c u,
      ground arith,
    )

no_suffix : ends_with service_suffix [] ≡ true → ⊥
unfolding ends_with service_suffix
no_suffix h = cc

-- A name that `normalizeUnit` returned is accepted again, unchanged, exactly when it has at most 247
-- bytes; a longer one is refused.
pub normalize_unit-twice :
    (unit name : Bytes)
    → normalize_unit unit ≡ success name
    → normalize_unit name ≡ (
        if ltb 247 (length name)
        then invalid_unit (text "Service unit name is too long")
        else success name)
normalize_unit-twice unit name h =
    let (v, _, _, _) = normalize_unit-IsUnitName unit name h in again name v.characters v.suffix
  where
    again :
        (n : Bytes)
        → all_of valid_unit_character n ≡ true
        → ends_with service_suffix n ≡ true
        → normalize_unit n ≡ (
            if ltb 247 (length n)
            then invalid_unit (text "Service unit name is too long")
            else success n)
    again [] v s = absurd (no_suffix s)
    again (c ∷ n) v s = unfold normalize_unit in rw (v, s) refl
