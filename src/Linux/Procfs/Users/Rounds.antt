-- ===== src/Linux/Procfs/Users/Rounds.antt =====
-- The rounds of PasswdUserResolver.cpp.
use lx.Linux.Procfs.Users.{Passwd, look_up, maximum_size, answer_or, name_for_uid, first_size}
use lx.Base.{
  zero, suc, true, ℕ, ◌≤◌, ◌<◌, ◌*◌, ◌^◌, is_some, ◌≡◌, refl, some, none, false, leb, arith, Option,
  Bool-cases, Bytes, inr, inl, ap, ℤ, ◌∙◌,
}
use lx.Linux.Errno.{System}
use lx.Domain.{Result}

answer_or-returns :
    {W : Type 0} (w : W) (r : Option (Result Bytes)) (more : W → Option (Result Bytes × W))
    → is_some (more w) ≡ true
    → is_some (answer_or w r more) ≡ true
unfolding answer_or
answer_or-returns w none more h = h
answer_or-returns w (some r) more h = refl

doubled : (size fuel : ℕ) → maximum_size < size * 2 ^ suc fuel → maximum_size < size * 2 * 2 ^ fuel
doubled size fuel h =
    let e : 2 ^ suc fuel ≡ 2 * 2 ^ fuel = omega arith in
    let f : size * 2 ^ suc fuel ≡ size * 2 * 2 ^ fuel = ap (λ (k : ℕ). size * k) e ∙ grind arith in
    omega arith

first_size-pos : (n : ℤ) → 1 ≤ first_size n
unfolding first_size
first_size-pos (ℤ.pos n) = ground arith
first_size-pos (ℤ.negsuc n) = omega arith

module _ {W : Type 0} (system : System) (passwd : Passwd W) where
  look_up-returns :
      (fuel : ℕ) (uid size : ℕ) (w : W)
      → maximum_size < size * 2 ^ fuel
      → is_some (look_up system passwd (suc fuel) uid size w) ≡ true
  unfolding look_up
  look_up-returns zero uid size w h =
      let f : leb size maximum_size ≡ false = ground arith in rw f refl
  look_up-returns (suc fuel) uid size w h = elim (Bool-cases (leb size maximum_size)) [
    | inr f ↦ rw f refl
    | inl t ↦
        rw t (answer_or-returns _ _ _ (look_up-returns fuel uid (size * 2) _ (doubled size fuel h)))
  ]

  -- Whatever buffer the system suggests and whatever it answers, at most 22 rounds of the loop give a
  -- name or an error.
  pub name_for_uid-returns :
      (uid : ℕ) (w : W) → is_some (name_for_uid system passwd 22 uid w) ≡ true
  unfolding name_for_uid
  name_for_uid-returns uid w =
      let p = first_size-pos passwd.suggested in
      look_up-returns 21 uid (first_size passwd.suggested) w (omega arith)
