-- ===== src/Exec/Ends.antt =====
-- Rules for actions that never fail, and what they return, whatever the machine: one for each way to
-- build such an action.
use lx.Base.{refl, true, false, Bool, ◌≡◌, if◌then◌else◌}
use lx.Exec.{◌>>=◌, ◌>>◌, proceed, pure, Action, Machine, attempt, observe}
use lx.Domain.{success, Result}

pub record Ends {W A : Type 0} (P : A → Type 0) (act : Action W A) : Type 0 where
  pub at : (m : Machine W) → (a : A) × ((act m).0 ≡ success a) × P a

module _ {W A : Type 0} (P : A → Type 0) where
  pub Ends-pure : (a : A) → P a → Ends {W = W} P (pure a)
  unfolding pure
  Ends-pure a p = record { at = λ m. (a, refl, p) }

  pub Ends-cases :
      (b : Bool) (x y : Action W A)
      → (b ≡ true → Ends P x)
      → (b ≡ false → Ends P y)
      → Ends P (if b then x else y)
  Ends-cases true x y hx hy = hx refl
  Ends-cases false x y hx hy = hy refl

  pub Ends-observe : (f : W → A × W) → ((w : W) → P (f w).0) → Ends P (observe f)
  unfolding observe
  Ends-observe f h = record { at = λ m. ((f m.world).0, refl, h m.world) }

pub Ends-attempt :
    {W A : Type 0} (Q : Result A → Type 0) (act : Action W A)
    → ((m : Machine W) → Q (act m).0)
    → Ends Q (attempt act)
unfolding attempt
Ends-attempt Q act h = record { at = λ m. ((act m).0, refl, h m) }

module _ {W A B : Type 0} (P : B → Type 0) where
  -- the rest may use what the first action returns
  pub Ends-bind :
      (Q : A → Type 0) (act : Action W A) (f : A → Action W B)
      → Ends Q act
      → ((a : A) → Q a → Ends P (f a))
      → Ends P (act >>= f)
  unfolding ◌>>=◌ proceed
  Ends-bind Q act f q h = record {
    at = λ m. let (a, e, p) = q.at m in let (b, e', p') = (h a p).at (act m).1 in (b, rw e e', p');
  }

  -- the rest needs nothing of it
  pub Ends-after :
      (act : Action W A) (f : A → Action W B)
      → Ends (λ a. Unit) act
      → ((a : A) → Ends P (f a))
      → Ends P (act >>= f)
  Ends-after act f q h = Ends-bind (λ a. Unit) act f q (λ a u. h a)

pub Ends-then :
    {W B : Type 0} (P : B → Type 0) (act : Action W Unit) (k : Action W B)
    → Ends (λ a. Unit) act
    → Ends P k
    → Ends P (act >> k)
unfolding ◌>>◌
Ends-then P act k q h = Ends-after P act (λ _. k) q (λ _. h)

module _ {W A : Type 0} where
  pub Ends-watch : (f : W → A × W) → Ends (λ a. Unit) (observe f)
  Ends-watch f = Ends-observe _ f (λ w. tt)

  pub Ends-tried : (act : Action W A) → Ends (λ r. Unit) (attempt act)
  Ends-tried act = Ends-attempt _ act (λ m. tt)

pub ruleset ends_rules = (Ends-pure, Ends-cases, Ends-after, Ends-then, Ends-watch, Ends-tried)
