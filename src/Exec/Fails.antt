-- ===== src/Exec/Fails.antt =====
-- Rules for why an action fails, whatever the machine: one for each way to build an action.
use lx.Base.{refl, true, false, Bool, ◌≡◌, if◌then◌else◌}
use lx.Exec.{Action, proceed, attempt, lift, ◌>>=◌, ask, pure, Machine, fail}
use lx.Domain.{Error, Result, failure, success}
use lx.Exec.Returns.{Returns}

pub record Fails {W A : Type 0} (P : Type 0) (act : Action W A) : Type 0 where
  pub at : (m : Machine W) (e : Error) → (act m).0 ≡ failure e → P

module _ {W A : Type 0} (P : Type 0) where
  pub Fails-pure : (a : A) → Fails P (pure {W = W} a)
  unfolding pure
  Fails-pure a = record { at = λ m e h. absurd cc }

  pub Fails-fail : (x : Error) → P → Fails P (fail {W = W} {A = A} x)
  Fails-fail x p = record { at = λ m e h. p }

  pub Fails-lift : (r : Result A) → ((e : Error) → r ≡ failure e → P) → Fails P (lift {W = W} r)
  unfolding lift
  Fails-lift r h = record { at = λ m e f. h e f }

  pub Fails-ask :
      (f : W → Result A × W) → ((w : W) (e : Error) → (f w).0 ≡ failure e → P) → Fails P (ask f)
  unfolding ask
  Fails-ask f h = record { at = λ m e q. h m.world e q }

  pub Fails-attempt : (act : Action W A) → Fails P (attempt act)
  unfolding attempt
  Fails-attempt act = record { at = λ m e h. absurd cc }

  pub Fails-if :
      (b : Bool) (x y : Action W A)
      → (b ≡ true → Fails P x)
      → (b ≡ false → Fails P y)
      → Fails P (if b then x else y)
  Fails-if true x y hx hy = hx refl
  Fails-if false x y hx hy = hy refl

module _ {W A B : Type 0} (P : Type 0) where
  Fails-proceed :
      (act : Action W A) (f : A → Action W B) (m : Machine W) (e : Error) (r : Result A)
      → (act m).0 ≡ r
      → Fails P act
      → ((a : A) → r ≡ success a → Fails P (f a))
      → (proceed f (r, (act m).1)).0 ≡ failure e
      → P
  unfolding proceed
  Fails-proceed act f m e (success a) q first h g = (h a refl).at (act m).1 e g
  Fails-proceed act f m e (failure x) q first h g = first.at m x q

  -- the rest may use what the first action returns
  pub Fails-bind :
      (Q : A → Type 0) (act : Action W A) (f : A → Action W B)
      → Returns Q act
      → Fails P act
      → ((a : A) → Q a → Fails P (f a))
      → Fails P (act >>= f)
  unfolding ◌>>=◌
  Fails-bind Q act f q first h = record {
    at = λ m e g. Fails-proceed act f m e (act m).0 refl first (λ a r. h a (q.at m a r)) g;
  }

  -- what is tried does not fail
  pub Fails-tried :
      (act : Action W A) (f : Result A → Action W B)
      → ((r : Result A) → Fails P (f r))
      → Fails P (attempt act >>= f)
  unfolding ◌>>=◌ attempt proceed
  Fails-tried act f h = record { at = λ m e g. (h (act m).0).at (act m).1 e g }
