-- ===== src/Exec/Returns.antt =====
-- Rules for what an action returns when it succeeds, whatever the machine: one for each way to build an
-- action.
use lx.Base.{refl, true, false, Bool, ◌≡◌, if◌then◌else◌, ◌∙◌}
use mathlib.Core.Path.{subst}
use lx.Exec.{◌>>◌, ◌>>=◌, fail, lift, proceed, pure, Action, Machine, attempt, observe, ask}
use lx.Domain.{success, Result, Error, failure}
use lx.Exec.Moves.{Preorder, Moves}

pub record Returns {W A : Type 0} (P : A → Type 0) (act : Action W A) : Type 0 where
  pub at : (m : Machine W) (a : A) → (act m).0 ≡ success a → P a

pub success-injective : {A : Type 0} {a b : A} → success a ≡ success b → a ≡ b
success-injective e = cc

module _ {W A : Type 0} (P : A → Type 0) where
  pub Returns-pure : (a : A) → P a → Returns P (pure {W = W} a)
  unfolding pure
  Returns-pure a p = record { at = λ m b e. rw (← success-injective e) p }

  pub Returns-fail : (e : Error) → Returns P (fail {W = W} e)
  unfolding fail
  Returns-fail e = record { at = λ m b h. cc }

  pub Returns-lift : (r : Result A) → ((a : A) → r ≡ success a → P a) → Returns P (lift {W = W} r)
  unfolding lift
  Returns-lift r h = record { at = λ m a e. h a e }

  pub Returns-if :
      (b : Bool) (x y : Action W A)
      → (b ≡ true → Returns P x)
      → (b ≡ false → Returns P y)
      → Returns P (if b then x else y)
  Returns-if true x y hx hy = hx refl
  Returns-if false x y hx hy = hy refl

module _ {W A B : Type 0} (P : B → Type 0) where
  Returns-proceed :
      (f : A → Action W B) (r : Result A) (m : Machine W) (b : B)
      → ((a : A) → r ≡ success a → Returns P (f a))
      → (proceed f (r, m)).0 ≡ success b
      → P b
  unfolding proceed
  Returns-proceed f (success a) m b h e = (h a refl).at m b e
  Returns-proceed f (failure x) m b h e = cc

  -- the rest may use what the first action's result is
  pub Returns-bind :
      (Q : A → Type 0) (act : Action W A) (f : A → Action W B)
      → Returns Q act
      → ((a : A) → Q a → Returns P (f a))
      → Returns P (act >>= f)
  unfolding ◌>>=◌
  Returns-bind Q act f q h = record {
    at = λ m b e. Returns-proceed f (act m).0 (act m).1 b (λ a r. h a (q.at m a r)) e;
  }

  -- the rest needs nothing of it
  pub Returns-after :
      (act : Action W A) (f : A → Action W B) → ((a : A) → Returns P (f a)) → Returns P (act >>= f)
  unfolding ◌>>=◌
  Returns-after act f h = record {
    at = λ m b e. Returns-proceed f (act m).0 (act m).1 b (λ a r. h a) e;
  }

pub Returns-then :
    {W B : Type 0} (P : B → Type 0) (act : Action W Unit) (k : Action W B)
    → Returns P k
    → Returns P (act >> k)
unfolding ◌>>◌
Returns-then P act k h = Returns-after P act (λ _. k) (λ _. h)

pub Returns-weaken :
    {W A : Type 0} (P Q : A → Type 0) (act : Action W A)
    → Returns P act
    → ((a : A) → P a → Q a)
    → Returns Q act
Returns-weaken P Q act r h = record { at = λ m a e. h a (r.at m a e) }

pub Returns-attempt :
    {W A : Type 0} (P : A → Type 0) (act : Action W A)
    → Returns P act
    → Returns (λ r. (a : A) → r ≡ success a → P a) (attempt act)
unfolding attempt
Returns-attempt P act h = record { at = λ m r e a q. h.at m a (success-injective e ∙ q) }

pub Returns-observe :
    {W A : Type 0} (P : A → Type 0) (f : W → A × W) → ((w : W) → P (f w).0) → Returns P (observe f)
unfolding observe
Returns-observe P f h = record { at = λ m a e. subst P (success-injective e) (h m.world) }

pub Returns-ask :
    {W A : Type 0} (P : A → Type 0) (f : W → Result A × W)
    → ((w : W) (a : A) → (f w).0 ≡ success a → P a)
    → Returns P (ask f)
unfolding ask
Returns-ask P f h = record { at = λ m a e. h m.world a e }

-- What is tried returns what the action returned, at the machine where it ran.
pub Returns-tried :
    {W A : Type 0} (act : Action W A)
    → Returns (λ r. (n : Machine W) × ((act n).0 ≡ r)) (attempt act)
unfolding attempt
Returns-tried act = record { at = λ m r e. (m, success-injective e) }

-- The rest of a method may use what the first action returns.
pub Moves-bind-Returns :
    {W A B : Type 0} (R : Preorder W) (Q : A → Type 0) (act : Action W A) (f : A → Action W B)
    → Moves R act
    → Returns Q act
    → ((a : A) → Q a → Moves R (f a))
    → Moves R (act >>= f)
unfolding ◌>>=◌ proceed
Moves-bind-Returns {W} {A} R Q act f moves returns h = record {
  at = λ m. R.rel_trans m (act m).1 _ (moves.at m) (rest m (act m).0 refl);
}
  where
    rest :
        (m : Machine W) (r : Result A)
        → (act m).0 ≡ r
        → R.Rel (act m).1 (proceed f (r, (act m).1)).1
    rest m (success a) e = (h a (returns.at m a e)).at (act m).1
    rest m (failure x) e = R.rel_refl (act m).1
