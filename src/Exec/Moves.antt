-- ===== src/Exec/Moves.antt =====
-- Rules for what every action does to the machine, whatever it returns: one for each way to build an
-- action, over any reflexive and transitive relation of machines.
use lx.Base.{
  Bool, true, false, List, [], ◌∷◌, ◌++◌, ◌≡◌, refl, ap, ◌∙◌, sym, append_assoc, if◌then◌else◌, All,
  All-append, All-map,
}
use lx.Domain.{Result, success, failure, Error}
use lx.Exec.{
  Machine, Action, Call, pure, fail, lift, ask, perform, observe, attempt, ◌>>=◌, ◌>>◌, proceed,
}

pub record Preorder (W : Type 0) : Type 1 where
  pub Rel : Machine W → Machine W → Type 0
  pub rel_refl : (m : Machine W) → Rel m m
  pub rel_trans : (m n k : Machine W) → Rel m n → Rel n k → Rel m k

pub record Moves {W A : Type 0} (R : Preorder W) (act : Action W A) : Type 0 where
  pub at : (m : Machine W) → R.Rel m (act m).1

module _ {W A : Type 0} (R : Preorder W) where
  pub Moves-pure : (a : A) → Moves R (pure a)
  unfolding pure
  Moves-pure a = record { at = λ m. R.rel_refl m }

  pub Moves-fail : (e : Error) → Moves R (fail {A = A} e)
  unfolding fail
  Moves-fail e = record { at = λ m. R.rel_refl m }

  pub Moves-lift : (r : Result A) → Moves R (lift r)
  unfolding lift
  Moves-lift r = record { at = λ m. R.rel_refl m }

  pub Moves-attempt : (act : Action W A) → Moves R act → Moves R (attempt act)
  unfolding attempt
  Moves-attempt act h = record { at = λ m. h.at m }

  pub Moves-if :
      (b : Bool) (x y : Action W A) → Moves R x → Moves R y → Moves R (if b then x else y)
  Moves-if true x y hx hy = hx
  Moves-if false x y hx hy = hy

  -- each branch may use what the test says
  pub Moves-cases :
      (b : Bool) (x y : Action W A)
      → (b ≡ true → Moves R x)
      → (b ≡ false → Moves R y)
      → Moves R (if b then x else y)
  Moves-cases true x y hx hy = hx refl
  Moves-cases false x y hx hy = hy refl

module _ {W A B : Type 0} (R : Preorder W) where
  Moves-proceed :
      (f : A → Action W B)
      → ((a : A) → Moves R (f a))
      → (r : Result A) (m : Machine W) → R.Rel m (proceed f (r, m)).1
  unfolding proceed
  Moves-proceed f hf (success a) m = (hf a).at m
  Moves-proceed f hf (failure e) m = R.rel_refl m

  pub Moves-bind :
      (act : Action W A) (f : A → Action W B)
      → Moves R act
      → ((a : A) → Moves R (f a))
      → Moves R (act >>= f)
  unfolding ◌>>=◌
  Moves-bind act f h hf = record {
    at = λ m.
        R.rel_trans m (act m).1 (proceed f (act m)).1 (h.at m)
          (Moves-proceed f hf (act m).0 (act m).1);
  }

-- the rest of the method may use that the checked result was a value
pub Moves-bind-lift :
    {W A B : Type 0} (R : Preorder W) (r : Result A) (f : A → Action W B)
    → ((a : A) → r ≡ success a → Moves R (f a))
    → Moves R (lift r >>= f)
unfolding ◌>>=◌ lift proceed
Moves-bind-lift R (success a) f hf = record { at = λ m. (hf a refl).at m }
Moves-bind-lift R (failure e) f hf = record { at = λ m. R.rel_refl m }

pub Moves-then :
    {W B : Type 0} (R : Preorder W) (act : Action W Unit) (k : Action W B)
    → Moves R act
    → Moves R k
    → Moves R (act >> k)
unfolding ◌>>◌
Moves-then R act k h hk = Moves-bind R act (λ _. k) h (λ _. hk)

-- `n` has the calls of `m`, and before them (later in time) calls with the property.
abbrev pub Extends : {W : Type 0} → (Call → Type 0) → Machine W → Machine W → Type 0
Extends P m n = (new : List Call) × (n.calls ≡ new ++ m.calls) × All P new

pub Extends-trans :
    {W : Type 0} (P : Call → Type 0) (m n k : Machine W)
    → Extends P m n
    → Extends P n k
    → Extends P m k
Extends-trans P m n k (new, e, a) (new', e', a') = (
  new' ++ new,
  e' ∙ ap (λ l. new' ++ l) e ∙ sym (append_assoc new' new m.calls),
  All-append P new' new a' a,
)

abbrev pub extension : {W : Type 0} → (Call → Type 0) → Preorder W
extension P = record {
  Rel = Extends P;
  rel_refl = λ m. ([], refl, tt);
  rel_trans = Extends-trans P;
}

module _ {W A : Type 0} (P : Call → Type 0) where
  pub Moves-ask : (f : W → Result A × W) → Moves (extension P) (ask f)
  unfolding ask
  Moves-ask f = record { at = λ m. ([], refl, tt) }

  pub Moves-observe : (f : W → A × W) → Moves (extension P) (observe f)
  unfolding observe
  Moves-observe f = record { at = λ m. ([], refl, tt) }

  pub Moves-perform : (c : Call) (f : W → Result A × W) → P c → Moves (extension P) (perform c f)
  unfolding perform
  Moves-perform c f p = record { at = λ m. (c ∷ [], refl, (p, tt)) }

pub Moves-weaken :
    {W A : Type 0} (P Q : Call → Type 0) (act : Action W A)
    → Moves (extension P) act
    → ((c : Call) → P c → Q c)
    → Moves (extension Q) act
Moves-weaken P Q act h f = record {
  at = λ m. let (new, e, p) = h.at m in (new, e, All-map new f p);
}

pub ruleset moves_rules =
    (Moves-pure, Moves-fail, Moves-lift, Moves-attempt, Moves-if, Moves-bind, Moves-then)

pub ruleset calls_rules = (moves_rules, Moves-ask, Moves-observe, Moves-perform)
