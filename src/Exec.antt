-- ===== src/Exec.antt =====
-- The methods of the services are actions: they read and change the outside world through the
-- interfaces of `Contracts`, and return a `Result`. An action also leaves a record of the calls that
-- change something outside: signals sent, services started, stopped or restarted.
pub mod Moves
pub mod Returns
pub mod Fails
pub mod Ends
use lx.Base.{ℤ, List, ◌∷◌, Bytes, Bool, if◌then◌else◌}
use lx.Domain.{Result, success, failure, Error, ProcessSignal}

pub data Call : Type 0 where
  sends : ℤ → ProcessSignal → Call
  starts stops restarts : Bytes → Call

-- `world` is all that the interfaces observe; `calls` holds the latest call first.
pub record Machine (W : Type 0) : Type 0 where
  pub world : W
  pub calls : List Call

abbrev pub Action : Type 0 → Type 0 → Type 0
Action W A = Machine W → Result A × Machine W

module _ {W A : Type 0} where
  unfoldable pub pure : A → Action W A
  pure a m = (success a, m)

  unfoldable pub fail : Error → Action W A
  fail e m = (failure e, m)

  unfoldable pub lift : Result A → Action W A
  lift r m = (r, m)

  -- A call of an interface that answers with a `Result`.
  unfoldable pub ask : (W → Result A × W) → Action W A
  ask f m = let (r, w) = f m.world in (r, record m { world = w })

  -- A call that changes something outside, whether it succeeds or not.
  unfoldable pub perform : Call → (W → Result A × W) → Action W A
  perform c f m = let (r, w) = f m.world in (r, record m { world = w; calls = c ∷ m.calls })

  -- A call that cannot fail.
  unfoldable pub observe : (W → A × W) → Action W A
  observe f m = let (a, w) = f m.world in (success a, record m { world = w })

  -- The result as a value, for code that handles a failure itself.
  unfoldable pub attempt : Action W A → Action W (Result A)
  attempt act m = let (r, m') = act m in (success r, m')

module _ {W A B : Type 0} where
  -- the rest of a method behind a result that it has checked
  unfoldable pub proceed : (A → Action W B) → Result A × Machine W → Result B × Machine W
  proceed f (success a, m) = f a m
  proceed f (failure e, m) = (failure e, m)

  -- `if (!r) return failure(r.error());` in front of the rest
  infixl 5 ◌>>=◌
  unfoldable pub ◌>>=◌ : Action W A → (A → Action W B) → Action W B
  unfolding proceed
  ◌>>=◌ act f m = proceed f (act m)

infixl 5 ◌>>◌
unfoldable pub ◌>>◌ : {W B : Type 0} → Action W Unit → Action W B → Action W B
unfolding ◌>>=◌
act >> k = act >>= λ _. k
