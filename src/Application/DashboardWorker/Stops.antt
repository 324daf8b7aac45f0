-- ===== src/Application/DashboardWorker/Stops.antt =====
-- What `stop` promises, DashboardWorker.cpp.
use lx.Base.{true, refl, inl, inr, ◌⊎◌, Bool, ◌≡◌, Option, suc, ℕ, ◌<◌, ◌+◌, ◌≢◌, arith, ◌≤◌}
use lx.Application.DashboardWorker.{
  absent, refreshing, calling, waiting, returned, storing, free, joining, starts, stops, joins,
  works, here, later, refreshes, refresh_throws, stores, calls, call_throws, wakes, times_out,
  not_joinable, has_returned, start_from, State, Phase, Step, Work, Reach, initial, Joins,
  after_join,
}

-- A flag that is set means that `stop` is under way or that no worker is left.
record IsControlled {S : Type 0} (s : State S) : Type 0 where
  pub quiet : s.controller ≡ free → s.stopping ≡ true → s.phase ≡ absent
  pub told : s.controller ≡ joining → s.stopping ≡ true

start-IsControlled :
    {S : Type 0} (s : State S) (phase : Phase S)
    → s.phase ≡ phase
    → s.controller ≡ free
    → IsControlled s
    → IsControlled (start_from phase s)
unfolding start_from
start-IsControlled s absent e f h = record { quiet = λ c b. cc; told = λ c. cc }
start-IsControlled s refreshing e f h = h
start-IsControlled s calling e f h = h
start-IsControlled s waiting e f h = h
start-IsControlled s returned e f h = h
start-IsControlled s (storing next) e f h = h

-- the steps that are left before the worker returns, once it is told to
unfoldable steps_left : {S : Type 0} → Phase S → ℕ
steps_left absent = 0
steps_left refreshing = 4
steps_left (storing next) = 3
steps_left calling = 2
steps_left waiting = 1
steps_left returned = 0

-- A step of a worker that is told to stop; a thread that is not there takes none.
Work-steps_left :
    {S : Type 0} {IsFresh : S → Type 0} {b : Bool} {p q : Phase S} {o r : Option S}
    → Work IsFresh b p o q r
    → (b ≡ true → steps_left q < steps_left p) × (p ≢ absent)
unfolding steps_left
Work-steps_left (refreshes next f) = (λ e. omega arith, λ e. cc)
Work-steps_left refresh_throws = (λ e. omega arith, λ e. cc)
Work-steps_left stores = (λ e. omega arith, λ e. cc)
Work-steps_left calls = (λ e. omega arith, λ e. cc)
Work-steps_left call_throws = (λ e. omega arith, λ e. cc)
Work-steps_left (wakes b) = (λ e. omega arith, λ e. cc)
Work-steps_left (times_out b) = (λ e. absurd cc, λ e. cc)

-- A join that returns leaves no thread.
Joins-after_join : {S : Type 0} {p : Phase S} → Joins p → after_join p ≡ absent
unfolding after_join
Joins-after_join not_joinable = refl
Joins-after_join has_returned = refl

Step-IsControlled :
    {S : Type 0} {IsFresh : S → Type 0} {s t : State S}
    → Step IsFresh s t
    → IsControlled s
    → IsControlled t
Step-IsControlled (starts f) h = start-IsControlled _ _ refl f h
Step-IsControlled (stops f) h = record { quiet = λ c b. cc; told = λ c. refl }
Step-IsControlled (joins f j) h = record { quiet = λ c b. Joins-after_join j; told = λ c. cc }
Step-IsControlled (works w) h = record {
  quiet = λ c b. absurd ((Work-steps_left w).1 (h.quiet c b));
  told = h.told;
}

reach-IsControlled :
    {S : Type 0} {IsFresh : S → Type 0} {s t : State S}
    → Reach IsFresh s t
    → IsControlled s
    → IsControlled t
reach-IsControlled here h = h
reach-IsControlled (later r s) h = Step-IsControlled s (reach-IsControlled r h)

-- the worker's own steps, how many they are, and where they lead
pub data WorkRun {S : Type 0} (IsFresh : S → Type 0) (stopping : Bool) (p : Phase S) (o : Option S)
    : ℕ → Phase S → Option S → Type 0 where
  rests : WorkRun IsFresh stopping p o 0 p o
  steps :
      {n : ℕ} {q q' : Phase S} {r r' : Option S}
      → WorkRun IsFresh stopping p o n q r
      → Work IsFresh stopping q r q' r'
      → WorkRun IsFresh stopping p o (suc n) q' r'

run-steps_left :
    {S : Type 0} {IsFresh : S → Type 0} {b : Bool} {p : Phase S} {o : Option S} {n : ℕ}
    {q : Phase S} {r : Option S}
    → WorkRun IsFresh b p o n q r
    → b ≡ true
    → n + steps_left q ≤ steps_left p
run-steps_left rests e = omega arith
run-steps_left (steps run w) e =
    let fewer = (Work-steps_left w).0 e in let before = run-steps_left run e in omega arith

steps_left-le : {S : Type 0} (p : Phase S) → steps_left p ≤ 4
unfolding steps_left
steps_left-le p = ground arith

-- What can happen next to a worker that is told to stop.
next-step :
    {S : Type 0} (IsFresh : S → Type 0) (b : Bool) (p : Phase S) (o : Option S)
    → b ≡ true
    → Joins p ⊎ ((q : Phase S) × (r : Option S) × Work IsFresh b p o q r)
next-step IsFresh b absent o e = inl not_joinable
next-step IsFresh b refreshing o e = inr (_, _, refresh_throws)
next-step IsFresh b (storing next) o e = inr (_, _, stores)
next-step IsFresh b calling o e = inr (_, _, calls)
next-step IsFresh b waiting o e = inr (_, _, wakes e)
next-step IsFresh b returned o e = inl has_returned

initial-IsControlled : {S : Type 0} → IsControlled (initial {S = S})
initial-IsControlled = record { quiet = λ c b. refl; told = λ c. cc }

-- While `stop` waits for the worker, whatever led there, the worker takes at most four more steps (at
-- most one of them a refresh, since none leads back to it), and at each point before the join can
-- return it has a next step.
pub stop_ends :
    {S : Type 0} {IsFresh : S → Type 0} {s : State S}
    → Reach IsFresh initial s
    → s.controller ≡ joining
    → {n : ℕ} {q : Phase S} {o : Option S} → WorkRun IsFresh s.stopping s.phase s.snapshot n q o
    → (n ≤ 4) × (Joins q ⊎ ((q' : Phase S) × (r : Option S) × Work IsFresh s.stopping q o q' r))
stop_ends {IsFresh} {s} reach j {n} {q} {o} run =
    let told = (reach-IsControlled reach initial-IsControlled).told j in
    let left = run-steps_left run told in
    let most = steps_left-le s.phase in (omega arith, next-step IsFresh s.stopping q o told)

-- The join that ends `stop` returns only where the worker has: once `stop` has returned, and until the
-- next `start`, there is no worker, and none of its steps is possible, whatever led there.
pub stop_quiet :
    {S : Type 0} {IsFresh : S → Type 0} {s : State S}
    → Reach IsFresh initial s
    → s.controller ≡ free
    → s.stopping ≡ true
    → {q : Phase S} {o : Option S} → ¬ Work IsFresh s.stopping s.phase s.snapshot q o
stop_quiet reach c b w =
    (Work-steps_left w).1 ((reach-IsControlled reach initial-IsControlled).quiet c b)
