-- ===== src/Application/DashboardWorker/Snapshots.antt =====
-- The snapshot that `snapshot()` hands out, DashboardWorker.cpp.
use lx.Base.{some, none, refl, Bool, ◌≡◌, Option, ◌≢◌, sym, ◌∙◌}
use lx.Application.DashboardWorker.{not_joinable, has_returned}
use lx.Application.DashboardWorker.{
  absent, refreshing, calling, waiting, returned, storing, starts, stops, joins, works, here, later,
  refreshes, refresh_throws, stores, calls, call_throws, wakes, times_out, State, start_from, Phase,
  Reach, Step, Work, initial, after_join, Joins,
}

-- what is held, and what is about to be
unfoldable IsStored : {S : Type 0} → (S → Type 0) → Phase S → Type 0
IsStored IsFresh absent = Unit
IsStored IsFresh refreshing = Unit
IsStored IsFresh calling = Unit
IsStored IsFresh waiting = Unit
IsStored IsFresh returned = Unit
IsStored IsFresh (storing next) = IsFresh next

record IsHeld {S : Type 0} (IsFresh : S → Type 0) (p : Phase S) (o : Option S) : Type 0 where
  pub stored : IsStored IsFresh p
  pub held : (a : S) → o ≡ some a → IsFresh a

some-value : {S : Type 0} {a b : S} → some a ≡ some b → a ≡ b
some-value e = cc

Work-IsHeld :
    {S : Type 0} {IsFresh : S → Type 0} {b : Bool} {p q : Phase S} {o r : Option S}
    → Work IsFresh b p o q r
    → IsHeld IsFresh p o
    → IsHeld IsFresh q r
unfolding IsStored
Work-IsHeld (refreshes next f) h = record { stored = f; held = h.held }
Work-IsHeld refresh_throws h = record { stored = tt; held = h.held }
Work-IsHeld stores h = record { stored = tt; held = λ a e. rw (← some-value e) h.stored }
Work-IsHeld calls h = record { stored = tt; held = h.held }
Work-IsHeld call_throws h = record { stored = tt; held = h.held }
Work-IsHeld (wakes b) h = record { stored = tt; held = h.held }
Work-IsHeld (times_out b) h = record { stored = tt; held = h.held }

Work-some :
    {S : Type 0} {IsFresh : S → Type 0} {b : Bool} {p q : Phase S} {o r : Option S}
    → Work IsFresh b p o q r
    → o ≢ none
    → r ≢ none
Work-some (refreshes next f) h = h
Work-some refresh_throws h = h
Work-some stores h = λ e. cc
Work-some calls h = h
Work-some call_throws h = h
Work-some (wakes b) h = h
Work-some (times_out b) h = h

start-keeps :
    {S : Type 0} {IsFresh : S → Type 0} (s : State S) (phase : Phase S)
    → s.phase ≡ phase
    → IsHeld IsFresh s.phase s.snapshot
    → IsHeld IsFresh (start_from phase s).phase (start_from phase s).snapshot
      × ((start_from phase s).snapshot ≡ s.snapshot)
unfolding start_from IsStored
start-keeps s absent e h = (record { stored = tt; held = h.held }, refl)
start-keeps s refreshing e h = (h, refl)
start-keeps s calling e h = (h, refl)
start-keeps s waiting e h = (h, refl)
start-keeps s returned e h = (h, refl)
start-keeps s (storing next) e h = (h, refl)

after_join-IsStored :
    {S : Type 0} (IsFresh : S → Type 0) {p : Phase S} → Joins p → IsStored IsFresh (after_join p)
unfolding IsStored after_join
after_join-IsStored IsFresh not_joinable = tt
after_join-IsStored IsFresh has_returned = tt

Step-keeps :
    {S : Type 0} {IsFresh : S → Type 0} {s t : State S}
    → Step IsFresh s t
    → IsHeld IsFresh s.phase s.snapshot
    → IsHeld IsFresh t.phase t.snapshot × (s.snapshot ≢ none → t.snapshot ≢ none)
unfolding IsStored
Step-keeps {s} (starts f) h =
    let (kept, same) = start-keeps s s.phase refl h in (kept, λ n e. n (sym same ∙ e))
Step-keeps (stops f) h = (h, λ n. n)
Step-keeps (joins f j) h = (record { stored = after_join-IsStored _ j; held = h.held }, λ n. n)
Step-keeps (works w) h = (Work-IsHeld w h, Work-some w)

reach-IsHeld :
    {S : Type 0} {IsFresh : S → Type 0} {s t : State S}
    → Reach IsFresh s t
    → IsHeld IsFresh s.phase s.snapshot
    → IsHeld IsFresh t.phase t.snapshot × (s.snapshot ≢ none → t.snapshot ≢ none)
reach-IsHeld here h = (h, λ n. n)
reach-IsHeld (later r s) h =
    let (before, kept) = reach-IsHeld r h in
    let (after, again) = Step-keeps s before in (after, λ n. again (kept n))

pub reach-join :
    {S : Type 0} {IsFresh : S → Type 0} {s t u : State S}
    → Reach IsFresh s t
    → Reach IsFresh t u
    → Reach IsFresh s u
reach-join r here = r
reach-join r (later q s) = later (reach-join r q) s

-- At any time the snapshot is null or one that a refresh returned, and where it is not null it is not
-- null at any later time: neither an exception nor a stop takes it away.
pub snapshot-IsFresh :
    {S : Type 0} {IsFresh : S → Type 0} {s t : State S}
    → Reach IsFresh initial s
    → Reach IsFresh s t
    → ((a : S) → t.snapshot ≡ some a → IsFresh a) × (s.snapshot ≢ none → t.snapshot ≢ none)
unfolding IsStored
snapshot-IsFresh {IsFresh} before after =
    let start : IsHeld IsFresh absent none = record { stored = tt; held = λ a e. absurd cc } in
    let held = (reach-IsHeld before start).0 in
    let (kept, lasts) = reach-IsHeld after held in (kept.held, lasts)
