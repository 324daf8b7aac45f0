-- ===== src/Application/DashboardWorker.antt =====
-- src/application/DashboardWorker.cpp: the thread that refreshes the dashboard, and the one thread that
-- starts and stops it. Each step is what a thread does between two points at which the other may run;
-- a refresh is any snapshot that `IsFresh` allows, or an exception.
pub mod Stops
pub mod Snapshots
mod Tests
use lx.Base.{true, false, some, none, Bool, Option, ◌≡◌}

-- where the worker is in `work`; `absent` where `thread_` is not joinable
pub data Phase (S : Type 0) : Type 0 where
  absent refreshing calling waiting returned : Phase S
  storing : S → Phase S

-- where the controller is: in `stop`, between `notify_all` and the end of the join, or outside
pub data Controller : Type 0 where
  free joining : Controller

pub record State (S : Type 0) : Type 0 where
  pub stopping : Bool
  pub snapshot : Option S
  pub phase : Phase S
  pub controller : Controller

abbrev pub initial : {S : Type 0} → State S
initial = record { stopping = false; snapshot = none; phase = absent; controller = free }

-- `start`, which does nothing where the thread is joinable
unfoldable pub start_from : {S : Type 0} → Phase S → State S → State S
start_from absent s = record s { stopping = false; phase = refreshing }
start_from refreshing s = s
start_from calling s = s
start_from waiting s = s
start_from returned s = s
start_from (storing next) s = s

abbrev pub started : {S : Type 0} → State S → State S
started s = start_from s.phase s

-- `stop`, up to the join, and the join's return
abbrev pub begin_stop : {S : Type 0} → State S → State S
begin_stop s = record s { stopping = true; controller = joining }

-- `join` lets the thread go where it has returned; it ends no other thread.
unfoldable pub after_join : {S : Type 0} → Phase S → Phase S
after_join absent = absent
after_join returned = absent
after_join refreshing = refreshing
after_join calling = calling
after_join waiting = waiting
after_join (storing next) = storing next

abbrev pub joined : {S : Type 0} → State S → State S
joined s = record s { phase = after_join s.phase; controller = free }

-- `if (thread_.joinable()) thread_.join();` gets past where there is no thread, or it has returned.
pub data Joins {S : Type 0} : Phase S → Type 0 where
  not_joinable : Joins absent
  has_returned : Joins returned

-- The body of `work`. `wait_for` returns what `stopping_` is when it returns.
pub data Work {S : Type 0} (IsFresh : S → Type 0) (stopping : Bool)
    : Phase S → Option S → Phase S → Option S → Type 0 where
  refreshes :
      {held : Option S} (next : S)
      → IsFresh next
      → Work IsFresh stopping refreshing held (storing next) held
  refresh_throws : {held : Option S} → Work IsFresh stopping refreshing held returned held
  stores :
      {held : Option S} {next : S} → Work IsFresh stopping (storing next) held calling (some next)
  calls : {held : Option S} → Work IsFresh stopping calling held waiting held
  call_throws : {held : Option S} → Work IsFresh stopping calling held returned held
  wakes : {held : Option S} → stopping ≡ true → Work IsFresh stopping waiting held returned held
  times_out :
      {held : Option S} → stopping ≡ false → Work IsFresh stopping waiting held refreshing held

pub data Step {S : Type 0} (IsFresh : S → Type 0) (s : State S) : State S → Type 0 where
  starts : s.controller ≡ free → Step IsFresh s (started s)
  stops : s.controller ≡ free → Step IsFresh s (begin_stop s)
  joins : s.controller ≡ joining → Joins s.phase → Step IsFresh s (joined s)
  works :
      {phase : Phase S} {held : Option S}
      → Work IsFresh s.stopping s.phase s.snapshot phase held
      → Step IsFresh s (record s { phase = phase; snapshot = held })

pub data Reach {S : Type 0} (IsFresh : S → Type 0) (s : State S) : State S → Type 0 where
  here : Reach IsFresh s s
  later : {t u : State S} → Reach IsFresh s t → Step IsFresh t u → Reach IsFresh s u
