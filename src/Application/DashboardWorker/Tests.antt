-- ===== src/Application/DashboardWorker/Tests.antt =====
-- A run of the worker: a refresh is stored, the worker waits, and `stop` is called.
use lx.Base.{some, none, true, false, refl, ℕ, ◌≤◌, ◌⊎◌, Option, ◌≡◌, ◌≢◌}
use lx.Application.DashboardWorker.{after_join}
use lx.Application.DashboardWorker.Stops.{rests, steps, stop_ends, stop_quiet}
use lx.Application.DashboardWorker.Snapshots.{snapshot-IsFresh, reach-join}
use lx.Application.DashboardWorker.{
  absent, refreshing, waiting, returned, free, joining, starts, stops, joins, works, here, later,
  refreshes, stores, calls, wakes, has_returned, Reach, State, Work, Joins, initial, Phase,
  start_from,
}
use lx.Application.DashboardWorker.Stops.{stop_quiet, stop_ends, rests}
use lx.Application.DashboardWorker.Snapshots.{snapshot-IsFresh}

abbrev Any : ℕ → Type 0
Any n = Unit

unfoldable waiting_state : State ℕ
waiting_state = record { stopping = false; snapshot = some 5; phase = waiting; controller = free }

reaches-waiting : Reach Any initial waiting_state
unfolding waiting_state start_from
reaches-waiting =
    later (later (later (later here (starts refl)) (works (refreshes 5 tt))) (works stores))
      (works calls)

unfoldable stopping_state : State ℕ
stopping_state = record {
  stopping = true;
  snapshot = some 5;
  phase = waiting;
  controller = joining;
}

reaches-stopping : Reach Any initial stopping_state
unfolding waiting_state stopping_state
reaches-stopping = later reaches-waiting (stops refl)

unfoldable stopped_state : State ℕ
stopped_state = record { stopping = true; snapshot = some 5; phase = absent; controller = free }

stopping-reaches : Reach Any stopping_state stopped_state
unfolding stopped_state stopping_state after_join
stopping-reaches = later (later here (works (wakes refl))) (joins refl has_returned)

abbrev at_end : Phase ℕ
at_end = returned

stop_ends_example :
    (1 ≤ 4) × (Joins at_end ⊎ ((q : Phase ℕ) × (r : Option ℕ) × Work Any true at_end (some 5) q r))
unfolding stopping_state
stop_ends_example = stop_ends reaches-stopping refl (steps rests (wakes refl))

stop_quiet_example : ¬ Work Any true absent (some 5) refreshing (some 5)
unfolding stopped_state
stop_quiet_example = stop_quiet (reach-join reaches-stopping stopping-reaches) refl refl

abbrev some_five : Option ℕ
some_five = some 5

snapshot-IsFresh_example :
    ((a : ℕ) → some_five ≡ some a → Any a) × (some_five ≢ none → some_five ≢ none)
unfolding stopped_state stopping_state
snapshot-IsFresh_example = snapshot-IsFresh reaches-stopping stopping-reaches
