-- ===== src/Application/ProcessService/Tests.antt =====
-- The theorems of the process service at the example system.
use lx.Application.Example.{process_service, machine}
use lx.Application.ProcessService.{list, stop, kill}
use lx.Base.{some, none, text, All, pos, ◌≡◌, ◌∷◌}
use lx.Exec.Moves.{Moves, extension}
use lx.Application.ProcessService.Signals.{
  IsSafeTarget, IsSafeSignal, signals-IsSafeSignal, signals_exact,
}
use lx.Domain.{ProcessQuery, ProcessSignal, Error, failure}
use lx.Exec.Returns.{Returns}
use lx.Application.ProcessService.Listing.{Fits, list-Fits}
use lx.Exec.{sends}

signals-IsSafeSignal_example :
    Moves
      (extension (IsSafeSignal process_service ProcessSignal.terminate (pos 41)))
      (stop process_service (pos 41))
    × Moves
        (extension (IsSafeSignal process_service ProcessSignal.kill (pos 41)))
        (kill process_service (pos 41))
signals-IsSafeSignal_example = signals-IsSafeSignal process_service (pos 41)

signals_exact_example :
    (IsSafeTarget process_service (pos 41)
      → ((stop process_service (pos 41) machine).0
          ≡ (process_service.signal_provider.send (pos 41) ProcessSignal.terminate machine.world).0)
        × ((stop process_service (pos 41) machine).1.calls
            ≡ sends (pos 41) ProcessSignal.terminate ∷ machine.calls)
        × ((kill process_service (pos 41) machine).0
            ≡ (process_service.signal_provider.send (pos 41) ProcessSignal.kill machine.world).0)
        × ((kill process_service (pos 41) machine).1.calls
            ≡ sends (pos 41) ProcessSignal.kill ∷ machine.calls))
    × (¬ IsSafeTarget process_service (pos 41)
        → (e : Error) × (stop process_service (pos 41) machine ≡ (failure e, machine))
          × (kill process_service (pos 41) machine ≡ (failure e, machine)))
signals_exact_example = signals_exact process_service (pos 41) machine

abbrev web_query : ProcessQuery
web_query = record { name = some (text "web"); user = none; systemd_unit = some (text "web") }

list-Fits_example : Returns (λ o. All (Fits web_query) o.value) (list process_service web_query)
list-Fits_example = list-Fits process_service web_query
