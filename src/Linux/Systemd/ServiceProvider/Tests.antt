-- ===== src/Linux/Systemd/ServiceProvider/Tests.antt =====
-- The provider at the example bus.
use lx.Linux.Systemd.ServiceProvider
use lx.Base.{some, refl, ◌≡◌, pos, text}
use lx.Linux.Systemd.Messages.{is_service}
use lx.Exec.{◌>>=◌, ◌>>◌, observe, attempt, lift, pure}
use lx.Linux.Systemd.Example.{bus, start, bus-IsCounted}
use lx.Exec.Moves.{Moves}
use lx.Linux.Systemd.ServiceProvider.{unit_by_pid, probe, list, get, stop, restart}
use lx.Linux.Systemd.References.{keeping}
use lx.Domain.{success}
use lx.Linux.Systemd.References.Operations.{operations-keeping}

found : (unit_by_pid bus (pos 42) start).0 ≡ success (some (text "web.service"))
unfolding unit_by_pid ◌>>=◌ observe attempt ◌>>◌ lift pure is_service text
found = refl

operations-keeping_example :
    Moves (keeping (λ w. w.handles)) (probe bus)
    × Moves (keeping (λ w. w.handles)) (list bus 3)
    × Moves (keeping (λ w. w.handles)) (get bus (text "web.service"))
    × Moves (keeping (λ w. w.handles)) (unit_by_pid bus (pos 42))
    × Moves (keeping (λ w. w.handles)) (ServiceProvider.start bus (text "web.service"))
    × Moves (keeping (λ w. w.handles)) (stop bus (text "web.service"))
    × Moves (keeping (λ w. w.handles)) (restart bus (text "web.service"))
operations-keeping_example =
    operations-keeping bus (λ w. w.handles) bus-IsCounted (text "web.service") (pos 42) 3
