-- ===== src/Application/PortService/Tests.antt =====
-- Runs of the release, and the theorems at a plan that `prepareRelease` makes.
use lx.Application.Example
use lx.Application.Example.{
  System, port_service, machine, process_service, running, example-IsSteady,
}
use lx.Base.{refl, some, [], List, pos, ◌∷◌, ◌≡◌, none, true, arith, ◌≢◌, ap}
use lx.Application.PortService.Prepare.{prepare_release}
use lx.Domain.{PortReleasePlan, PortInfo, success, ProcessSignal}
use lx.Application.PortService.Owners.{IsPlan, prepare_release-IsPlan}
use lx.Application.PortService.ManagedStop.{stop_managed_service}
use lx.Application.PortService.Release.{terminate, force, released_result}
use lx.Exec.Moves.{Extends}
use lx.Exec.Returns.{Returns}
use lx.Application.PortService.Deadline.{stop_managed_service-returns}
use lx.Exec.{sends}
use lx.Application.PortService.Safety.{IsOwnedSignal, force-IsOwnedSignal, terminate-IsOwnedSignal}

abbrev example_ports : List PortInfo
example_ports =
    record {
      socket = record Example.socket { owner_pids = pos 42 ∷ pos 41 ∷ [] };
      owners =
          record (Example.process (pos 42)) { systemd_unit = some Example.web_unit }
          ∷ record (Example.process (pos 41)) { systemd_unit = some Example.web_unit }
          ∷ [];
    }
    ∷ []

abbrev example_plan : PortReleasePlan
example_plan = record {
  local_port = 8080;
  ports = example_ports;
  owner_pids = pos 41 ∷ pos 42 ∷ [];
  recommended_unit = some Example.web_unit;
}

prepare_release-run :
    prepare_release port_service 8080 machine
    ≡ (success (record { value = example_plan; warnings = [] }), machine)
unfolding running
prepare_release-run = refl

example_plan-IsPlan : IsPlan process_service 8080 example_plan
example_plan-IsPlan =
    (prepare_release-IsPlan port_service 8080).at machine
      (record { value = example_plan; warnings = [] }) (ap (λ r. r.0) prepare_release-run)

prepare_release-IsPlan_example :
    Returns (λ o. IsPlan process_service 8080 o.value) (prepare_release port_service 8080)
prepare_release-IsPlan_example = prepare_release-IsPlan port_service 8080

terminate-IsOwnedSignal_example :
    Extends
      (IsOwnedSignal port_service ProcessSignal.terminate 8080 machine)
      machine
      (terminate port_service example_plan machine).1
terminate-IsOwnedSignal_example =
    terminate-IsOwnedSignal port_service example_plan machine example_plan-IsPlan

force-IsOwnedSignal_example :
    Extends
      (IsOwnedSignal port_service ProcessSignal.kill 8080 machine)
      machine
      (force port_service example_plan machine).1
force-IsOwnedSignal_example =
    force-IsOwnedSignal port_service example_plan machine example_plan-IsPlan

-- Both processes are signalled, in ascending order; the latest call stands first.
force-run :
    (force port_service example_plan machine).1.calls
    ≡ sends (pos 42) ProcessSignal.kill ∷ sends (pos 41) ProcessSignal.kill ∷ []
unfolding running
force-run = refl

terminate-run :
    (terminate port_service example_plan machine).1.calls
    ≡ sends (pos 42) ProcessSignal.terminate ∷ sends (pos 41) ProcessSignal.terminate ∷ []
unfolding running
terminate-run = refl

stop_managed_service-returns_example :
    (stop_managed_service port_service 121 example_plan machine).0 ≢ success none
stop_managed_service-returns_example =
    stop_managed_service-returns port_service (λ w. w.time) example-IsSteady 120 example_plan
      machine (omega arith)

stop_managed_service-run :
    (stop_managed_service port_service 121 example_plan machine).0
    ≡ success (some (record { value = released_result true [] none; warnings = [] }))
unfolding running
stop_managed_service-run = refl
