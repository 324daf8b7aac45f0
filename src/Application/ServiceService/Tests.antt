-- ===== src/Application/ServiceService/Tests.antt =====
-- The theorems of the service service at the example system.
use lx.Application.Example.{service_service, machine, running}
use lx.Application.ServiceService.{
  start, stop, restart, normalize_unit, service_suffix, invalid_unit,
}
use lx.Base.{
  refl, nat_Eq, list_Eq, int_Eq, option_Eq, [], text, ◌≡◌, if◌then◌else◌, ◌⊎◌, ltb, ◌++◌, length,
  ◌≢◌, ◌≤◌, Bytes,
}
use lx.Application.ServiceService.Names.{
  IsUnitName, normalize_unit-twice, normalize_unit-IsUnitName,
}
use lx.Domain.{success}
use lx.Exec.Moves.{Moves, extension}
use lx.Application.ServiceService.Commands.{IsUnitCall, commands-IsUnitCall}
use lx.Application.ServiceService.Exact.{IsAcceptable, IsNamed, IsDone, IsRefused, commands_exact}

web-accepted : normalize_unit (text "web") ≡ success (text "web.service")
unfolding running
web-accepted = refl

normalize_unit-IsUnitName_example :
    IsUnitName (text "web.service")
    × ((text "web.service" ≡ text "web") ⊎ (text "web.service" ≡ text "web" ++ service_suffix))
    × (text "web" ≢ [])
    × (length (text "web") ≤ 247)
normalize_unit-IsUnitName_example =
    normalize_unit-IsUnitName (text "web") (text "web.service") web-accepted

normalize_unit-twice_example : normalize_unit (text "web.service") ≡ (
    if ltb 247 (length (text "web.service"))
    then invalid_unit (text "Service unit name is too long")
    else success (text "web.service"))
normalize_unit-twice_example = normalize_unit-twice (text "web") (text "web.service") web-accepted

commands-IsUnitCall_example :
    Moves (extension IsUnitCall) (start service_service (text "web"))
    × Moves (extension IsUnitCall) (stop service_service (text "web"))
    × Moves (extension IsUnitCall) (restart service_service (text "web"))
commands-IsUnitCall_example = commands-IsUnitCall service_service (text "web")

commands_exact_example :
    (IsAcceptable (text "web")
      → (name : Bytes) × IsNamed (text "web") name
        × IsDone service_service (text "web") machine name)
    × (¬ IsAcceptable (text "web") → IsRefused service_service (text "web") machine)
commands_exact_example = commands_exact service_service (text "web") machine
