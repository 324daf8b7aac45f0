-- ===== src/Application/InspectService/Tests.antt =====
-- The theorems of the inspection at the example system, whose journal is empty.
use lx.Base.{[]}
use lx.Domain.{port_target, success}
use lx.Application.Example.{System, port_service, process_service, service_service, observed}
use lx.Application.InspectService.{InspectService, inspect_target}
use lx.Application.InspectService.Logs.{IsGraph, inspect_target-IsGraph}
use lx.Exec.Returns.{Returns}

abbrev inspector : InspectService System
inspector = record {
  resolver = record {
    port_service = port_service;
    process_service = process_service;
    service_service = service_service;
  };
  ports = port_service;
  processes = process_service;
  services = service_service;
  logs = record {
    journal_provider = record {
      probe = λ w. (success tt, w);
      query = λ q w. (observed [], w);
      follow = λ q sink stop w. (success tt, w);
    };
  };
}

inspect_target-IsGraph_example :
    Returns (IsGraph (port_target 8080)) (inspect_target inspector (port_target 8080))
inspect_target-IsGraph_example = inspect_target-IsGraph inspector (port_target 8080)
