-- ===== src/Application/DashboardService/Tests.antt =====
-- A refresh of the small system of the tests, whose metrics cannot be read.
use lx.Base.{ℤ, none}
use lx.Application.Example.{System, service_service, process_service, port_service, missing}
use lx.Application.DashboardService.{DashboardService, State}
use lx.Exec.Returns.{Returns}

abbrev dashboard : DashboardService System
dashboard = record {
  metrics = record {
    system = record { sample = λ w. (missing, w) };
    processes = record { sample = λ w. (missing, w) };
    waiter = λ ms w. (tt, w);
  };
  processes = process_service;
  ports = port_service;
  services = service_service;
  system_now = λ w. (ℤ.pos w.time, w);
}

abbrev first_state : State
first_state = record { previous = none; previous_metrics = none; services_refreshed_at = none }
