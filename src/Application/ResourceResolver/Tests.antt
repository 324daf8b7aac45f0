-- ===== src/Application/ResourceResolver/Tests.antt =====
-- The theorems of the resolver at the example system.
use lx.Application.Example.{machine, port_service, process_service, service_service, System}
use lx.Application.ResourceResolver.{ResourceResolver, resolve}
use lx.Base.{text, ◌++◌, ◌≡◌, ℤ, ◌≤◌, arith}
use lx.Base.Decimal.{to_string}
use lx.Domain.{success, process_target, port_target}
use lx.Application.ResourceResolver.Explicit.{resolve-explicit}

abbrev resolver : ResourceResolver System
resolver = record {
  port_service = port_service;
  process_service = process_service;
  service_service = service_service;
}

resolve-explicit_example :
    (resolve resolver (text "pid:" ++ to_string 42) machine
      ≡ (success (process_target (ℤ.pos 42)), machine))
    × (42 ≤ 65535
        → resolve resolver (text "port:" ++ to_string 42) machine
          ≡ (success (port_target 42), machine))
resolve-explicit_example = resolve-explicit resolver 42 machine (omega arith) (omega arith)
