-- ===== src/Application/FindService/Tests.antt =====
-- A search in the small system of the tests.
use lx.Base.{
  [], refl, text, ◌≡◌, nat_Eq, list_Eq, int_Eq, option_Eq, before, from, starts_with, List,
}
use lx.Domain.{success, failure, Result, Observation, ProcessInfo, any_process, any_socket}
use lx.Application.FindService.{
  find, FindService, FindResult, contains_text, executable_matches, find_error, find_lowered,
  found_of, in_units, listed, lower, lower_byte, not_empty, occurs, process_found, process_matches,
  processes_found, service_matches, units_found,
}
use lx.Application.Example.{System, port_service, process_service, service_service, machine}
use lx.Application.ProcessService.{
  after_unit, collect, consider, consider_unit, is_empty, keep_unit, list_error, no_service,
  other_name, other_unit, other_user, query_unit, requested_uid, with_service, with_unit,
}
use lx.Exec.{ask, attempt, fail, lift, proceed, pure, ◌>>=◌, ◌>>◌}
use lx.Base.Decimal.{at_end, from_chars, number_of, parse_unsigned}
use lx.Application.ServiceService.{
  ends_with, invalid_unit, is_alnum, normalize_unit, service_suffix, unit_by_pid,
  valid_unit_character,
}
use lx.Application.ProcessService.{list as list_processes, inspect as inspect_process}
use lx.Application.ServiceService.{list as list_services}
use lx.Application.PortService.Inspect.{inspect as inspect_ports, find_processes, inserted_pids}
use lx.Base.Sort.{unique, sort}
use lx.Application.FindService.Found.{IsFound, find-IsFound}

abbrev finder : FindService System
finder = record { ports = port_service; processes = process_service; services = service_service }

abbrev value_or_empty : Result FindResult → FindResult
value_or_empty (success r) = r
value_or_empty (failure e) = record {
  services = [];
  processes = [];
  ports = [];
  executables = [];
  warnings = [];
}

finds :
    find finder (text "WEB") machine
    ≡ (success (value_or_empty (find finder (text "WEB") machine).0), machine)
unfolding after_unit ask at_end attempt before collect consider consider_unit contains_text
    ends_with executable_matches fail find find_error find_lowered found_of from from_chars in_units
    invalid_unit is_alnum is_empty keep_unit lift list_error listed lower lower_byte no_service
    normalize_unit not_empty number_of occurs other_name other_unit other_user parse_unsigned
    proceed process_found process_matches processes_found pure query_unit requested_uid
    service_matches service_suffix starts_with text unit_by_pid units_found valid_unit_character
    with_service with_unit ◌>>=◌ ◌>>◌ list_processes list_services inspect_ports find_processes
    unique sort inserted_pids inspect_process
finds = refl

find-IsFound_example :
    (observed : Observation (List ProcessInfo)) × ((list_processes process_service any_process
        (list_services service_service machine).1).0
      ≡ success observed)
    × IsFound
        (text "WEB")
        (list_services service_service machine).0
        observed
        (inspect_ports port_service any_socket
          (list_processes process_service any_process
            (list_services service_service machine).1).1).0
        (value_or_empty (find finder (text "WEB") machine).0)
find-IsFound_example =
    find-IsFound finder (text "WEB") machine machine
      (value_or_empty (find finder (text "WEB") machine).0) finds
