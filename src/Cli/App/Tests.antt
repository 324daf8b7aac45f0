-- ===== src/Cli/App/Tests.antt =====
-- The theorems of the command line at the example system.
use lx.Base.{text, ◌≡◌, [], none, some, true, false, refl, pos, ◌∷◌, arith}
use lx.Cli.Texts.{consents}
use lx.Cli.App.Asked.{is_action}
use lx.Cli.App.Changes.{run_kill, run_free_port}
use lx.Application.Example.{
  running, System, machine, port_service, process_service, service_service, observed,
  example-IsSteady,
}
use lx.Contracts.{JournalProvider}
use lx.Cli.App.{Surroundings, Console, CliApp, Arguments}
use lx.Application.ResourceResolver.{ResourceResolver}
use lx.Cli.Print.{Format}
use lx.Exec.Moves.{Moves, extension}
use lx.Cli.App.Run.{run, run_parsed}
use lx.Exec.Ends.{Ends}
use lx.Cli.Json.{JsonLibrary}
use lx.Domain.{success, ProcessSignal}
use lx.Exec.{sends}
use lx.Cli.App.Ends.{IsEnd}
use lx.Base.Decimal.{to_string}
use lx.Cli.App.Asked.{IsAskedInText}
use lx.Cli.App.Ends.Run.{run_parsed-IsEnd}
use lx.Cli.App.Asked.Run.{run-IsAsked}

abbrev resolver : ResourceResolver System
resolver = record {
  port_service = port_service;
  process_service = process_service;
  service_service = service_service;
}

abbrev journal : JournalProvider System
journal = record {
  probe = λ w. (success tt, w);
  query = λ q w. (observed [], w);
  follow = λ q sink stop w. (success tt, w);
}

abbrev app : CliApp System
app = record {
  doctor_service = record {
    process_provider = process_service.process_provider;
    socket_provider = port_service.socket_provider;
    signal_provider = process_service.signal_provider;
    service_provider = service_service.service_provider;
    journal_provider = journal;
    self_pid = pos 99;
  };
  process_service = process_service;
  port_service = port_service;
  service_service = service_service;
  log_service = record { journal_provider = journal };
  inspect_service = record {
    resolver = resolver;
    ports = port_service;
    processes = process_service;
    services = service_service;
    logs = record { journal_provider = journal };
  };
  find_service = record {
    ports = port_service;
    processes = process_service;
    services = service_service;
  };
  status_service = none;
  tui_runner = none;
}

-- the input is closed
abbrev closed : Console System
closed = record {
  read_line = λ w. (none, w);
  write = λ words w. (tt, w);
  write_error = λ words w. (tt, w);
  install = λ w. (none, w);
  requested = λ w. (false, w);
  restore = λ w. (tt, w);
  throw = λ w. (tt, w);
  thrown = λ w. (false, w);
  now = λ w. (w.time, w);
}

abbrev format : Format
format = record {
  left = λ width words. words;
  right = λ width words. words;
  two_digits = to_string;
  one_decimal = λ value. [];
  local_time = λ seconds. none;
}

abbrev json : JsonLibrary
json = record {
  Json = Unit;
  null = tt;
  text_value = λ words. tt;
  number = λ value. tt;
  percent = λ value. tt;
  array = λ values. tt;
  object = λ members. tt;
  dump = λ value. some (text "{}");
}

abbrev around : Surroundings System
around = record {
  console = closed;
  format = format;
  json = json;
  times = record {
    get_time = λ words. none;
    make_time = λ time. pos 0;
    local_time = λ seconds. none;
  };
  fuel = 121;
}

abbrev no_command : Arguments
no_command = record {
  json = false;
  quiet = false;
  tui = false;
  doctor = false;
  status = false;
  inspect = false;
  find = false;
  process = false;
  stop_process = false;
  kill_process = false;
  service = false;
  log = false;
  port = false;
  free_port = false;
  process_pid = none;
  raw_command = false;
  process_name = none;
  process_user = none;
  process_service = none;
  stop_pid = pos 0;
  kill_pid = pos 0;
  confirm_kill = false;
  port_number = none;
  free_port_number = 0;
  confirm_release = false;
  service_unit = none;
  service_action = [];
  confirm_service_action = false;
  log_unit = none;
  log_pid = none;
  log_lines = 50;
  log_since = none;
  follow_log = false;
  inspect_expression = [];
  find_query = [];
}

-- `lx port free 8080`
abbrev free_8080 : Arguments
free_8080 = record no_command { port = true; free_port = true; free_port_number = 8080 }

-- `lx process kill 42 --yes`
abbrev kill_42 : Arguments
kill_42 = record no_command {
  process = true;
  kill_process = true;
  kill_pid = pos 42;
  confirm_kill = true;
}

-- Nobody can be asked: nothing is done.
free_closed : (run app around free_8080 machine).1.calls ≡ []
unfolding running run run_free_port consents
free_closed = refl

kill_confirmed : (run app around kill_42 machine).1.calls ≡ sends (pos 42) ProcessSignal.kill ∷ []
unfolding running run run_kill
kill_confirmed = refl

run-IsAsked_example :
    Moves (extension (IsAskedInText app around free_8080)) (run app around free_8080)
unfolding is_action
run-IsAsked_example = run-IsAsked app around free_8080 refl

run_parsed-IsEnd_example : Ends (IsEnd free_8080) (run_parsed app around free_8080 none)
run_parsed-IsEnd_example =
    run_parsed-IsEnd app around free_8080 (λ w. w.time) example-IsSteady 120 refl (omega arith) none
