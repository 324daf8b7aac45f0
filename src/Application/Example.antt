-- ===== src/Application/Example.antt =====
-- A small system for the tests: one TCP socket on port 8080, held by the processes of `web.service`
-- that are alive, and a clock. Only SIGKILL ends a process; stopping the service ends them all.
use lx.Application.ServiceService.{
  ServiceService, is_alnum, valid_unit_character, invalid_unit, service_suffix, ends_with,
  normalize_unit, unit_by_pid, stop as stop_service,
}
use lx.Application.ProcessService.{
  ProcessService, no_service, with_unit, with_service, target_error, validate_signal_target, signal,
  stop, kill, wait_for_exit, inspect as inspect_process,
}
use lx.Application.PortService.{PortService}
use lx.Application.PortService.Inspect.{
  inspect, owner_inodes, owners_of, with_owners, inserted_pids, add_found, find_processes,
  process_of, owners_from, port_of,
}
use lx.Application.PortService.Release.{
  terminate as terminate_port, partial_error, remaining_time, deliver_next, deliver, await_exits,
  gone_or_fail, signal_owners, after_terminate, terminate_current, after_force, force_current,
  force,
}
use mathlib.Core.Path.{subst}
use lx.Base.{
  some, none, true, nat_Eq, list_Eq, int_Eq, option_Eq, [], ℤ, Bytes, List, pos, ℕ, if◌then◌else◌,
  ◌+◌, ◌∷◌, text, int_ltb, is_nil, ◌*◌, keep, contains, map, not, ◌==◌, list_ltb, refl, arith,
  Option, ◌≤◌,
}
use lx.Contracts.{
  SocketProvider, Clock, ProcessProvider, ServiceProvider, SignalProvider, SocketOwnerResolver,
}
use lx.Domain.{
  SocketInfo, Result, success, tcp, ProcessInfo, Observation, ProcessSignal, failure, make_error,
  ipv4, pid_fd, not_found,
}
use lx.Exec.{Machine, ◌>>=◌, ◌>>◌, proceed, ask, perform, observe, attempt, pure, lift, fail}
use lx.Base.Sort.{unique, sort, skip_equal, insert_sorted, includes}
use lx.Base.Decimal.{to_string, decimal}
use lx.Application.PortService.Prepare.{
  collect_owners, has_pid, owner_process, unit_of, join_unit, common_unit, validate_all,
  sorted_owners, plan_of, plan_for, prepare_error, prepare_release,
}
use lx.Application.PortService.Plan.{
  identity_eq, identity_ltb, identities, same_targets, same_socket, owned_within,
  remaining_targets_belong_to, changed_target_error,
}
use lx.Application.PortService.ManagedStop.{
  no_managed_service, still_occupied, gone_or_fail_polled, poll_round, poll, stop_current,
  stop_unit, stop_managed_service,
}
use lx.Application.PortService.Deadline.{IsSteady}

pub record System : Type 0 where
  pub alive : List ℤ
  pub time : ℕ

abbrev pub web_unit : Bytes
web_unit = text "web.service"

abbrev pub process : ℤ → ProcessInfo
process pid = record {
  pid = pid;
  ppid = pos 1;
  name = text "web";
  state = text "S";
  uid = 33;
  gid = 33;
  user = text "www";
  executable = none;
  cwd = none;
  argv = [];
  rss_bytes = 0;
  threads = 1;
  cpu_percent = none;
  systemd_unit = none;
}

abbrev pub observed : {A : Type 0} → A → Result (Observation A)
observed a = success (record { value = a; warnings = [] })

abbrev pub missing : {A : Type 0} → Result A
missing = failure (make_error not_found (text "missing") (text "example") (text "get"))

abbrev pub processes : ProcessProvider System
processes = record {
  get = λ pid w. (if contains pid w.alive then observed (process pid) else missing, w);
  list = λ w. (observed (map process w.alive), w);
}

abbrev pub delivered : ℤ → ProcessSignal → System → System
delivered pid ProcessSignal.terminate w = w
delivered pid ProcessSignal.kill w = record w { alive = keep (λ p. not (p == pid)) w.alive }

abbrev pub signals : SignalProvider System
signals = record {
  send = λ pid s w.
      (success (record { pid = pid; signal = s; mechanism = pid_fd }), delivered pid s w);
  wait_for_exit = λ pid timeout w. (success (not (contains pid w.alive)), w);
  capabilities = λ w. (record { signaling_available = true; pid_fd_available = true }, w);
}

abbrev pub services : ServiceProvider System
services = record {
  probe = λ w. (success tt, w);
  list = λ w. (observed [], w);
  get = λ unit w. (missing, w);
  unit_by_pid = λ pid w. (if contains pid w.alive then success (some web_unit) else missing, w);
  start = λ unit w. (success tt, w);
  stop = λ unit w. (success tt, record w { alive = [] });
  restart = λ unit w. (success tt, w);
}

abbrev pub socket : SocketInfo
socket = record {
  protocol = tcp;
  family = ipv4;
  local = record { address = text "0.0.0.0"; port = 8080 };
  remote = none;
  state = text "listen";
  uid = 33;
  inode = 7;
  owner_pids = [];
}

abbrev pub sockets : SocketProvider System
sockets = record { query = λ q w. (observed (if is_nil w.alive then [] else socket ∷ []), w) }

abbrev pub owners : SocketOwnerResolver System
owners = record { resolve = λ inodes w. (observed ((7, w.alive) ∷ []), w) }

abbrev pub clock : Clock System
clock = record {
  now = λ w. (w.time, w);
  sleep_for = λ ms w. (tt, record w { time = w.time + ms * 1000000 });
}

abbrev pub service_service : ServiceService System
service_service = record { service_provider = services }

abbrev pub process_service : ProcessService System
process_service = record {
  process_provider = processes;
  signal_provider = signals;
  self_pid = pos 99;
  service_service = some service_service;
}

abbrev pub port_service : PortService System
port_service = record {
  socket_provider = sockets;
  owner_resolver = owners;
  process_service = process_service;
  service_service = some service_service;
  grace_period = 3000;
  clock = clock;
  pid_order = λ pids. unique (sort int_ltb pids);
}

-- two processes hold the port
abbrev pub machine : Machine System
machine = record { world = record { alive = pos 42 ∷ pos 41 ∷ []; time = 1000 }; calls = [] }

abbrev UnitKeepsTime : ℤ → System → Option (ServiceService System) → Type 0
UnitKeepsTime pid w none = Unit
UnitKeepsTime pid w (some s) = w.time ≤ (s.service_provider.unit_by_pid pid w).1.time

pub example-IsSteady : IsSteady port_service (λ w. w.time)
example-IsSteady = record {
  now = λ w. refl;
  after_now = λ w. omega arith;
  after_sleep = λ ms w. omega arith;
  after_query = λ q w. omega arith;
  after_resolve = λ inodes w. omega arith;
  after_get = λ pid w. omega arith;
  after_unit = λ s pid w e. subst (UnitKeepsTime pid w) e (omega arith);
}

-- Named on the `unfolding` line of a test, this opens all that a run of the services computes with.
unfoldable pub running : ℕ
unfolding ◌>>=◌ ◌>>◌ proceed ask perform observe attempt pure lift fail unique sort skip_equal
    insert_sorted includes text to_string decimal no_service with_unit with_service target_error
    validate_signal_target signal stop kill wait_for_exit inspect_process is_alnum
    valid_unit_character invalid_unit service_suffix ends_with normalize_unit unit_by_pid
    stop_service owner_inodes owners_of with_owners inserted_pids add_found find_processes
    process_of owners_from port_of inspect collect_owners has_pid owner_process unit_of join_unit
    common_unit validate_all sorted_owners plan_of plan_for prepare_error prepare_release
    identity_eq identity_ltb list_ltb identities same_targets same_socket owned_within
    remaining_targets_belong_to changed_target_error partial_error remaining_time deliver_next
    deliver await_exits gone_or_fail signal_owners after_terminate terminate_current terminate_port
    after_force force_current force no_managed_service still_occupied gone_or_fail_polled poll_round
    poll stop_current stop_unit stop_managed_service
running = 0
