-- ===== src/Domain/Requests.antt =====
-- SocketInfo.h (`SocketQuery`), ProcessQuery.h and LogQuery.h.
use lx.Base.{ℕ, ℤ, Bool, true, false, Option, none, Bytes}
use lx.Domain.Resources.{TransportProtocol}

pub record SocketQuery : Type 0 where
  pub local_port : Option ℕ
  pub protocol : Option TransportProtocol
  pub listening_only : Bool

abbrev pub any_socket : SocketQuery
any_socket = record { local_port = none; protocol = none; listening_only = true }

pub record ProcessQuery : Type 0 where
  pub name : Option Bytes
  pub user : Option Bytes
  pub systemd_unit : Option Bytes

abbrev pub any_process : ProcessQuery
any_process = record { name = none; user = none; systemd_unit = none }

-- A time point is a signed count of nanoseconds since the epoch.
pub record LogQuery : Type 0 where
  pub unit : Option Bytes
  pub pid : Option ℤ
  pub since : Option ℤ
  pub limit : ℕ
  pub follow : Bool

abbrev pub any_log : LogQuery
any_log = record { unit = none; pid = none; since = none; limit = 50; follow = false }
