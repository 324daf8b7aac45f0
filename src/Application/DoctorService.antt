-- ===== src/Application/DoctorService.antt =====
-- src/application/DoctorService.cpp: what works on this system.
use lx.Base.{some, [], ◌∷◌, Bytes, ℤ, text, List, if◌then◌else◌}
use lx.Domain.{success, failure, tcp, SignalCapabilities, Result, any_socket}
use lx.Contracts.{ProcessProvider, SocketProvider, SignalProvider, ServiceProvider, JournalProvider}
use lx.Exec.{◌>>=◌, Action, attempt, ask, observe, pure}

pub data CapabilityStatus : Type 0 where
  available unavailable not_implemented : CapabilityStatus

pub record CapabilityCheck : Type 0 where
  pub name : Bytes
  pub status : CapabilityStatus
  pub detail : Bytes

pub record DoctorReport : Type 0 where
  pub checks : List CapabilityCheck

-- a check that begins as unavailable, behind the call that it is about
unfoldable pub checked : {A : Type 0} → Bytes → Bytes → Result A → CapabilityCheck
checked name detail (success a) = record { name = name; status = available; detail = detail }
checked name detail (failure e) = record { name = name; status = unavailable; detail = e.message }

unfoldable pub signal_check : SignalCapabilities → CapabilityCheck
signal_check capabilities =
    if capabilities.signaling_available
    then record {
      name = text "Process signals";
      status = available;
      detail =
          if capabilities.pid_fd_available
          then text "Process signaling uses pidfd when possible"
          else text "Process signaling uses kill(2) fallback";
    }
    else record {
      name = text "Process signals";
      status = unavailable;
      detail = text "Process signaling is unavailable";
    }

unfoldable pub foundation_check : CapabilityCheck
foundation_check = record {
  name = text "Project foundation";
  status = available;
  detail = text "C++17 application and test infrastructure are ready";
}

pub record DoctorService (W : Type 0) : Type 0 where
  pub process_provider : ProcessProvider W
  pub socket_provider : SocketProvider W
  pub signal_provider : SignalProvider W
  pub service_provider : ServiceProvider W
  pub journal_provider : JournalProvider W
  pub self_pid : ℤ

module _ {W : Type 0} (self : DoctorService W) where
  unfoldable pub inspect : Action W DoctorReport
  inspect = do
    process ← attempt (ask (self.process_provider.get self.self_pid))
    sockets ← attempt (ask (self.socket_provider.query (record any_socket { protocol = some tcp })))
    capabilities ← observe self.signal_provider.capabilities
    systemd ← attempt (ask self.service_provider.probe)
    journal ← attempt (ask self.journal_provider.probe)
    pure (record {
      checks =
          foundation_check
          ∷ checked (text "Process API") (text "ProcFS process inspection is available") process
          ∷ checked (text "Socket API") (text "INET_DIAG socket inspection is available") sockets
          ∷ signal_check capabilities
          ∷ checked (text "systemd") (text "systemd service management is available") systemd
          ∷ checked (text "Journal") (text "Local journal queries are available") journal
          ∷ [];
    })
