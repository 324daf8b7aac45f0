-- ===== src/Domain/Resources.antt =====
-- SocketInfo.h, SocketOwnership.h, ProcessInfo.h, PortInfo.h, PortRelease.h, ProcessSignal.h,
-- ServiceInfo.h, ResourceTarget.h, JournalEntry.h and SystemMetrics.h.
use lx.Base.{ℕ, ℤ, Bool, true, false, List, Option, Bytes, ◌≡◌, ◌↔◌, Comparable, arith}

pub data TransportProtocol : Type 0 where
  tcp udp : TransportProtocol

pub data AddressFamily : Type 0 where
  ipv4 ipv6 : AddressFamily

pub record Endpoint : Type 0 where
  pub address : Bytes
  pub port : ℕ

pub record SocketInfo : Type 0 where
  pub protocol : TransportProtocol
  pub family : AddressFamily
  pub local : Endpoint
  pub remote : Option Endpoint
  pub state : Bytes
  pub uid : ℕ
  pub inode : ℕ
  pub owner_pids : List ℤ

-- The map from inodes to their owners, as its entries; no inode has two.
abbrev pub SocketOwnership : Type 0
SocketOwnership = List (ℕ × List ℤ)

-- A `double` that the program computes by one division, as the exact quotient.
pub record Fraction : Type 0 where
  pub numerator : ℕ
  pub denominator : ℕ

pub record ProcessInfo : Type 0 where
  pub pid : ℤ
  pub ppid : ℤ
  pub name : Bytes
  pub state : Bytes
  pub uid : ℕ
  pub gid : ℕ
  pub user : Bytes
  pub executable : Option Bytes
  pub cwd : Option Bytes
  pub argv : List Bytes
  pub rss_bytes : ℕ
  pub threads : ℕ
  pub cpu_percent : Option Fraction
  pub systemd_unit : Option Bytes

pub record PortInfo : Type 0 where
  pub socket : SocketInfo
  pub owners : List ProcessInfo

pub record PortReleasePlan : Type 0 where
  pub local_port : ℕ
  pub ports : List PortInfo
  pub owner_pids : List ℤ
  pub recommended_unit : Option Bytes

pub data ProcessSignal : Type 0 where
  terminate kill : ProcessSignal

pub data SignalMechanism : Type 0 where
  pid_fd kill : SignalMechanism

pub record SignalDelivery : Type 0 where
  pub pid : ℤ
  pub signal : ProcessSignal
  pub mechanism : SignalMechanism

pub record SignalCapabilities : Type 0 where
  pub signaling_available : Bool
  pub pid_fd_available : Bool

pub record PortReleaseResult : Type 0 where
  pub released : Bool
  pub deliveries : List SignalDelivery
  pub remaining : Option PortReleasePlan

pub record ServiceInfo : Type 0 where
  pub unit_name : Bytes
  pub description : Bytes
  pub load_state : Bytes
  pub active_state : Bytes
  pub sub_state : Bytes
  pub unit_file_state : Bytes
  pub main_pid : Option ℤ
  pub active_enter_timestamp_usec : ℕ

pub data ResourceTarget : Type 0 where
  port_target : ℕ → ResourceTarget
  process_target : ℤ → ResourceTarget
  service_target : Bytes → ResourceTarget

abbrev pub protocol_eq : TransportProtocol → TransportProtocol → Bool
protocol_eq tcp tcp = true
protocol_eq udp udp = true
protocol_eq _ _ = false

pub protocol_eq_iff : (a b : TransportProtocol) → (protocol_eq a b ≡ true) ↔ (a ≡ b)
protocol_eq_iff a b = (λ h. ground arith, λ h. ground arith)

instance abbrev pub protocol_Eq : Comparable TransportProtocol
protocol_Eq = record { equals = protocol_eq; equals_iff = protocol_eq_iff }

abbrev pub family_eq : AddressFamily → AddressFamily → Bool
family_eq ipv4 ipv4 = true
family_eq ipv6 ipv6 = true
family_eq _ _ = false

pub family_eq_iff : (a b : AddressFamily) → (family_eq a b ≡ true) ↔ (a ≡ b)
family_eq_iff a b = (λ h. ground arith, λ h. ground arith)

instance abbrev pub family_Eq : Comparable AddressFamily
family_Eq = record { equals = family_eq; equals_iff = family_eq_iff }

-- A time stamp is a signed count of nanoseconds since the epoch.
pub record JournalEntry : Type 0 where
  pub timestamp : ℤ
  pub cursor : Bytes
  pub systemd_unit : Option Bytes
  pub pid : Option ℤ
  pub command : Option Bytes
  pub message : Bytes
  pub priority : Option ℕ

-- SystemMetrics.h: counters of ticks; the uptime is in milliseconds.
pub record CpuTimes : Type 0 where
  pub total_ticks : ℕ
  pub idle_ticks : ℕ

pub record SystemMetricsSample : Type 0 where
  pub cpu : CpuTimes
  pub memory_total_bytes : ℕ
  pub memory_available_bytes : ℕ
  pub uptime : ℕ
  pub logical_cpu_count : ℕ
  pub hostname : Bytes

pub record ProcessCpuSample : Type 0 where
  pub pid : ℤ
  pub start_time_ticks : ℕ
  pub cpu_time_ticks : ℕ

pub record MetricsSnapshot : Type 0 where
  pub system : SystemMetricsSample
  pub processes : List ProcessCpuSample

pub record HostStatus : Type 0 where
  pub hostname : Bytes
  pub cpu_percent : Option Fraction
  pub memory_total_bytes : ℕ
  pub memory_used_bytes : ℕ
  pub uptime : ℕ

-- The map from PIDs to percentages, as its entries; no PID has two.
pub record MetricsView : Type 0 where
  pub host : HostStatus
  pub process_cpu_percent : List (ℤ × Fraction)
