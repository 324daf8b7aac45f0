-- ===== src/Cli/Print.antt =====
-- CliApp.cpp: the tables and records as text. What the formatting library does with a width or a
-- floating point number, and local time, are given to the model.
use lx.Base.{
  some, none, [], ◌∷◌, nat_Eq, list_Eq, int_Eq, option_Eq, List, Option, ℕ, text, Bytes, ◌++◌, Bool,
  if◌then◌else◌, map, ◌/◌, ◌%◌, ℤ, ◌==◌, is_nil, ◌*◌,
}
use lx.Domain.{Observation, ProcessInfo, PortReleasePlan, HostStatus, Warning, Fraction}
use lx.Application.DoctorService.{DoctorReport, CapabilityCheck}
use lx.Cli.Texts.{status_text, join, shortened, displayed_arguments, name_in_ports}
use lx.Base.Decimal.{to_string}
use lx.Application.ResourceResolver.{show_pid}

-- `{:<w}`, `{:>w}`, `{:02}`, `{:.1f}`; and a time in seconds as "%F %T", where `localtime_r` succeeds
pub record Format : Type 0 where
  pub left : ℕ → Bytes → Bytes
  pub right : ℕ → Bytes → Bytes
  pub two_digits : ℕ → Bytes
  pub one_decimal : Fraction → Bytes
  pub local_time : ℤ → Option Bytes

-- what is written to the two streams
pub record Printed : Type 0 where
  pub output : Bytes
  pub diagnostics : Bytes

abbrev pub or_dash : Option Bytes → Bytes
or_dash none = text "-"
or_dash (some value) = value

abbrev pub or_text : Bytes → Option Bytes → Bytes
or_text default none = default
or_text default (some value) = value

-- texts behind one another
abbrev pub all_texts : List Bytes → Bytes
all_texts [] = []
all_texts (x ∷ rest) = x ++ all_texts rest

abbrev pub each_text {ℓ} : {A : Type ℓ} → (A → Bytes) → List A → Bytes
each_text f xs = all_texts (map f xs)

abbrev pub new_line : Bytes
new_line = 10 ∷ []

unfoldable pub warning_lines : List Warning → Bytes
warning_lines warnings =
    each_text (λ (w : Warning). all_texts (text "Warning: " ∷ w.message ∷ new_line ∷ [])) warnings

-- a title and lines, where there are any
abbrev pub section_of {ℓ} : {A : Type ℓ} → Bytes → (A → Bytes) → List A → Bytes
section_of title line xs = if is_nil xs then [] else title ++ each_text line xs

unfoldable pub mebibytes : ℕ → Fraction
mebibytes bytes = record { numerator = bytes; denominator = 1048576 }

module _ (format : Format) where
  unfoldable pub print_doctor_report : DoctorReport → Printed
  print_doctor_report report = record {
    output =
        text "LX Doctor\n\n"
        ++ each_text
            (λ (check : CapabilityCheck). all_texts (
              format.left 20 check.name
              ∷ text " "
              ∷ status_text check.status
              ∷ text "\n  "
              ∷ check.detail
              ∷ new_line
              ∷ []))
            report.checks;
    diagnostics = [];
  }

  unfoldable pub print_release_plan : PortReleasePlan → Bytes
  print_release_plan plan = all_texts (
      text "Port "
      ∷ to_string plan.local_port
      ∷ text " is owned by:\n\nPID      PROCESS\n"
      ∷ each_text
          (λ (pid : ℤ). all_texts (
            format.left 8 (show_pid pid) ∷ text " " ∷ name_in_ports plan.ports pid ∷ new_line ∷ []))
          plan.owner_pids
      ∷ new_line
      ∷ elim plan.recommended_unit [
        | none ↦ []
        | some unit ↦ all_texts (
            text "All owners belong to "
            ∷ unit
            ∷ text ".\nRecommended action: stop the service instead of signaling its processes.\n\n"
            ∷ [])
      ]
      ∷ [])

  unfoldable pub percent_text : Bytes → Option Fraction → Bytes
  percent_text suffix none = text "-"
  percent_text suffix (some percent) = format.one_decimal percent ++ suffix

  unfoldable pub print_process : Observation ProcessInfo → Bool → Bool → Printed
  print_process observed raw quiet =
      let process = observed.value in
      record {
        output = all_texts (
            text "Process "
            ∷ show_pid process.pid
            ∷ text "\n\nName        "
            ∷ process.name
            ∷ text "\nState       "
            ∷ process.state
            ∷ text "\nPPID        "
            ∷ show_pid process.ppid
            ∷ text "\nUser        "
            ∷ process.user
            ∷ text " ("
            ∷ to_string process.uid
            ∷ text ")\nThreads     "
            ∷ to_string process.threads
            ∷ text "\nRSS         "
            ∷ format.one_decimal (mebibytes process.rss_bytes)
            ∷ text " MiB\nCPU         "
            ∷ percent_text (text "%") process.cpu_percent
            ∷ text "\nExecutable  "
            ∷ or_text (text "<unavailable>") process.executable
            ∷ text "\nCWD         "
            ∷ or_text (text "<unavailable>") process.cwd
            ∷ text "\n\nCommand\n  "
            ∷ join (text " ") (displayed_arguments process.argv raw)
            ∷ text "\n\nService\n  "
            ∷ or_text (text "<none>") process.systemd_unit
            ∷ new_line
            ∷ (if quiet
                then []
                else section_of (text "\nWarnings\n")
                    (λ (w : Warning). all_texts (text "  " ∷ w.message ∷ new_line ∷ []))
                    observed.warnings)
            ∷ []);
        diagnostics = [];
      }

  unfoldable pub process_line : ProcessInfo → Bytes
  process_line process = all_texts (
      format.left 8 (show_pid process.pid)
      ∷ text " "
      ∷ format.left 16 (shortened process.user 16)
      ∷ text " "
      ∷ format.left 14 (shortened process.state 14)
      ∷ text " "
      ∷ format.right 6 (percent_text [] process.cpu_percent)
      ∷ text " "
      ∷ format.right 9 (format.one_decimal (mebibytes process.rss_bytes))
      ∷ text " "
      ∷ format.right 8 (to_string process.threads)
      ∷ text "  "
      ∷ format.left 24 (shortened process.name 24)
      ∷ text " "
      ∷ or_dash process.systemd_unit
      ∷ new_line
      ∷ [])

  unfoldable pub print_processes : Observation (List ProcessInfo) → Printed
  print_processes observed = record {
    output =
        text
          "PID      USER             STATE          CPU %   RSS MiB   THREADS  NAME                     SERVICE\n"
        ++ each_text process_line observed.value;
    diagnostics = warning_lines observed.warnings;
  }

  -- `memoryTotalBytes == 0 ? 0.0 : 100.0 * used / total`
  unfoldable pub memory_percent : HostStatus → Fraction
  memory_percent status =
      if status.memory_total_bytes == 0 then record { numerator = 0; denominator = 1 } else record {
        numerator = 100 * status.memory_used_bytes;
        denominator = status.memory_total_bytes;
      }

  unfoldable pub print_status : HostStatus → Printed
  print_status status =
      let seconds = status.uptime / 1000 in
      record {
        output = all_texts (
            text "Host      "
            ∷ status.hostname
            ∷ text "\nCPU       "
            ∷ percent_text (text "%") status.cpu_percent
            ∷ text "\nMemory    "
            ∷ format.one_decimal (mebibytes status.memory_used_bytes)
            ∷ text " / "
            ∷ format.one_decimal (mebibytes status.memory_total_bytes)
            ∷ text " MiB ("
            ∷ format.one_decimal (memory_percent status)
            ∷ text "%)\nUptime    "
            ∷ to_string (seconds / 86400)
            ∷ text "d "
            ∷ format.two_digits (seconds % 86400 / 3600)
            ∷ text "h "
            ∷ format.two_digits (seconds % 3600 / 60)
            ∷ text "m\n"
            ∷ []);
        diagnostics = [];
      }
