-- ===== src/Linux/Procfs/Processes.antt =====
-- ProcFsProcessProvider.cpp: processes, from the files of their directories in /proc.
pub mod Reads
pub mod Listed
mod Tests
use lx.Base.{
  [], ◌∷◌, some, none, inl, inr, nat_Eq, list_Eq, int_Eq, option_Eq, ℤ, List, ℕ, Option, ◌+◌, Bytes,
  text, if◌then◌else◌, ◌++◌, ◌==◌, ◌||◌,
}
use lx.Domain.{
  success, failure, permission_denied, not_found, ErrorCode, Result, Observation, Warning,
  ProcessInfo, warning_from, Error, io_error, make_error, parse_error, ProcessCpuSample,
}
use lx.Exec.{◌>>=◌, ◌>>◌, Machine, Action, ask, pure, attempt, lift, fail}
use lx.Linux.Errno.{System}
use lx.Linux.Procfs.Reader.{FileSystem, process_ids, read_file, read_link}
use lx.Linux.Procfs.Stat.{StatRecord, parse_stat}
use lx.Linux.Procfs.CpuStat.{parse_process_cpu_stat}
use lx.Linux.Procfs.Status.{StatusRecord, parse_status}
use lx.Linux.Procfs.Cmdline.{parse_cmdline}
use lx.Base.Decimal.{to_string}

unfoldable pub state_name : ℕ → Bytes
state_name state =
    if state == b'R'
    then text "running"
    else if state == b'S'
    then text "sleeping"
    else if state == b'D'
    then text "disk sleep"
    else if state == b'Z'
    then text "zombie"
    else if state == b'T'
    then text "stopped"
    else if state == b't'
    then text "tracing stop"
    else if state == b'X' || state == b'x'
    then text "dead"
    else if state == b'I'
    then text "idle"
    else state ∷ []

unfoldable pub provider_error : ErrorCode → Bytes → Error
provider_error code message = make_error code message (text "procfs-process-provider") (text "get")

-- what a part of the record is where it was read, and the warning where it was not
unfoldable pub or_warn : {A : Type 0} → A → Result A → A × List Warning
or_warn default (success a) = (a, [])
or_warn default (failure e) = (default, warning_from e ∷ [])

unfoldable pub or_nothing : Result Bytes → Option Bytes × List Warning
or_nothing (success target) = (some target, [])
or_nothing (failure e) = (none, warning_from e ∷ [])

unfoldable pub arguments_of : Result Bytes → List Bytes × List Warning
arguments_of (success contents) = (parse_cmdline contents, [])
arguments_of (failure e) = ([], warning_from e ∷ [])

unfoldable pub process_of_files :
    ℤ
    → StatRecord
    → StatusRecord
    → Result Bytes
    → Result Bytes
    → Result Bytes
    → Result Bytes
    → Observation ProcessInfo
process_of_files pid stat status user cmdline executable cwd =
    let (name, user_warnings) = or_warn (to_string status.uid) user in
    let (argv, cmdline_warnings) = arguments_of cmdline in
    let (exe, exe_warnings) = or_nothing executable in
    let (directory, cwd_warnings) = or_nothing cwd in
    record {
      value = record {
        pid = pid;
        ppid = stat.ppid;
        name = stat.name;
        state = state_name stat.state;
        uid = status.uid;
        gid = status.gid;
        user = name;
        executable = exe;
        cwd = directory;
        argv = argv;
        rss_bytes = status.rss_bytes;
        threads = status.threads;
        cpu_percent = none;
        systemd_unit = none;
      };
      warnings = user_warnings ++ (cmdline_warnings ++ (exe_warnings ++ cwd_warnings));
    }

pub record ProcFsProcessProvider (W : Type 0) : Type 0 where
  pub system : System
  pub files : FileSystem W
  pub name_for_uid : ℕ → W → Result Bytes × W

-- the three counters of `list`
pub record Counts : Type 0 where
  pub permission : ℕ
  pub disappeared : ℕ
  pub detail : ℕ

unfoldable pub count_code : Counts → ErrorCode → Counts
count_code counts permission_denied = record counts { permission = counts.permission + 1 }
count_code counts not_found = record counts { disappeared = counts.disappeared + 1 }
count_code counts code = record counts { detail = counts.detail + 1 }

unfoldable pub count_codes : Counts → List Warning → Counts
count_codes counts [] = counts
count_codes counts (w ∷ rest) = count_codes (count_code counts w.code) rest

unfoldable pub list_warning : ErrorCode → ℕ → Bytes → List Warning
list_warning code count message =
    if count == 0
    then []
    else warning_from (
        make_error code (to_string count ++ message) (text "procfs-process-provider") (text "list"))
      ∷ []

unfoldable pub list_warnings : Counts → List Warning
list_warnings counts =
    list_warning permission_denied counts.permission
      (text " process details could not be read because of permissions")
    ++ (list_warning not_found counts.disappeared
          (text " process details disappeared during enumeration")
        ++ list_warning io_error counts.detail (text " optional process details were unavailable"))

unfoldable pub add_process :
    Result (Observation ProcessInfo) → List ProcessInfo × Counts → List ProcessInfo × Counts
add_process (failure e) (found, counts) = (found, count_code counts e.code)
add_process (success process) (found, counts) =
    (found ++ process.value ∷ [], count_codes counts process.warnings)

unfoldable pub sampled : ℤ → Result Bytes → List ProcessCpuSample
sampled pid (failure e) = []
sampled pid (success contents) = elim (parse_process_cpu_stat contents) [
  | failure e ↦ []
  | success sample ↦ if sample.pid == pid then sample ∷ [] else []
]

unfoldable pub for_ids :
    {W A : Type 0}
    → (List ℤ → Action W A)
    → Option (Result (List ℤ))
    → Machine W
    → Option (Result A) × Machine W
for_ids f none m = (none, m)
for_ids f (some (failure e)) m = (some (failure e), m)
for_ids f (some (success ids)) m = let (r, k) = f ids m in (some r, k)

module _ {W : Type 0} (self : ProcFsProcessProvider W) where
  open self use {system, files, name_for_uid}

  -- behind the test of the PID
  unfoldable pub get_details : ℤ → StatRecord → Action W (Observation ProcessInfo)
  get_details pid stat = do
    status_text ← ask (read_file system files pid (text "status"))
    status ← lift (parse_status status_text)
    user ← attempt (ask (name_for_uid status.uid))
    cmdline ← attempt (ask (read_file system files pid (text "cmdline")))
    executable ← attempt (ask (read_link system files pid (text "exe")))
    cwd ← attempt (ask (read_link system files pid (text "cwd")))
    pure (process_of_files pid stat status user cmdline executable cwd)

  unfoldable pub get_checked : ℤ → StatRecord → Action W (Observation ProcessInfo)
  unfolding get_details
  get_checked pid stat =
      if stat.pid == pid
      then get_details pid stat
      else fail (provider_error parse_error (text "Process stat PID does not match request"))

  unfoldable pub get : ℤ → Action W (Observation ProcessInfo)
  unfolding get_checked
  get pid = do
    stat_text ← ask (read_file system files pid (text "stat"))
    stat ← lift (parse_stat stat_text)
    get_checked pid stat

  -- the loop of `list`
  unfoldable pub gather :
      List ℤ → List ProcessInfo × Counts → Action W (Observation (List ProcessInfo))
  unfolding add_process
  gather [] (found, counts) = pure (record { value = found; warnings = list_warnings counts })
  gather (pid ∷ rest) found = do
    process ← attempt (get pid)
    gather rest (add_process process found)

  -- the loop of `sample`
  unfoldable pub sample_all : List ℤ → List ProcessCpuSample → Action W (List ProcessCpuSample)
  unfolding sampled
  sample_all [] samples = pure samples
  sample_all (pid ∷ rest) samples = do
    contents ← attempt (ask (read_file system files pid (text "stat")))
    sample_all rest (samples ++ sampled pid contents)

  -- `processIds`, and the rest of the method; `none` where an exception leaves it
  unfoldable pub with_ids :
      {A : Type 0} → (List ℤ → Action W A) → Machine W → Option (Result A) × Machine W
  with_ids f m =
      let (root, w) = files.open_root m.world in
      for_ids f (process_ids system root) (record m { world = w })

  unfoldable pub list : Machine W → Option (Result (Observation (List ProcessInfo))) × Machine W
  unfolding with_ids
  list = with_ids (λ ids. gather ids ([], record { permission = 0; disappeared = 0; detail = 0 }))

  unfoldable pub sample : Machine W → Option (Result (List ProcessCpuSample)) × Machine W
  unfolding with_ids
  sample = with_ids (λ ids. sample_all ids [])
