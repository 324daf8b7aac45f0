-- ===== src/Cli/Texts.antt =====
-- CliApp.cpp: the texts that the tables and the messages are made of. A character is a byte.
pub mod Escapes
mod Tests
use lx.Base.{
  some, none, [], ◌∷◌, true, false, zero, suc, nat_Eq, list_Eq, int_Eq, option_Eq, Option, Bytes,
  Bool, List, ℕ, ◌++◌, if◌then◌else◌, ℤ, from, text, any_of, ◌==◌, ◌&&◌, ◌-◌, before, ◌||◌,
  contains, is_nil, leb, find_if, ltb, not, is_space, map, ◌/◌, length, ◌+◌, take, ◌%◌, reverse,
}
use lx.Domain.{pid_fd, PortInfo, ErrorCode, SignalMechanism, ProcessInfo}
use lx.Application.FindService.{lower}
use lx.Application.DoctorService.{CapabilityStatus, available}
use lx.Application.ResourceResolver.{show_pid}

unfoldable pub status_text : CapabilityStatus → Bytes
status_text CapabilityStatus.available = text "OK"
status_text CapabilityStatus.unavailable = text "unavailable"
status_text CapabilityStatus.not_implemented = text "not implemented"

unfoldable pub mechanism_name : SignalMechanism → Bytes
mechanism_name pid_fd = text "pidfd"
mechanism_name SignalMechanism.kill = text "kill(2)"

-- the text between the spaces at its ends
unfoldable pub skip_spaces : Bytes → Bytes
skip_spaces value = from (λ c. not (is_space c)) value

unfoldable pub trim : Bytes → Bytes
unfolding skip_spaces
trim answer = reverse (skip_spaces (reverse (skip_spaces answer)))

-- what an answer to a question with a default means
unfoldable pub consents : Bool → Option Bytes → Bool
consents default_yes none = false
consents default_yes (some line) =
    let answer = trim line in
    if is_nil answer
    then default_yes
    else (let normalized = lower answer in normalized == text "y" || normalized == text "yes")

unfoldable pub secret_key : Bytes → Bool
secret_key value =
    let key = lower value in
    key == text "password"
    || key == text "passwd"
    || key == text "token"
    || key == text "api-key"
    || key == text "apikey"
    || key == text "secret"
    || key == text "database_url"

abbrev pub redacted : Bytes
redacted = text "<redacted>"

-- the key of an argument, without the dashes in front
unfoldable pub argument_key : Bytes → Bytes
argument_key argument = from (λ c. not (c == b'-')) (before (λ c. c == b'=') argument)

-- `argument.find('=') != npos`
abbrev pub gives_value : Bytes → Bool
gives_value argument = any_of (λ c. c == b'=') argument

-- the body of the loop over the arguments, where the one in front does not ask to hide this one
unfoldable pub shown_argument : Bytes → Bytes
shown_argument argument =
    if secret_key (argument_key argument) && gives_value argument
    then before (λ c. c == b'=') argument ++ (b'=' ∷ redacted)
    else argument

unfoldable pub hides_next : Bytes → Bool
hides_next argument = secret_key (argument_key argument) && not (gives_value argument)

unfoldable pub redact : Bool → List Bytes → List Bytes
redact redact_next [] = []
redact redact_next (argument ∷ rest) =
    (if redact_next then redacted else shown_argument argument)
    ∷ redact (not redact_next && hides_next argument) rest

-- `displayedArguments`
unfoldable pub displayed_arguments : List Bytes → Bool → List Bytes
displayed_arguments arguments raw = if raw then arguments else redact false arguments

-- texts with a separator between them
unfoldable pub join : Bytes → List Bytes → Bytes
join separator [] = []
join separator (x ∷ []) = x
join separator (x ∷ y ∷ rest) = x ++ (separator ++ join separator (y ∷ rest))

unfoldable pub owner_name : List ProcessInfo → ℤ → Bytes
owner_name owners pid = elim (find_if (λ (p : ProcessInfo). p.pid == pid) owners) [
  | none ↦ text "<unavailable>"
  | some owner ↦ owner.name
]

-- `joined`, with a comma where something is there
unfoldable pub add_name : Bytes → Bytes → Bytes
add_name joined name = if is_nil joined then name else joined ++ (b',' ∷ name)

unfoldable pub names_from : Bytes → List ProcessInfo → List ℤ → Bytes
names_from joined owners [] = joined
names_from joined owners (pid ∷ rest) =
    names_from (add_name joined (owner_name owners pid)) owners rest

unfoldable pub owner_names : PortInfo → Bytes
owner_names port =
    if is_nil port.socket.owner_pids
    then text "unresolved"
    else names_from [] port.owners port.socket.owner_pids

unfoldable pub owner_pids : PortInfo → Bytes
owner_pids port =
    if is_nil port.socket.owner_pids
    then text "-"
    else join (text ",") (map show_pid port.socket.owner_pids)

-- the units of the owners, each where it comes first
unfoldable pub add_owner_unit : Option Bytes → List Bytes → List Bytes
add_owner_unit none units = units
add_owner_unit (some unit) units = if contains unit units then units else units ++ unit ∷ []

unfoldable pub units_of_owners : List ProcessInfo → List Bytes → List Bytes
units_of_owners [] units = units
units_of_owners (owner ∷ rest) units =
    units_of_owners rest (add_owner_unit owner.systemd_unit units)

unfoldable pub owner_services : PortInfo → Bytes
owner_services port =
    let units = units_of_owners port.owners [] in
    if is_nil units then text "-" else join (text ",") units

-- `processName`: the name in the first port that has the process
unfoldable pub name_in_ports : List PortInfo → ℤ → Bytes
name_in_ports [] pid = text "<unavailable>"
name_in_ports (port ∷ rest) pid = elim (find_if (λ (p : ProcessInfo). p.pid == pid) port.owners) [
  | none ↦ name_in_ports rest pid
  | some owner ↦ owner.name
]

unfoldable pub shortened : Bytes → ℕ → Bytes
shortened value width =
    if leb (length value) width
    then value
    else if ltb 3 width
    then take (width - 3) value ++ text "..."
    else take width value

unfoldable pub spaces : ℕ → Bytes
spaces zero = []
spaces (suc n) = b' ' ∷ spaces n

unfoldable pub table_cell : Bytes → ℕ → Bytes
table_cell value width = let cell = shortened value width in cell ++ spaces (width - length cell)

abbrev pub hex_digit : ℕ → ℕ
hex_digit n = if ltb n 10 then b'0' + n else b'a' + (n - 10)

-- what a character of a message is shown as
unfoldable pub safe_character : ℕ → Bytes
safe_character c =
    if c == 10
    then text "\\n"
    else if c == 13
    then text "\\r"
    else if c == 9
    then text "\\t"
    else if ltb c 32 || c == 127
    then text "\\x" ++ (hex_digit (c / 16) ∷ hex_digit (c % 16) ∷ [])
    else c ∷ []

-- the loop, with the size of the result so far
unfoldable pub safe_from : ℕ → ℕ → Bytes → Bytes
safe_from limit size [] = []
safe_from limit size (c ∷ rest) =
    if leb limit size
    then text "..."
    else safe_character c ++ safe_from limit (size + length (safe_character c)) rest

unfoldable pub safe_log_text : Bytes → Bytes
safe_log_text value = safe_from 4096 0 value

unfoldable pub priority_text : Option ℕ → Bytes
priority_text none = text "unknown"
priority_text (some priority) =
    if priority == 0
    then text "emerg"
    else if priority == 1
    then text "alert"
    else if priority == 2
    then text "crit"
    else if priority == 3
    then text "err"
    else if priority == 4
    then text "warning"
    else if priority == 5
    then text "notice"
    else if priority == 6
    then text "info"
    else if priority == 7
    then text "debug"
    else text "unknown"

unfoldable pub exit_code : ErrorCode → ℕ
exit_code ErrorCode.invalid_argument = 2
exit_code ErrorCode.not_found = 3
exit_code ErrorCode.permission_denied = 4
exit_code ErrorCode.unsupported = 6
exit_code ErrorCode.unavailable = 6
exit_code ErrorCode.conflict = 7
exit_code ErrorCode.timeout = 8
exit_code ErrorCode.interrupted = 130
exit_code code = 5
