-- ===== src/Linux/Systemd/JournalFields.antt =====
-- JournalFieldParser.cpp: journal entries from the fields that sd-journal gives.
use lx.Base.{
  some, none, false, nat_Eq, list_Eq, int_Eq, option_Eq, [], Option, ℤ, Bytes, ℕ, ◌≡◌,
  if◌then◌else◌, List, ◌++◌, text, ◌*◌, ltb, leb, ◌%◌, ◌≤◌, ◌∷◌, ◌^◌, length, ◌&&◌, length-append,
  ◌||◌, ◌-◌, arith, not, append_assoc, starts_with, drop, starts_with-append, ◌+◌, refl, true, ap,
  Bool-cases, sym, inl, ◌∙◌, inr, drop-append,
}
use lx.Domain.{
  Observation, Result, Warning, failure, warning_from, success, make_error, parse_error,
  protocol_error, JournalEntry,
}
use lx.Base.Decimal.{parse_unsigned, max_u32, max_u64, max_pid}

pub record JournalFields : Type 0 where
  pub timestamp_usec : ℕ
  pub cursor : Bytes
  pub systemd_unit : Option Bytes
  pub pid : Option Bytes
  pub command : Option Bytes
  pub message : Option Bytes
  pub priority : Option Bytes

unfoldable pub field_error : Bytes → Result Bytes
field_error message =
    failure (make_error protocol_error message (text "sd-journal") (text "read field"))

-- The data of a field, or a null pointer.
unfoldable pub journal_field_value : Bytes → Option Bytes → Result Bytes
journal_field_value field none = field_error (text "Journal field has no data")
journal_field_value field (some bytes) =
    if leb (length bytes) (length field) || not (starts_with (field ++ b'=' ∷ []) bytes)
    then field_error (text "Journal field does not match the requested name")
    else success (drop (length field + 1) bytes)

unfoldable pub parse_warning : Bytes → Bytes → Warning
parse_warning message operation =
    warning_from (make_error parse_error message (text "sd-journal") operation)

-- the signed number that 64 bits stand for, in two's complement
unfoldable pub signed64 : ℕ → ℤ
signed64 n = if ltb n (2 ^ 63) then ℤ.pos n else ℤ.negsuc (2 ^ 64 - 1 - n)

-- microseconds as nanoseconds
unfoldable pub time_point : ℕ → ℤ
unfolding signed64
time_point usec = signed64 (usec * 1000 % 2 ^ 64)

unfoldable pub or_empty : Option Bytes → Bytes
or_empty none = []
or_empty (some message) = message

abbrev pub Parsed : Type 0 → Type 0
Parsed A = Option A × List Warning

unfoldable pub pid_of : Option ℕ → Parsed ℤ
pid_of none =
    (none, parse_warning (text "Journal entry contains an invalid _PID") (text "parse PID") ∷ [])
pid_of (some value) = if ltb 0 value && leb value max_pid then (some (ℤ.pos value), []) else (
  none,
  parse_warning (text "Journal entry contains an invalid _PID") (text "parse PID") ∷ [],
)

unfoldable pub parse_pid_field : Option Bytes → Parsed ℤ
parse_pid_field none = (none, [])
parse_pid_field (some field) = pid_of (parse_unsigned max_u64 field)

unfoldable pub priority_of : Option ℕ → Parsed ℕ
priority_of none = (
  none,
  parse_warning (text "Journal entry contains an invalid PRIORITY") (text "parse priority") ∷ [],
)
priority_of (some value) = if leb value 7 then (some value, []) else (
  none,
  parse_warning (text "Journal entry contains an invalid PRIORITY") (text "parse priority") ∷ [],
)

-- `unsigned int` has 32 bits.
unfoldable pub parse_priority_field : Option Bytes → Parsed ℕ
parse_priority_field none = (none, [])
parse_priority_field (some field) = priority_of (parse_unsigned max_u32 field)

unfoldable pub journal_entry_from_fields : JournalFields → Observation JournalEntry
journal_entry_from_fields fields =
    let (pid, pid_warnings) = parse_pid_field fields.pid in
    let (priority, priority_warnings) = parse_priority_field fields.priority in
    record {
      value = record {
        timestamp = time_point fields.timestamp_usec;
        cursor = fields.cursor;
        systemd_unit = fields.systemd_unit;
        pid = pid;
        command = fields.command;
        message = or_empty fields.message;
        priority = priority;
      };
      warnings = pid_warnings ++ priority_warnings;
    }

-- A field whose data are its name, "=" and a value has that value, whatever bytes it holds.
pub journal_field_value-append :
    (field value : Bytes) → journal_field_value field (some (field ++ b'=' ∷ value)) ≡ success value
unfolding journal_field_value
journal_field_value-append field value =
    let n = length-append field (b'=' ∷ value) in
    let long : leb (length (field ++ b'=' ∷ value)) (length field) ≡ false = ground (arith, n) in
    let cut = append_assoc field (b'=' ∷ []) value in
    let key = field ++ b'=' ∷ [] in
    let m : length key ≡ length field + 1 = length-append field (b'=' ∷ []) in
    let head : starts_with key (field ++ b'=' ∷ value) ≡ true =
      ap (λ l. starts_with key l) (sym cut) ∙ starts_with-append key value in
    let rest : drop (length field + 1) (field ++ b'=' ∷ value) ≡ value =
      ap (λ (k : ℕ). drop k (field ++ b'=' ∷ value)) (sym m)
      ∙ (ap (λ l. drop (length key) l) (sym cut) ∙ drop-append key value) in
    rw (long, head, rest)

pid_of-lem :
    (o : Option ℕ) (p : ℤ)
    → (pid_of o).0 ≡ some p
    → (n : ℕ) × (o ≡ some n) × (p ≡ ℤ.pos n) × (1 ≤ n) × (n ≤ max_pid)
unfolding pid_of
pid_of-lem none p h = absurd cc
pid_of-lem (some n) p h = elim (Bool-cases (ltb 0 n && leb n max_pid)) [
  | inl good ↦ (n, refl, ground arith, ground arith, ground arith)
  | inr bad ↦ absurd (ground arith)
]

priority_of-le : (o : Option ℕ) (p : ℕ) → (priority_of o).0 ≡ some p → p ≤ 7
unfolding priority_of
priority_of-le none p h = absurd cc
priority_of-le (some n) p h = ground arith

-- What an entry may hold.
pub record IsEntry (fields : JournalFields) (entry : JournalEntry) : Type 0 where
  pub pid_read :
      (p : ℤ)
      → entry.pid ≡ some p
      → (text_of : Bytes) × (n : ℕ) × (fields.pid ≡ some text_of)
        × (parse_unsigned max_u64 text_of ≡ some n)
        × (p ≡ ℤ.pos n)
        × (1 ≤ n)
        × (n ≤ max_pid)
  pub priority_le : (p : ℕ) → entry.priority ≡ some p → p ≤ 7

parse_pid_field-lem :
    (field : Option Bytes) (p : ℤ)
    → (parse_pid_field field).0 ≡ some p
    → (text_of : Bytes) × (n : ℕ) × (field ≡ some text_of)
      × (parse_unsigned max_u64 text_of ≡ some n)
      × (p ≡ ℤ.pos n)
      × (1 ≤ n)
      × (n ≤ max_pid)
unfolding parse_pid_field
parse_pid_field-lem none p h = absurd cc
parse_pid_field-lem (some field) p h =
    let (n, o, q, lo, hi) = pid_of-lem (parse_unsigned max_u64 field) p h in
    (field, n, refl, o, q, lo, hi)

parse_priority_field-le :
    (field : Option Bytes) (p : ℕ) → (parse_priority_field field).0 ≡ some p → p ≤ 7
unfolding parse_priority_field
parse_priority_field-le none p h = absurd cc
parse_priority_field-le (some field) p h = priority_of-le (parse_unsigned max_u32 field) p h

-- Whatever the fields hold, the PID of an entry is the number that the PID field spells, from 1 to the
-- greatest pid_t, and its priority is at most 7.
pub journal_entry_from_fields-IsEntry :
    (fields : JournalFields) → IsEntry fields (journal_entry_from_fields fields).value
unfolding journal_entry_from_fields
journal_entry_from_fields-IsEntry fields = record {
  pid_read = λ p h. parse_pid_field-lem fields.pid p h;
  priority_le = λ p h. parse_priority_field-le fields.priority p h;
}
