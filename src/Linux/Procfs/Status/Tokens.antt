-- ===== src/Linux/Procfs/Status/Tokens.antt =====
-- Which line of a status shows a field, and what the fields of a record are then, StatusParser.cpp.
use lx.Base.{
  some, none, nat_Eq, list_Eq, int_Eq, option_Eq, [], List, Bytes, Option, ◌∷◌, before, ℕ,
  if◌then◌else◌, ◌≡◌, text, ◌==◌, ◌⊎◌, from, ◌*◌, ◌≤◌,
}
use lx.Linux.Procfs.Status.{StatusRecord, is_colon, first_token}
use lx.Base.Decimal.{parse_unsigned, max_u64, max_u32}

-- what a line says of a field: the first word behind the colon, if the name before it is the field's
abbrev pub chosen : Bytes → Bytes → Bytes → Option Bytes
chosen key token field = if key == field then some token else none

abbrev pub value_token : Bytes → Bytes → Bytes → Option Bytes
value_token key [] field = none
value_token key (colon ∷ value) field = chosen key (first_token value) field

abbrev pub line_token : Bytes → Bytes → Option Bytes
line_token line field = value_token (before is_colon line) (from is_colon line) field

abbrev pub later : Option Bytes → Option Bytes → Option Bytes
later none o = o
later (some token) o = some token

abbrev pub last_token : List Bytes → Bytes → Option Bytes
last_token [] field = none
last_token (line ∷ lines) field = later (last_token lines field) (line_token line field)

abbrev pub IsNumber : Bytes → ℕ → Type 0
IsNumber token n = parse_unsigned max_u32 token ≡ some n

-- a number of kibibytes, whose bytes fit into 64 bits
abbrev pub IsSize : Bytes → ℕ → Type 0
IsSize token n =
    (kib : ℕ) × (parse_unsigned max_u64 token ≡ some kib)
    × (n ≡ kib * 1024)
    × (kib * 1024 ≤ max_u64)

-- Each of the three required fields is the number in the last line that shows it; the resident set is
-- the size in the last line that shows it, and 0 where none does.
pub record IsStatusOf (lines : List Bytes) (r : StatusRecord) : Type 0 where
  pub uid : (token : Bytes) × (last_token lines (text "Uid") ≡ some token) × IsNumber token r.uid
  pub gid : (token : Bytes) × (last_token lines (text "Gid") ≡ some token) × IsNumber token r.gid
  pub threads :
      (token : Bytes) × (last_token lines (text "Threads") ≡ some token) × IsNumber token r.threads
  pub rss :
      ((last_token lines (text "VmRSS") ≡ none) × (r.rss_bytes ≡ 0))
      ⊎ ((token : Bytes) × (last_token lines (text "VmRSS") ≡ some token)
          × IsSize token r.rss_bytes)
