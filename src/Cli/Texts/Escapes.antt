-- ===== src/Cli/Texts/Escapes.antt =====
-- `safeLogText`: a message of the journal on one line of a terminal.
use lx.Base.{
  ◌≤◌, ◌≢◌, [], ℕ, text, Bytes, length, All, ◌+◌, ◌∷◌, arith, length-append, Bool-cases, leb, inl,
  inr, All-append, nat_Eq, list_Eq, int_Eq, option_Eq, ◌==◌, ◌<◌, ◌⊎◌, ◌++◌, ◌≡◌, ltb, ◌||◌, ◌/◌,
  ◌%◌,
}
use lx.Cli.Texts.{safe_from, safe_character, safe_log_text, hex_digit}

-- none of the bytes 0 to 31, newline and ESC among them, and not DEL; any byte above is allowed
abbrev pub IsNotAsciiControl : ℕ → Type 0
IsNotAsciiControl c = (32 ≤ c) × (c ≢ 127)

-- how one byte is written
pub data IsEscape : ℕ → Bytes → Type 0 where
  line_feed : IsEscape 10 (text "\\n")
  carriage_return : IsEscape 13 (text "\\r")
  tabulator : IsEscape 9 (text "\\t")
  in_hex :
      (c : ℕ)
      → (c < 32) ⊎ (c ≡ 127)
      → (c ≢ 9) × (c ≢ 10) × (c ≢ 13)
      → IsEscape c (text "\\x" ++ hex_digit (c / 16) ∷ hex_digit (c % 16) ∷ [])
  as_it_is : (c : ℕ) → IsNotAsciiControl c → IsEscape c (c ∷ [])

-- Behind `size` bytes a message is written byte for byte, until there are `limit` of them.
pub data IsShown (limit : ℕ) : ℕ → Bytes → Bytes → Type 0 where
  whole : (size : ℕ) → IsShown limit size [] []
  cut : (size c : ℕ) (rest : Bytes) → limit ≤ size → IsShown limit size (c ∷ rest) (text "...")
  next :
      (size c : ℕ) (rest escape more : Bytes)
      → size < limit
      → IsEscape c escape
      → IsShown limit (size + length escape) rest more
      → IsShown limit size (c ∷ rest) (escape ++ more)

safe_character-IsEscape : (c : ℕ) → IsEscape c (safe_character c)
unfolding safe_character
safe_character-IsEscape c = elim (Bool-cases (c == 10)) [
  | inl t ↦ rw t (let is : c ≡ 10 = ground arith in rw is line_feed)
  | inr n ↦ elim (Bool-cases (c == 13)) [
    | inl t ↦ rw (n, t) (let is : c ≡ 13 = ground arith in rw is carriage_return)
    | inr r ↦ elim (Bool-cases (c == 9)) [
      | inl t ↦ rw (n, r, t) (let is : c ≡ 9 = ground arith in rw is tabulator)
      | inr h ↦ elim (Bool-cases (ltb c 32 || c == 127)) [
        | inl t ↦ rw (n, r, h, t) (in_hex c (ground arith) (ground arith))
        | inr f ↦ rw (n, r, h, f) (as_it_is c (ground arith))
      ]
    ]
  ]
]

safe_from-IsShown :
    (limit size : ℕ) (value : Bytes) → IsShown limit size value (safe_from limit size value)
unfolding safe_from
safe_from-IsShown limit size [] = whole size
safe_from-IsShown limit size (c ∷ rest) = elim (Bool-cases (leb limit size)) [
  | inl t ↦ rw t (cut size c rest (ground arith))
  | inr f ↦ rw f (
      next size c rest (safe_character c) _ (ground arith) (safe_character-IsEscape c)
        (safe_from-IsShown limit (size + length (safe_character c)) rest))
]

safe_character-IsNotAsciiControl : (c : ℕ) → All IsNotAsciiControl (safe_character c)
unfolding safe_character text
safe_character-IsNotAsciiControl c = ground arith

safe_character-length : (c : ℕ) → length (safe_character c) ≤ 4
unfolding safe_character text
safe_character-length c = ground arith

safe_from-IsNotAsciiControl :
    (limit size : ℕ) (value : Bytes) → All IsNotAsciiControl (safe_from limit size value)
unfolding safe_from text
safe_from-IsNotAsciiControl limit size [] = tt
safe_from-IsNotAsciiControl limit size (c ∷ rest) = elim (Bool-cases (leb limit size)) [
  | inl t ↦ rw t (ground arith)
  | inr f ↦ rw f (
      All-append _ (safe_character c) _ (safe_character-IsNotAsciiControl c)
        (safe_from-IsNotAsciiControl limit (size + length (safe_character c)) rest))
]

safe_from-length :
    (limit size : ℕ) (value : Bytes)
    → size ≤ limit + 3
    → size + length (safe_from limit size value) ≤ limit + 6
unfolding safe_from text
safe_from-length limit size [] h = omega arith
safe_from-length limit size (c ∷ rest) h =
    let small = safe_character-length c in
    let sum =
      length-append (safe_character c) (safe_from limit (size + length (safe_character c)) rest) in
    elim (Bool-cases (leb limit size)) [
      | inl t ↦ rw t (ground arith)
      | inr f ↦
          let more =
            safe_from-length limit (size + length (safe_character c)) rest (ground arith) in
          rw f (omega arith)
    ]

-- Whatever the message, `safeLogText` writes it byte for byte: \n, \r and \t for a newline, a carriage
-- return and a tab, \x and two digits for any other byte below 32 and for 127, and each other byte as it
-- is, those from 128 on too; where 4096 bytes are written and more are to come, it writes "..." and
-- stops. So no byte below 32 and no 127 is written, no line is added and no escape sequence that begins
-- with ESC, and there are at most six bytes more than the limit of 4096.
pub safe_log_text-IsNotAsciiControl :
    (value : Bytes)
    → IsShown 4096 0 value (safe_log_text value)
      × All IsNotAsciiControl (safe_log_text value)
      × (length (safe_log_text value) ≤ 4102)
unfolding safe_log_text
safe_log_text-IsNotAsciiControl value =
    let bound = safe_from-length 4096 0 value (omega arith) in
    (safe_from-IsShown 4096 0 value, safe_from-IsNotAsciiControl 4096 0 value, omega arith)
