-- ===== src/Linux/Procfs/Stat/RoundTrip.antt =====
-- Whatever its name holds, a process is read back from its stat line.
use lx.Base.{
  refl, some, none, true, false, nat_Eq, list_Eq, int_Eq, option_Eq, [], ℕ, Bytes, ◌≡◌, ◌≢◌, before,
  ◌++◌, All, ◌≤◌, ◌∷◌, ◌==◌, pos, arith, ap, All-map, ◌∙◌, any_of-append, before-append, append-nil,
  All-append, any_of, append_assoc, length-append, is_nil, is_nil-append, leb, length,
  drop-append_cons,
}
use lx.Linux.Procfs.Stat.{
  parse_pid, strip_spaces, ppid_text, closing, split_close, is_open, not_negative, parse_stat,
  extend, parse_split, stat_record, state_at,
}
use lx.Base.Decimal.{to_string, is_digit, max_pid, signed-to_string, to_string-IsDigits}
use lx.Domain.{success}

-- no closing parenthesis
abbrev pub IsPlain : Bytes → Type 0
IsPlain = All (λ c. c ≢ b')')

-- what the kernel shows: the PID, the name in parentheses, the state, the parent's PID, and more fields
abbrev pub stat_line : ℕ → Bytes → ℕ → ℕ → Bytes → Bytes
stat_line pid name state ppid fields =
    ((to_string pid ++ b' ' ∷ []) ++ b'(' ∷ name)
    ++ b')' ∷ b' ' ∷ state ∷ b' ' ∷ (to_string ppid ++ b' ' ∷ fields)

closing-IsPlain : (c : ℕ) (s : Bytes) → c ≢ b')' → closing (c ∷ s) ≡ false
unfolding closing
closing-IsPlain c s h = ground arith

split_close-IsPlain : (s : Bytes) → IsPlain s → split_close s ≡ none
unfolding split_close
split_close-IsPlain [] _ = refl
split_close-IsPlain (c ∷ s) (hc, hs) =
    ap (extend c s) (split_close-IsPlain s hs) ∙ rw (closing-IsPlain c s hc)

split_close-append :
    (p rest : Bytes)
    → IsPlain rest
    → split_close (p ++ b')' ∷ b' ' ∷ rest) ≡ some (p, b')' ∷ b' ' ∷ rest)
unfolding split_close
split_close-append [] rest h =
    ap (extend b')' (b' ' ∷ rest)) (split_close-IsPlain (b' ' ∷ rest) (ground arith, h))
split_close-append (c ∷ p) rest h =
    ap (extend c (p ++ b')' ∷ b' ' ∷ rest)) (split_close-append p rest h)

strip_spaces-append : (s : Bytes) → All (λ c. c ≢ b' ') s → strip_spaces (s ++ b' ' ∷ []) ≡ s
unfolding strip_spaces
strip_spaces-append [] _ = refl
strip_spaces-append (c ∷ s) (hc, hs) =
    let other : (c == b' ') ≡ false = ground arith in
    rw (strip_spaces-append s hs) (ground (arith, other))

digit-ne :
    (c : ℕ)
    → is_digit c ≡ true
    → (c ≢ b' ') × (c ≢ b')') × (is_open c ≡ false) × ((c == b' ') ≡ false)
unfolding is_open
digit-ne c h = (ground arith, ground arith, ground arith, ground arith)

parse_pid-to_string : (n : ℕ) → n ≤ max_pid → parse_pid (to_string n) ≡ some (pos n)
unfolding parse_pid not_negative
parse_pid-to_string n h = ap not_negative (signed-to_string max_pid n h)

ppid_text-append : (n : ℕ) (fields : Bytes) → ppid_text (to_string n ++ b' ' ∷ fields) ≡ to_string n
unfolding ppid_text before
ppid_text-append n fields =
    let d = All-map (to_string n) (λ c h. (digit-ne c h).3) (to_string-IsDigits n) in
    rw (any_of-append (λ c. c == b' ') (to_string n) (b' ' ∷ fields) refl) (
      (before-append (λ c. c == b' ') (to_string n) (b' ' ∷ fields) d).0 ∙ append-nil (to_string n))

-- the fields behind the name
abbrev behind : ℕ → ℕ → Bytes → Bytes
behind state ppid fields = state ∷ b' ' ∷ (to_string ppid ++ b' ' ∷ fields)

behind-IsPlain :
    (state ppid : ℕ) (fields : Bytes)
    → state ≢ b')'
    → IsPlain fields
    → IsPlain (behind state ppid fields)
behind-IsPlain state ppid fields st plain = (
  st,
  (
    ground arith,
    All-append _ (to_string ppid) (b' ' ∷ fields)
        (All-map (to_string ppid) (λ c h. (digit-ne c h).1) (to_string-IsDigits ppid))
        (ground arith, plain),
  ),
)

abbrev head_of : ℕ → Bytes
head_of pid = to_string pid ++ b' ' ∷ []

-- the first opening parenthesis is the name's
open_at :
    (pid : ℕ) (rest : Bytes)
    → (any_of is_open (head_of pid ++ b'(' ∷ rest) ≡ true)
      × (before is_open (head_of pid ++ b'(' ∷ rest) ≡ head_of pid)
unfolding is_open before
open_at pid rest =
    let d =
      All-append (λ c. is_open c ≡ false) (to_string pid) (b' ' ∷ [])
        (All-map (to_string pid) (λ c h. (digit-ne c h).2) (to_string-IsDigits pid)) (refl, tt) in
    (
      any_of-append is_open (head_of pid) (b'(' ∷ rest) refl,
      (before-append is_open (head_of pid) (b'(' ∷ rest) d).0 ∙ append-nil (head_of pid),
    )

parse_split-stat_line :
    (pid : ℕ) (name : Bytes) (state ppid : ℕ) (fields : Bytes)
    → pid ≤ max_pid
    → ppid ≤ max_pid
    → parse_split
        (head_of pid)
        (some (head_of pid ++ b'(' ∷ name, b')' ∷ b' ' ∷ behind state ppid fields))
      ≡ success (record { pid = pos pid; name = name; state = state; ppid = pos ppid })
unfolding parse_split stat_record state_at
parse_split-stat_line pid name state ppid fields p q =
    let digits = All-map (to_string pid) (λ c h. (digit-ne c h).0) (to_string-IsDigits pid) in
    let n = length-append (to_string pid) (b' ' ∷ []) in
    let k = length-append (head_of pid) (b'(' ∷ name) in
    let some_head : is_nil (head_of pid) ≡ false = is_nil-append (to_string pid) b' ' [] in
    let room : leb (length (head_of pid ++ b'(' ∷ name)) (length (head_of pid)) ≡ false =
      ground (arith, k) in
    rw
      (
        some_head,
        room,
        drop-append_cons (head_of pid) b'(' name,
        strip_spaces-append (to_string pid) digits,
        parse_pid-to_string pid p,
        ppid_text-append ppid fields,
        parse_pid-to_string ppid q,
      )
      (ground arith)

-- The stat line of a process gives its PID, its name, its state and its parent, whatever bytes the
-- name holds, parentheses and spaces included, as long as no closing parenthesis follows the name's
-- own.
pub parse_stat-stat_line :
    (pid : ℕ) (name : Bytes) (state ppid : ℕ) (fields : Bytes)
    → pid ≤ max_pid
    → ppid ≤ max_pid
    → state ≢ b')'
    → IsPlain fields
    → parse_stat (stat_line pid name state ppid fields)
      ≡ success (record { pid = pos pid; name = name; state = state; ppid = pos ppid })
unfolding parse_stat
parse_stat-stat_line pid name state ppid fields p q st plain =
    let tail = b')' ∷ b' ' ∷ behind state ppid fields in
    let (opens, head) = open_at pid (name ++ tail) in
    let line = append_assoc (head_of pid) (b'(' ∷ name) tail in
    let split =
      split_close-append (head_of pid ++ b'(' ∷ name) (behind state ppid fields)
        (behind-IsPlain state ppid fields st plain) in
    rw (split, line, opens, head) (parse_split-stat_line pid name state ppid fields p q)
