-- ===== src/Linux/Procfs/SocketFdTarget.antt =====
-- SocketFdTarget.cpp: the inode in the target of a descriptor's link.
use lx.Base.{
  some, none, false, nat_Eq, list_Eq, int_Eq, option_Eq, [], refl, true, text, Bytes, ℕ, Bool, ◌≤◌,
  ◌++◌, take, length, ◌∷◌, Option, ◌≡◌, if◌then◌else◌, ◌-◌, ◌==◌, length-append, append_assoc,
  nat_eq_iff, not, drop, starts_with, starts_with-append, arith, leb, drop-append, ◌+◌, take-append,
  ◌||◌, length-pos,
}
use lx.Domain.{Result, failure, make_error, success, parse_error}
use lx.Base.Decimal.{max_u64, to_string, parse_unsigned, parse_unsigned-to_string, to_string-ne-nil}

unfoldable pub socket_prefix : Bytes
unfolding text
socket_prefix = text "socket:["

unfoldable pub target_error : Bytes → Result (Option ℕ)
target_error message =
    failure (make_error parse_error message (text "socket-fd-target") (text "parse"))

-- `target.substr(prefix.size(), target.size() - prefix.size() - 1)`
unfoldable pub inode_digits : Bytes → Bytes
inode_digits target =
    take (length target - length socket_prefix - 1) (drop (length socket_prefix) target)

unfoldable pub last_is : ℕ → Bytes → Bool
last_is c [] = false
last_is c (d ∷ []) = d == c
last_is c (d ∷ e ∷ s) = last_is c (e ∷ s)

unfoldable pub parse_inode : Bytes → Result (Option ℕ)
parse_inode digits = elim (parse_unsigned max_u64 digits) [
  | none ↦ target_error (text "Invalid socket inode")
  | some inode ↦ success (some inode)
]

unfoldable pub parse_socket_fd_target : Bytes → Result (Option ℕ)
parse_socket_fd_target target =
    if not (starts_with socket_prefix target)
    then success none
    else if leb (length target) (length socket_prefix + 1) || not (last_is b']' target)
    then target_error (text "Malformed socket file descriptor target")
    else parse_inode (inode_digits target)

last_is-append : (c : ℕ) (s : Bytes) → last_is c (s ++ c ∷ []) ≡ true
unfolding last_is
last_is-append c [] = (nat_eq_iff c c).1 refl
last_is-append c (d ∷ []) = (nat_eq_iff c c).1 refl
last_is-append c (d ∷ e ∷ s) = last_is-append c (e ∷ s)

inode_digits-lem : (digits : Bytes) → inode_digits (socket_prefix ++ (digits ++ b']' ∷ [])) ≡ digits
unfolding inode_digits
inode_digits-lem digits =
    let n = length-append socket_prefix (digits ++ b']' ∷ []) in
    let k = length-append digits (b']' ∷ []) in
    let e : length (socket_prefix ++ (digits ++ b']' ∷ [])) - length socket_prefix - 1
        ≡ length digits =
      omega (arith, n, k) in
    rw (e, drop-append) (take-append digits (b']' ∷ []))

last_is-target : (digits : Bytes) → last_is b']' (socket_prefix ++ (digits ++ b']' ∷ [])) ≡ true
last_is-target digits =
    rw (← append_assoc socket_prefix digits (b']' ∷ []))
      (last_is-append b']' (socket_prefix ++ digits))

parse_inode-to_string :
    (inode : ℕ) → inode ≤ max_u64 → parse_inode (to_string inode) ≡ success (some inode)
unfolding parse_inode
parse_inode-to_string inode h = rw (parse_unsigned-to_string max_u64 inode h, parse_inode)

-- The link of a socket descriptor gives its inode, whatever 64-bit number it is.
pub parse_socket_fd_target-inode :
    (inode : ℕ)
    → inode ≤ max_u64
    → parse_socket_fd_target (socket_prefix ++ (to_string inode ++ b']' ∷ []))
      ≡ success (some inode)
unfolding parse_socket_fd_target
parse_socket_fd_target-inode inode h =
    let digits = to_string inode in
    let n = length-append socket_prefix (digits ++ b']' ∷ []) in
    let k = length-append digits (b']' ∷ []) in
    let pos_len = length-pos digits (to_string-ne-nil inode) in
    let long : leb (length (socket_prefix ++ (digits ++ b']' ∷ []))) (length socket_prefix + 1)
        ≡ false =
      ground (arith, n, k, pos_len) in
    rw (starts_with-append, last_is-target, long, inode_digits-lem) (parse_inode-to_string inode h)
