-- ===== src/Application/ResourceResolver/Explicit.antt =====
-- Expressions with a prefix, ResourceResolver.cpp: "port:" and "pid:".
use lx.Application.ResourceResolver.{
  ResourceResolver, positive_integer, resolve, separator, resolve_prefix, port_or_error,
  pid_or_error,
}
use lx.Base.{
  false, nat_Eq, list_Eq, int_Eq, option_Eq, ℕ, Bytes, ◌≤◌, text, ◌++◌, ◌≡◌, before, from, ◌==◌,
  ◌||◌, ℤ, ltb, arith,
}
use lx.Exec.{Machine, lift}
use lx.Base.Decimal.{max_pid, max_u64, to_string, parse_unsigned-to_string}
use lx.Domain.{success, process_target, port_target}

positive_integer-to_string :
    (n maximum : ℕ) (kind : Bytes)
    → 1 ≤ n
    → n ≤ maximum
    → maximum ≤ max_u64
    → positive_integer (to_string n) maximum kind ≡ success n
unfolding positive_integer
positive_integer-to_string n maximum kind p q r =
    let fine : (n == 0 || ltb maximum n) ≡ false = ground arith in
    rw (parse_unsigned-to_string max_u64 n (omega arith), fine)

module _ {W : Type 0} (self : ResourceResolver W) (n : ℕ) (m : Machine W) where
  resolve-port :
      1 ≤ n
      → n ≤ 65535
      → resolve self (text "port:" ++ to_string n) m ≡ (success (port_target n), m)
  unfolding resolve text separator before from resolve_prefix lift port_or_error
  resolve-port p q = rw (positive_integer-to_string n 65535 (text "port") p q (omega arith))

  resolve-pid :
      1 ≤ n
      → n ≤ max_pid
      → resolve self (text "pid:" ++ to_string n) m ≡ (success (process_target (ℤ.pos n)), m)
  unfolding resolve text separator before from resolve_prefix lift pid_or_error
  resolve-pid p q = rw (positive_integer-to_string n max_pid (text "PID") p q (omega arith))

-- "port:" and a number from 1 to 65535 name that port, and "pid:" and a number from 1 to the greatest
-- pid_t that process; the system is not asked.
pub resolve-explicit :
    {W : Type 0} (self : ResourceResolver W) (n : ℕ) (m : Machine W)
    → 1 ≤ n
    → n ≤ max_pid
    → (resolve self (text "pid:" ++ to_string n) m ≡ (success (process_target (ℤ.pos n)), m))
      × (n ≤ 65535 → resolve self (text "port:" ++ to_string n) m ≡ (success (port_target n), m))
resolve-explicit self n m p q = (resolve-pid self n m p q, λ r. resolve-port self n m p r)
