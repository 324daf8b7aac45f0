-- ===== src/Linux/Procfs/Users/Tests.antt =====
-- The lookup of user names at a small system.
use lx.Base.{true, is_some, ℤ, text, if◌then◌else◌, ◌≡◌, ltb}
use lx.Linux.Errno.{System, erange}
use lx.Linux.Procfs.Users.{Passwd, name_for_uid, found, status}
use lx.Linux.Procfs.Users.Rounds.{name_for_uid-returns}

abbrev system : System
system = record { number = λ e. ℤ.pos 34; message = λ e. text "" }

-- the entry wants a buffer of 5000 bytes
abbrev passwd : Passwd (Unit {0})
passwd = record {
  suggested = ℤ.negsuc 0;
  getpwuid_r = λ uid size w. (if ltb size 5000 then status erange else found (text "www"), w);
}

name_for_uid-returns_example : is_some (name_for_uid system passwd 22 33 tt) ≡ true
name_for_uid-returns_example = name_for_uid-returns system passwd 33 tt
