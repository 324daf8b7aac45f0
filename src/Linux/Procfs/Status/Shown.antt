-- ===== src/Linux/Procfs/Status/Shown.antt =====
-- The fields of an accepted status, StatusParser.cpp.
use lx.Base.{
  refl, none, true, nat_Eq, list_Eq, int_Eq, option_Eq, [], List, Bytes, ◌∷◌, before, ◌≡◌, from,
  arith, pieces, sym,
}
use lx.Linux.Procfs.Status.{
  status_failure, StatusRecord, Progress, is_colon, first_token, complete, parse_status, read_lines,
  read_value, read_line, newline, nothing_seen,
}
use lx.Domain.{success, Result, failure}
use lx.Linux.Procfs.Status.Tokens.{last_token, IsStatusOf, value_token}
use lx.Linux.Procfs.Status.Keys.{
  kept, Steps, Shows-required, Shows-later, Shows-optional, read_key-Steps,
}

silent-Steps : (seen : Progress) → Steps (λ field. none) seen seen
silent-Steps seen = record {
  uid = kept refl refl;
  gid = kept refl refl;
  threads = kept refl refl;
  rss = kept refl refl;
}

read_value-Steps :
    (key rest : Bytes) (seen next : Progress)
    → read_value key rest seen ≡ success next
    → Steps (value_token key rest) seen next
unfolding read_value
read_value-Steps key [] seen next h =
    let is : seen ≡ next = ground arith in rw (sym is) (silent-Steps seen)
read_value-Steps key (c ∷ value) seen next h = read_key-Steps key (first_token value) seen next h

lines-Steps :
    (line : Bytes) (lines : List Bytes) (seen next : Progress) (r : Result Progress)
    → read_line line seen ≡ r
    → read_lines lines r ≡ success next
    → ((mid : Progress)
        → read_lines lines (success mid) ≡ success next
        → Steps (last_token lines) mid next)
    → Steps (last_token (line ∷ lines)) seen next
unfolding read_lines read_line
lines-Steps line lines seen next (failure e) k g more = absurd cc
lines-Steps line lines seen next (success mid) k g more =
    let first = read_value-Steps (before is_colon line) (from is_colon line) seen mid k in
    let rest = more mid g in
    record {
      uid = Shows-later first.uid rest.uid;
      gid = Shows-later first.gid rest.gid;
      threads = Shows-later first.threads rest.threads;
      rss = Shows-later first.rss rest.rss;
    }

read_lines-Steps :
    (lines : List Bytes) (seen next : Progress)
    → read_lines lines (success seen) ≡ success next
    → Steps (last_token lines) seen next
unfolding read_lines
read_lines-Steps [] seen next h =
    let is : seen ≡ next = ground arith in rw (sym is) (silent-Steps seen)
read_lines-Steps (line ∷ lines) seen next h =
    lines-Steps line lines seen next (read_line line seen) refl h
      (λ mid g. read_lines-Steps lines mid next g)

-- The record of a complete status has been seen whole.
record IsComplete (r : Result Progress) (status : StatusRecord) : Type 0 where
  pub seen : Progress
  pub is_seen : r ≡ success seen
  pub uid : seen.has_uid ≡ true
  pub gid : seen.has_gid ≡ true
  pub threads : seen.has_threads ≡ true
  pub same : seen.status ≡ status

complete-IsComplete :
    (r : Result Progress) (status : StatusRecord)
    → complete r ≡ success status
    → IsComplete r status
unfolding complete status_failure
complete-IsComplete (failure e) status h = absurd cc
complete-IsComplete (success seen) status h = record {
  seen = seen;
  is_seen = refl;
  uid = ground arith;
  gid = ground arith;
  threads = ground arith;
  same = ground arith;
}

-- Whatever the kernel shows, in a status that `parseStatus` accepts the user, the group and the number
-- of threads are the numbers, within 32 bits, in the last lines named Uid, Gid and Threads, and the
-- resident set is 1024 times the number in the last line named VmRSS, which does not exceed 64 bits,
-- or 0 where no line has that name.
pub parse_status-IsStatusOf :
    (contents : Bytes) (status : StatusRecord)
    → parse_status contents ≡ success status
    → IsStatusOf (pieces newline contents) status
unfolding parse_status
parse_status-IsStatusOf contents status h =
    let lines = pieces newline contents in
    let w = complete-IsComplete (read_lines lines (success nothing_seen)) status h in
    let all = read_lines-Steps lines nothing_seen w.seen w.is_seen in
    rw (sym w.same) (record {
      uid = Shows-required _ _ _ all.uid w.uid;
      gid = Shows-required _ _ _ all.gid w.gid;
      threads = Shows-required _ _ _ all.threads w.threads;
      rss = Shows-optional _ _ all.rss;
    })
