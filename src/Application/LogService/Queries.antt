-- ===== src/Application/LogService/Queries.antt =====
-- Log queries, LogService.cpp.
use lx.Application.LogService.{normalize, invalid_log, normalized_unit, valid_pid, name_unit}
use lx.Base.{refl, some, none, true, Bytes, Option, ◌≡◌, is_some, ◌||◌, arith, ◌≤◌, sym, ap, ◌∙◌}
use lx.Domain.{LogQuery, Result, success, failure}
use lx.Application.ServiceService.Names.{IsUnitName, normalize_unit-IsUnitName}
use lx.Application.ServiceService.{normalize_unit}

-- What the journal is asked for.
pub record IsLogQuery (query : LogQuery) : Type 0 where
  pub anchored : (is_some query.unit || is_some query.pid) ≡ true
  pub pid_valid : valid_pid query.pid ≡ true
  pub limit_pos : 1 ≤ query.limit
  pub limit_le : query.limit ≤ 10000
  pub unit_valid : (name : Bytes) → query.unit ≡ some name → IsUnitName name

-- What naming the unit keeps, and what it makes of the unit.
record IsNamed (query result : LogQuery) : Type 0 where
  pub anchored : is_some result.unit ≡ is_some query.unit
  pub pid : result.pid ≡ query.pid
  pub limit : result.limit ≡ query.limit
  pub unit_valid : (name : Bytes) → result.unit ≡ some name → IsUnitName name

named_once : (a b : Bytes) → ◌≡◌ {A = Option Bytes} (some a) (some b) → a ≡ b
named_once a b h = cc

unnamed : (b : Bytes) → ◌≡◌ {A = Option Bytes} none (some b) → ⊥
unnamed b h = cc

name_unit-IsNamed :
    (query result : LogQuery) (unit : Bytes) (r : Result Bytes)
    → query.unit ≡ some unit
    → normalize_unit unit ≡ r
    → name_unit query r ≡ success result
    → IsNamed query result
unfolding name_unit
name_unit-IsNamed query result unit (failure e) u n h = absurd cc
name_unit-IsNamed query result unit (success name) u n h =
    let is : ◌≡◌ {A = LogQuery} (record query { unit = some name }) result = ground arith in
    let new : result.unit ≡ some name = sym (ap (λ (q : LogQuery). q.unit) is) in
    let good = (normalize_unit-IsUnitName unit name n).0 in
    record {
      anchored = rw (new, u) refl;
      pid = sym (ap (λ (q : LogQuery). q.pid) is);
      limit = sym (ap (λ (q : LogQuery). q.limit) is);
      unit_valid =
          λ other e. let q : name ≡ other = named_once name other (sym new ∙ e) in rw (sym q) good;
    }

normalized_unit-IsNamed :
    (query result : LogQuery) (u : Option Bytes)
    → query.unit ≡ u
    → normalized_unit query u ≡ success result
    → IsNamed query result
unfolding normalized_unit
normalized_unit-IsNamed query result none e h =
    let is : ◌≡◌ {A = LogQuery} query result = ground arith in
    let same : result.unit ≡ query.unit = sym (ap (λ (q : LogQuery). q.unit) is) in
    record {
      anchored = rw same refl;
      pid = sym (ap (λ (q : LogQuery). q.pid) is);
      limit = sym (ap (λ (q : LogQuery). q.limit) is);
      unit_valid = λ other k. absurd (unnamed other (sym e ∙ (sym same ∙ k)));
    }
normalized_unit-IsNamed query result (some unit) e h =
    name_unit-IsNamed query result unit (normalize_unit unit) e refl h

accepted :
    (query result : LogQuery)
    → normalize query ≡ success result
    → ((is_some query.unit || is_some query.pid) ≡ true)
      × (valid_pid query.pid ≡ true)
      × ((1 ≤ query.limit) × (query.limit ≤ 10000))
      × (normalized_unit query query.unit ≡ success result)
unfolding normalize invalid_log
accepted query result h = ground arith

-- A query that normalize accepts names a unit or a process, asks for 1 to 10000 lines, has no PID
-- below 1 and no unit but a complete unit name.
pub normalize-IsLogQuery :
    (query result : LogQuery) → normalize query ≡ success result → IsLogQuery result
normalize-IsLogQuery query result h =
    let (some_given, pid_good, limit_good, rest) = accepted query result h in
    let w = normalized_unit-IsNamed query result query.unit refl rest in
    record {
      anchored = rw (w.anchored, w.pid) some_given;
      pid_valid = rw w.pid pid_good;
      limit_pos = rw w.limit limit_good.0;
      limit_le = rw w.limit limit_good.1;
      unit_valid = w.unit_valid;
    }
