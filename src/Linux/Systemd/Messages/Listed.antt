-- ===== src/Linux/Systemd/Messages/Listed.antt =====
-- Which services come out of the reply of ListUnits.
use lx.Base.{
  some, none, Bytes, List, [], zero, suc, true, false, refl, ◌≡◌, ◌≢◌, nat_Eq, list_Eq, int_Eq,
  option_Eq, ℕ, take, ◌∷◌, ◌<◌, text, ◌++◌, length-append, drop, length, ap, length-pos, arith, ◌-◌,
  cons-ne-nil, drop-append, list_eq_iff, sym, ◌∙◌, Bool-cases, inl, append_assoc, inr, append-nil,
}
use lx.Linux.Systemd.SdBus.{RawRecord, SdBus}
use lx.Domain.{ServiceInfo, success}
use lx.Linux.Systemd.Messages.{
  is_service, nonnull, service_from_unit_record, parse_list_units, read_units, entered_unit,
  push_service, end_units, read_unit,
}
use lx.Exec.{◌>>=◌, proceed, observe, pure, Machine}

-- The service has the texts of the record, and its name has a stem.
pub record IsUnitOf (raw : RawRecord) (service : ServiceInfo) : Type 0 where
  pub name : service.unit_name ≡ nonnull raw.name
  pub named : (stem : Bytes) × (stem ≢ []) × (service.unit_name ≡ stem ++ text ".service")
  pub description : service.description ≡ nonnull raw.description
  pub load : service.load_state ≡ nonnull raw.load_state
  pub active : service.active_state ≡ nonnull raw.active_state
  pub sub : service.sub_state ≡ nonnull raw.sub_state
  pub no_pid : service.main_pid ≡ none

-- The services of the records, in their order; the other records are those without such a name.
pub data Units : List RawRecord → List ServiceInfo → Type 0 where
  no_units : Units [] []
  service_unit :
      (raw : RawRecord) (service : ServiceInfo) (raws : List RawRecord)
      (services : List ServiceInfo)
      → IsUnitOf raw service
      → Units raws services
      → Units (raw ∷ raws) (service ∷ services)
  skipped_unit :
      (raw : RawRecord) (raws : List RawRecord) (services : List ServiceInfo)
      → ((stem : Bytes) → stem ≢ [] → nonnull raw.name ≢ stem ++ text ".service")
      → Units raws services
      → Units (raw ∷ raws) services

-- Where the reading of a reply stands.
pub data Cursor : Type 0 where
  before_array : List RawRecord → Cursor
  between : List RawRecord → Cursor
  inside : RawRecord → List RawRecord → Cursor
  behind : List RawRecord → Cursor

-- What sd-bus promises for a reply that is an array of unit records.
pub record IsReply {W : Type 0} (bus : SdBus W) (message : ℕ) (view : W → Cursor) : Type 0 where
  pub array :
      (w : W) (raws : List RawRecord)
      → view w ≡ before_array raws
      → ((bus.enter_array message w).0 ≡ true) × (view (bus.enter_array message w).1 ≡ between raws)
  pub more :
      (w : W) (raw : RawRecord) (raws : List RawRecord)
      → view w ≡ between (raw ∷ raws)
      → ((bus.enter_struct message w).0 ≡ some true)
        × (view (bus.enter_struct message w).1 ≡ inside raw raws)
  pub last :
      (w : W)
      → view w ≡ between []
      → ((bus.enter_struct message w).0 ≡ some false)
        × (view (bus.enter_struct message w).1 ≡ between [])
  pub row :
      (w : W) (raw : RawRecord) (raws : List RawRecord)
      → view w ≡ inside raw raws
      → ((bus.read_record message w).0 ≡ some raw)
        × (view (bus.read_record message w).1 ≡ behind raws)
  pub leave :
      (w : W) (raws : List RawRecord)
      → view w ≡ behind raws
      → ((bus.exit_container message w).0 ≡ true)
        × (view (bus.exit_container message w).1 ≡ between raws)
  pub leave_array : (w : W) → view w ≡ between [] → (bus.exit_container message w).0 ≡ true

take-drop : (n : ℕ) (v : Bytes) → take n v ++ drop n v ≡ v
take-drop zero v = refl
take-drop (suc n) [] = refl
take-drop (suc n) (c ∷ v) = ap (λ t. c ∷ t) (take-drop n v)

take_some : (n : ℕ) (v : Bytes) → 0 < n → 0 < length v → take n v ≢ []
take_some zero v h k = absurd (omega arith)
take_some (suc n) [] h k = absurd (omega arith)
take_some (suc n) (c ∷ v) h k = cons-ne-nil c (take n v)

is_service-stem :
    (v : Bytes) → is_service v ≡ true → (stem : Bytes) × (stem ≢ []) × (v ≡ stem ++ text ".service")
unfolding is_service
is_service-stem v h =
    let long : 8 < length v = ground arith in
    let suffix : drop (length v - 8) v ≡ text ".service" =
      (list_eq_iff (drop (length v - 8) v) (text ".service")).0 (ground arith) in
    (
      take (length v - 8) v,
      take_some (length v - 8) v (omega arith) (omega arith),
      sym (take-drop (length v - 8) v) ∙ ap (λ s. take (length v - 8) v ++ s) suffix,
    )

stem-is_service : (stem : Bytes) → stem ≢ [] → is_service (stem ++ text ".service") ≡ true
unfolding is_service text
stem-is_service stem some_stem =
    let sum = length-append stem (text ".service") in
    let pos = length-pos stem some_stem in
    let at : length (stem ++ text ".service") - 8 ≡ length stem = omega (arith, sum) in
    rw at (rw drop-append (ground (arith, sum, pos)))

-- a record adds its service, or is one of the others
added_unit :
    (raw : RawRecord) (raws : List RawRecord) (services more : List ServiceInfo)
    → Units raws more
    → (all : List ServiceInfo) × (push_service (service_from_unit_record raw) services ++ more
        ≡ services ++ all)
      × Units (raw ∷ raws) all
unfolding service_from_unit_record
added_unit raw raws services more units = elim (Bool-cases (is_service (nonnull raw.name))) [
  | inl t ↦
      let service : ServiceInfo = record {
        unit_name = nonnull raw.name;
        description = nonnull raw.description;
        load_state = nonnull raw.load_state;
        active_state = nonnull raw.active_state;
        sub_state = nonnull raw.sub_state;
        unit_file_state = [];
        main_pid = none;
        active_enter_timestamp_usec = 0;
      } in
      rw t (
        service ∷ more,
        append_assoc services (service ∷ []) more,
        service_unit raw service raws more
            (record {
              name = refl;
              named = is_service-stem (nonnull raw.name) t;
              description = refl;
              load = refl;
              active = refl;
              sub = refl;
              no_pid = refl;
            })
            units,
      )
  | inr f ↦ rw f (
    more,
    refl,
    skipped_unit raw raws more
        (λ stem some_stem e.
          let accepted = stem-is_service stem some_stem in
          let refused : is_service (stem ++ text ".service") ≡ false = ap is_service (sym e) ∙ f in
          cc)
        units,
  )
]

module _ {W : Type 0} (bus : SdBus W) (message : ℕ) (view : W → Cursor)
    (reply : IsReply bus message view) where
  open bus use {enter_struct, read_record, exit_container}

  read_units-Units :
      (fuel : ℕ) (raws : List RawRecord) (services : List ServiceInfo) (m : Machine W)
      → view m.world ≡ between raws
      → length raws < fuel
      → (more : List ServiceInfo) × ((read_units bus message fuel services m).0
          ≡ success (some (services ++ more)))
        × Units raws more
  unfolding read_units entered_unit end_units read_unit ◌>>=◌ proceed observe pure
  read_units-Units zero raws services m at enough = absurd (omega arith)
  read_units-Units (suc fuel) [] services m at enough =
      let (entered, at_end) = reply.last m.world at in
      let left = reply.leave_array (enter_struct message m.world).1 at_end in
      ([], rw entered (rw left (ap (λ l. success (some l)) (sym (append-nil services)))), no_units)
  read_units-Units (suc fuel) (raw ∷ raws) services m at enough =
      let (entered, at_row) = reply.more m.world raw raws at in
      let w1 = (enter_struct message m.world).1 in
      let (read, at_exit) = reply.row w1 raw raws at_row in
      let w2 = (read_record message w1).1 in
      let (left, at_next) = reply.leave w2 raws at_exit in
      let w3 = (exit_container message w2).1 in
      let (more, result, units) =
        read_units-Units fuel raws (push_service (service_from_unit_record raw) services)
          (record m { world = w3 }) at_next (omega arith) in
      let (all, same, listed) = added_unit raw raws services more units in
      (all, rw entered (rw read (rw left (result ∙ ap (λ l. success (some l)) same))), listed)

  -- With a fuel above the number of its records, a reply of ListUnits that sd-bus can read is parsed
  -- into exactly the services of its records, in their order, with the texts of each: the records
  -- whose names end in ".service" behind a stem.
  pub parse_list_units-Units :
      (fuel : ℕ) (raws : List RawRecord) (m : Machine W)
      → view m.world ≡ before_array raws
      → length raws < fuel
      → (services : List ServiceInfo) × ((parse_list_units bus message fuel m).0
          ≡ success (some services))
        × Units raws services
  unfolding parse_list_units ◌>>=◌ proceed observe
  parse_list_units-Units fuel raws m at enough =
      let (entered, at_first) = reply.array m.world raws at in
      let (services, result, units) =
        read_units-Units fuel raws [] (record m { world = (bus.enter_array message m.world).1 })
          at_first enough in
      (services, rw entered result, units)
