-- ===== src/Linux/Systemd/References.antt =====
-- The connections and replies that a call of the provider opens are released when it returns.
pub mod Units
pub mod Messages
pub mod Operations
use lx.Base.{
  inl, inr, Bytes, List, refl, ◌≡◌, ℕ, ◌⊎◌, ◌∙◌, ◌∷◌, zero, suc, some, none, true, false, nat_Eq,
  list_Eq, int_Eq, option_Eq, [], Option, ℤ, Bool, negsuc, pos, ◌==◌,
}
use lx.Linux.Systemd.SdBus.{
  SdBus, Argument, with_bus, owning_bus, with_reply, BusFailure, RawRecord,
}
use lx.Exec.Moves.{
  Preorder, Moves, Moves-fail, Moves-bind, Moves-pure, moves_rules, Moves-if, Moves-lift,
}
use lx.Exec.{◌>>=◌, observe, ◌>>◌, proceed, Action, attempt, Machine, lift}
use lx.Domain.{Void, Observation, ServiceInfo, Error, Result, failure, success}
use lx.Linux.Systemd.Messages.{read_units, read_unit, parse_list_units, entered_unit, end_units}
use lx.Linux.Systemd.ServiceProvider.{
  list_services, listed_units, unit_by_pid, list, get, list_main_pid, probe, control_unit,
  list_service, read_texts, called_by_pid,
}
use lx.Linux.Systemd.Units.{
  string_property, unit_file_state, trivial_property, text_or_fail, get_unit_path, string_value,
  number_value,
}

pub data Handle : Type 0 where
  bus_handle message_handle : ℕ → Handle

-- `take` opens a handle where it succeeds.
abbrev pub Opens : {W E : Type 0} → (W → List Handle) → (ℕ → Handle) → (W → (E ⊎ ℕ) × W) → Type 0
Opens {W} {E} open_handles kind take =
    (w : W)
    → ((e : E) → (take w).0 ≡ inl e → open_handles (take w).1 ≡ open_handles w)
      × ((h : ℕ) → (take w).0 ≡ inr h → open_handles (take w).1 ≡ kind h ∷ open_handles w)

-- What the library says of references: the handles that are open, the latest first. A call that opens
-- one fails or adds it; releasing the latest one takes it away; no other call opens or releases one.
pub record IsCounted {W : Type 0} (bus : SdBus W) (open_handles : W → List Handle) : Type 0 where
  pub opened : Opens open_handles bus_handle bus.open_system
  pub called :
      (connection : ℕ) (method : Bytes) (arguments : List Argument)
      → Opens open_handles message_handle (bus.call_method connection method arguments)
  pub got :
      (connection : ℕ) (property : Bytes)
      → Opens open_handles message_handle (bus.get_property connection property)
  pub released_bus :
      (h : ℕ) (w : W) (rest : List Handle)
      → open_handles w ≡ bus_handle h ∷ rest
      → open_handles (bus.unref_bus h w).1 ≡ rest
  pub released_message :
      (h : ℕ) (w : W) (rest : List Handle)
      → open_handles w ≡ message_handle h ∷ rest
      → open_handles (bus.unref_message h w).1 ≡ rest
  pub string_kept :
      (connection : ℕ) (path interface property : Bytes) (w : W)
      → open_handles (bus.get_property_string connection path interface property w).1
        ≡ open_handles w
  pub trivial_kept :
      (connection : ℕ) (path interface property : Bytes) (w : W)
      → open_handles (bus.get_property_trivial connection path interface property w).1
        ≡ open_handles w
  pub read_kept :
      (message : ℕ) (kind : Bytes) (w : W)
      → open_handles (bus.read_text message kind w).1 ≡ open_handles w
  pub array_kept :
      (message : ℕ) (w : W) → open_handles (bus.enter_array message w).1 ≡ open_handles w
  pub struct_kept :
      (message : ℕ) (w : W) → open_handles (bus.enter_struct message w).1 ≡ open_handles w
  pub record_kept :
      (message : ℕ) (w : W) → open_handles (bus.read_record message w).1 ≡ open_handles w
  pub exit_kept :
      (message : ℕ) (w : W) → open_handles (bus.exit_container message w).1 ≡ open_handles w

-- The same handles are open.
abbrev pub keeping : {W : Type 0} → (W → List Handle) → Preorder W
keeping open_handles = record {
  Rel = λ m n. open_handles n.world ≡ open_handles m.world;
  rel_refl = λ m. refl;
  rel_trans = λ m n k h i. i ∙ h;
}

module _ {W : Type 0} (open_handles : W → List Handle) where
  pub kept-Moves :
      {A : Type 0} (f : W → A × W)
      → ((w : W) → open_handles (f w).1 ≡ open_handles w)
      → Moves (keeping open_handles) (observe f)
  unfolding observe
  kept-Moves f h = record { at = λ m. h m.world }

  -- a handle that is released behind what is done with it
  pub released :
      {A : Type 0} (latest : Handle) (act : Action W A) (unref : W → Void × W)
      → Moves (keeping open_handles) act
      → ((w : W) (rest : List Handle)
          → open_handles w ≡ latest ∷ rest
          → open_handles (unref w).1 ≡ rest)
      → (m : Machine W) (rest : List Handle) → open_handles m.world ≡ latest ∷ rest
      → open_handles ((attempt act >>= λ r. observe unref >> lift r) m).1.world ≡ rest
  unfolding ◌>>=◌ ◌>>◌ proceed attempt observe lift
  released latest act unref h gone m rest e = gone (act m).1.world rest (h.at m ∙ e)

  pub owned-Moves :
      {E A : Type 0} (kind : ℕ → Handle) (take : W → (E ⊎ ℕ) × W) (next : (E ⊎ ℕ) → Action W A)
      → Opens open_handles kind take
      → ((e : E) → Moves (keeping open_handles) (next (inl e)))
      → ((h : ℕ) (m : Machine W) (rest : List Handle)
          → open_handles m.world ≡ kind h ∷ rest
          → open_handles (next (inr h) m).1.world ≡ rest)
      → Moves (keeping open_handles) (observe take >>= next)
  unfolding ◌>>=◌ proceed observe
  owned-Moves {E} kind take next opens failed succeeded = record {
    at = λ m. after m (take m.world).0 refl;
  }
    where
      after :
          (m : Machine W) (r : E ⊎ ℕ)
          → (take m.world).0 ≡ r
          → open_handles (next r (record m { world = (take m.world).1 })).1.world
            ≡ open_handles m.world
      after m (inl e) same =
          (failed e).at (record m { world = (take m.world).1 }) ∙ (opens m.world).0 e same
      after m (inr h) same =
          succeeded h (record m { world = (take m.world).1 }) (open_handles m.world)
            ((opens m.world).1 h same)

module _ {W : Type 0} (bus : SdBus W) (open_handles : W → List Handle)
    (counted : IsCounted bus open_handles) where
  pub with_bus-Moves :
      {A : Type 0} (rest : ℕ → Action W A)
      → ((connection : ℕ) → Moves (keeping open_handles) (rest connection))
      → Moves (keeping open_handles) (with_bus bus rest)
  unfolding with_bus owning_bus
  with_bus-Moves rest h =
      owned-Moves open_handles bus_handle bus.open_system (λ taken. owning_bus bus taken rest)
        counted.opened (λ e. Moves-fail _ _)
        (λ connection m others e.
          released open_handles (bus_handle connection) (rest connection) (bus.unref_bus connection)
            (h connection) (counted.released_bus connection) m others e)

  pub reply-Moves :
      {A : Type 0} (operation : Bytes) (take : W → (BusFailure ⊎ ℕ) × W) (rest : ℕ → Action W A)
      → Opens open_handles message_handle take
      → ((reply : ℕ) → Moves (keeping open_handles) (rest reply))
      → Moves (keeping open_handles) (observe take >>= λ taken. with_reply bus operation taken rest)
  unfolding with_reply
  reply-Moves operation take rest opens h =
      owned-Moves open_handles message_handle take (λ taken. with_reply bus operation taken rest)
        opens (λ e. Moves-fail _ _)
        (λ reply m others e.
          released open_handles (message_handle reply) (rest reply) (bus.unref_message reply)
            (h reply) (counted.released_message reply) m others e)
