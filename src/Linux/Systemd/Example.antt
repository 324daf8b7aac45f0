-- ===== src/Linux/Systemd/Example.antt =====
-- A small bus for the tests: a library that counts references, and a reply of ListUnits.
use lx.Base.{
  some, none, inr, Option, Bytes, List, [], true, false, refl, ℕ, drop, pos, text, ap, ◌∷◌, Bool,
}
use lx.Linux.Systemd.SdBus.{SdBus, RawRecord}
use lx.Linux.Systemd.References.{Handle, IsCounted, Opens, bus_handle, message_handle}
use lx.Linux.Systemd.Messages.Listed.{Cursor, IsReply, before_array, between, inside, behind}
use lx.Exec.{Machine}

pub record Bus : Type 0 where
  pub cursor : Cursor
  pub handles : List Handle

abbrev pub entered : Cursor → Bool
entered (before_array raws) = true
entered _ = false

abbrev pub enter : Cursor → Cursor
enter (before_array raws) = between raws
enter cursor = cursor

abbrev pub has_struct : Cursor → Option Bool
has_struct (between []) = some false
has_struct (between (raw ∷ raws)) = some true
has_struct _ = none

abbrev pub enter_row : Cursor → Cursor
enter_row (between (raw ∷ raws)) = inside raw raws
enter_row cursor = cursor

abbrev pub row_of : Cursor → Option RawRecord
row_of (inside raw raws) = some raw
row_of _ = none

abbrev pub read_raw : Cursor → Cursor
read_raw (inside raw raws) = behind raws
read_raw cursor = cursor

abbrev pub may_leave : Cursor → Bool
may_leave (behind raws) = true
may_leave (between []) = true
may_leave _ = false

abbrev pub leave_row : Cursor → Cursor
leave_row (behind raws) = between raws
leave_row cursor = cursor

abbrev pub raw_unit : Bytes → RawRecord
raw_unit name = record {
  name = some name;
  description = none;
  load_state = some (text "loaded");
  active_state = some (text "active");
  sub_state = some (text "running");
}

abbrev pub units : List RawRecord
units = raw_unit (text "web.service") ∷ raw_unit (text "tmp.mount") ∷ []

abbrev pub opening : Handle → Bus → Bus
opening handle w = record w { handles = handle ∷ w.handles }

abbrev pub released_one : Bus → Bus
released_one w = record w { handles = drop 1 w.handles }

abbrev pub bus : SdBus Bus
bus = record {
  system = record { number = λ e. pos 1; message = λ e. [] };
  strerror = λ e. [];
  access_denied = text "AccessDenied";
  no_reply = text "NoReply";
  service_unknown = text "ServiceUnknown";
  name_has_no_owner = text "NameHasNoOwner";
  open_system = λ w. (inr 1, opening (bus_handle 1) w);
  unref_bus = λ h w. (tt, released_one w);
  unref_message = λ h w. (tt, released_one w);
  call_method = λ connection method arguments w. (inr 2, opening (message_handle 2) w);
  get_property = λ connection property w. (inr 2, opening (message_handle 2) w);
  get_property_string =
      λ connection path interface property w. (inr (some (text "web.service")), w);
  get_property_trivial = λ connection path interface property w. (inr 42, w);
  read_text = λ message kind w. (some (text "/unit"), w);
  enter_array = λ message w. (entered w.cursor, record w { cursor = enter w.cursor });
  enter_struct = λ message w. (has_struct w.cursor, record w { cursor = enter_row w.cursor });
  read_record = λ message w. (row_of w.cursor, record w { cursor = read_raw w.cursor });
  exit_container = λ message w. (may_leave w.cursor, record w { cursor = leave_row w.cursor });
}

abbrev pub start : Machine Bus
start = record { world = record { cursor = before_array units; handles = [] }; calls = [] }

pub bus-IsReply : IsReply bus 2 (λ w. w.cursor)
bus-IsReply = record {
  array = λ w raws e. (ap entered e, ap enter e);
  more = λ w raw raws e. (ap has_struct e, ap enter_row e);
  last = λ w e. (ap has_struct e, ap enter_row e);
  row = λ w raw raws e. (ap row_of e, ap read_raw e);
  leave = λ w raws e. (ap may_leave e, ap leave_row e);
  leave_array = λ w e. ap may_leave e;
}

opening-Opens :
    {E : Type 0} (kind : ℕ → Handle) (h : ℕ)
    → Opens {E = E} (λ (w : Bus). w.handles) kind (λ w. (inr h, opening (kind h) w))
opening-Opens kind h w = (λ e same. cc, λ k same. ap (λ l. kind l ∷ w.handles) (cc))

pub bus-IsCounted : IsCounted bus (λ w. w.handles)
bus-IsCounted = record {
  opened = opening-Opens bus_handle 1;
  called = λ connection method arguments. opening-Opens message_handle 2;
  got = λ connection property. opening-Opens message_handle 2;
  released_bus = λ h w rest e. ap (drop 1) e;
  released_message = λ h w rest e. ap (drop 1) e;
  string_kept = λ connection path interface property w. refl;
  trivial_kept = λ connection path interface property w. refl;
  read_kept = λ message kind w. refl;
  array_kept = λ message w. refl;
  struct_kept = λ message w. refl;
  record_kept = λ message w. refl;
  exit_kept = λ message w. refl;
}
