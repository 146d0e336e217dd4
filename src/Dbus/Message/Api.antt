-- ===== src/Dbus/Message/Api.antt =====
-- The class `Message` of dbus/message.cpp, which hands its calls on to `MessagePrivate`.
pub mod Extraction
use firmir.Base.{Option, none, some, List, [], ◌∷◌, Bool, false, ℕ}
use firmir.Dbus.Message.Header.{MessageType, FixedHeader, DynamicHeader}
use firmir.Dbus.Message.Reader.{Stop, Outcome, done, stopped, read_string}
use firmir.Dbus.Message.Private.{MessagePrivate}

unfoldable pub get_type : MessagePrivate → MessageType
get_type m = m.fixed_header.type

unfoldable pub set_type : MessageType → MessagePrivate → MessagePrivate
set_type t m = record m { fixed_header = record (m.fixed_header) { type = t } }

-- `res ? *res : ""`
unfoldable pub or_empty : Option (List ℕ) → List ℕ
or_empty none = []
or_empty (some s) = s

unfoldable pub get_destination : MessagePrivate → List ℕ
get_destination m = or_empty m.dynamic_header.destination

unfoldable pub set_destination : List ℕ → MessagePrivate → MessagePrivate
set_destination s m = record m {
  dynamic_header = record (m.dynamic_header) { destination = some s };
}

unfoldable pub get_path : MessagePrivate → List ℕ
get_path m = or_empty m.dynamic_header.path

unfoldable pub set_path : List ℕ → MessagePrivate → MessagePrivate
set_path s m = record m { dynamic_header = record (m.dynamic_header) { path = some s } }

unfoldable pub get_interface : MessagePrivate → List ℕ
get_interface m = or_empty m.dynamic_header.interface

unfoldable pub set_interface : List ℕ → MessagePrivate → MessagePrivate
set_interface s m = record m { dynamic_header = record (m.dynamic_header) { interface = some s } }

unfoldable pub get_member : MessagePrivate → List ℕ
get_member m = or_empty m.dynamic_header.member

unfoldable pub set_member : List ℕ → MessagePrivate → MessagePrivate
set_member s m = record m { dynamic_header = record (m.dynamic_header) { member = some s } }

unfoldable pub get_error_name : MessagePrivate → List ℕ
get_error_name m = or_empty m.dynamic_header.error_name

unfoldable pub set_error_name : List ℕ → MessagePrivate → MessagePrivate
set_error_name s m = record m { dynamic_header = record (m.dynamic_header) { error_name = some s } }

-- The assignments, on the two messages behind two distinct pointers: the moving one swaps them.
unfoldable pub assign_move : MessagePrivate × MessagePrivate → MessagePrivate × MessagePrivate
assign_move (to, from) = (from, to)

unfoldable pub assign_copy : MessagePrivate × MessagePrivate → MessagePrivate × MessagePrivate
assign_copy (to, from) = (from, from)

-- What `message >> item` leaves in the item and in the message.
pub data Extracted : Type 0 where
  extracted : List ℕ → MessagePrivate → Extracted
  broken_off : Stop → Extracted

abbrev pub take_item : List ℕ → MessagePrivate → Outcome (Option (List ℕ)) → Extracted
take_item item m (done none r) = extracted item (record m { reader = r; valid = false })
take_item item m (done (some s) r) = extracted s (record m { reader = r })
take_item item m (stopped s) = broken_off s

-- `operator>>`
unfoldable pub extract : List ℕ → MessagePrivate → Extracted
extract item m = take_item item m (read_string m.reader)

-- `operator<<` writes nothing.
unfoldable pub insert : List ℕ → MessagePrivate → MessagePrivate
insert item m = m
