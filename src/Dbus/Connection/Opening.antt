-- ===== src/Dbus/Connection/Opening.antt =====
-- dbus/connection.cpp: the address of the bus, and the opening of a connection up to its
-- authentication; and the printers of the two enumerations.
pub mod Address
pub mod Start
use firmir.Base.{
  ℕ, suc, ◌+◌, ◌/◌, ◌%◌, Bool, true, false, ◌&&◌, Option, none, some, List, [], ◌∷◌, ◌++◌, codes,
  length, take, drop, ltb, ◌==◌, if◌then◌else◌,
}
use firmir.Base.Decimal.{decimal}
use firmir.Dbus.Connection.{
  State, connecting, auth, getting_name, connected, error_state, System, update_state,
}

pub data BusType : Type 0 where
  session system_bus : BusType

-- `%02x`, of a byte.
abbrev pub hex_digit : ℕ → ℕ
hex_digit d = if ltb d 10 then d + 48 else d + 87

unfoldable pub hex_of : List ℕ → List ℕ
hex_of [] = []
hex_of (c ∷ cs) = hex_digit (c / 16) ∷ hex_digit (c % 16) ∷ hex_of cs

unfoldable pub uid_to_hex : ℕ → List ℕ
unfolding hex_of
uid_to_hex uid = hex_of (decimal uid)

abbrev pub starts_with : List ℕ → List ℕ → Bool
starts_with [] s = true
starts_with (c ∷ cs) [] = false
starts_with (c ∷ cs) (d ∷ ds) = (c == d) && starts_with cs ds

abbrev pub one_on : Option ℕ → Option ℕ
one_on none = none
one_on (some n) = some (suc n)

-- `std::string::find`
unfoldable pub find_text : List ℕ → List ℕ → Option ℕ
find_text needle [] = if starts_with needle [] then some 0 else none
find_text needle (c ∷ cs) =
    let rest = find_text needle cs in if starts_with needle (c ∷ cs) then some 0 else one_on rest

unfoldable pub default_path : BusType → ℕ → List ℕ
default_path session uid = codes "/run/user/" ++ (decimal uid ++ codes "/bus")
default_path system_bus uid = codes "/run/dbus/system_bus_socket"

abbrev pub up_to : Option ℕ → List ℕ → List ℕ
up_to none path = path
up_to (some end) path = take end path

abbrev pub path_at : BusType → ℕ → Option ℕ → List ℕ → List ℕ
path_at type uid none address = default_path type uid
path_at type uid (some pos) address =
    let path = drop (pos + 5) address in up_to (find_text (codes ",") path) path

-- With what `getenv` gives for the variable of the bus.
unfoldable pub get_path : BusType → ℕ → Option (List ℕ) → List ℕ
get_path type uid none = default_path type uid
get_path type uid (some address) = path_at type uid (find_text (codes "path=") address) address

unfoldable pub auth_cmd : ℕ → List ℕ
auth_cmd uid = codes "AUTH EXTERNAL " ++ (uid_to_hex uid ++ 13 ∷ 10 ∷ [])

-- The calls of the kernel, the two of `fcntl` as one, and `addEvent`, which makes the loop watch the
-- socket. The descriptor that `socket` gives is left to the kernel.
module _ {W : Type 0} (socket : W → Bool × W) (nonblock : W → W) (connect : W → List ℕ → Bool × W)
    (watch : W → W) (write : W → List ℕ → Option ℕ × W) where
  abbrev pub fail : System W → W → System W
  fail s w = update_state error_state (record s { kernel = w })

  abbrev pub authenticated : System W → Option ℕ × W → System W
  authenticated s (none, w) = fail s w
  authenticated s (some k, w) = record s { kernel = w }

  -- Behind the zero byte.
  abbrev pub greeted : ℕ → System W → Option ℕ × W → System W
  greeted uid s (none, w) = fail s w
  greeted uid s (some k, w) =
      if k == 1
      then (let s' = update_state auth (record s { kernel = w }) in
          authenticated s' (write w (auth_cmd uid)))
      else fail s w

  abbrev pub connected_to : ℕ → System W → Bool × W → System W
  connected_to uid s (false, w) = fail s w
  connected_to uid s (true, w) = greeted uid s (write (watch w) (0 ∷ []))

  -- The path is cut to the size of `sun_path`.
  abbrev pub opened : ℕ → List ℕ → System W → Bool × W → System W
  opened uid path s (false, w) = fail s w
  opened uid path s (true, w) = connected_to uid s (connect (nonblock w) (take 107 path))

  unfoldable pub start_connect : BusType → ℕ → Option (List ℕ) → System W → System W
  start_connect type uid env s = opened uid (get_path type uid env) s (socket s.kernel)

-- The destructor of `ConnectionPrivate`, on the descriptor and the kernel: `removeEvent` and `close`.
unfoldable pub end_connection :
    {W : Type 0} → (ℕ → W → W) → (ℕ → W → W) → Option ℕ × W → Option ℕ × W
end_connection remove close (none, w) = (none, w)
end_connection remove close (some sock, w) = (none, close sock (remove sock w))

unfoldable pub print_state : State → List ℕ
print_state connecting = codes "Connecting"
print_state auth = codes "Auth"
print_state getting_name = codes "GettingName"
print_state connected = codes "Connected"
print_state error_state = codes "Error"

unfoldable pub print_bus_type : BusType → List ℕ
print_bus_type session = codes "Session"
print_bus_type system_bus = codes "System"
