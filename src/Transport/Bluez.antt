-- ===== src/Transport/Bluez.antt =====
-- src/bluez.rs: choosing a device among the bus's objects, and the transport once it is connected.
pub mod Dbus
pub mod Connect
pub mod Ending
pub mod Keeping
pub mod Order
use allsquare.Base.{ℕ, Bool, List, [], ◌∷◌, Option, some, none, ◌==◌, Bytes, if◌then◌else◌}
use allsquare.Error.{Io, failed, not_found}
use allsquare.Protocol.Names.{name_prefix, matches_pin}
use allsquare.Text.{starts_with}
use allsquare.Transport.{Channel, read_channel}

-- The properties of the `Device1` interface that the search reads, where they hold strings; an alias
-- may be there and hold none, and then the name does not count.
pub record DeviceProps : Type 0 where
  pub alias : Option (Option Bytes)
  pub name : Option Bytes
  pub address : Option Bytes

-- An object of the bus: its path, and its `Device1` and `GattCharacteristic1` interfaces if it has
-- them, of which the second has a UUID if that is a string.
pub record Managed : Type 0 where
  pub path : Bytes
  pub device : Option DeviceProps
  pub characteristic : Option (Option Bytes)

-- A path, a name and an address.
pub record Hit : Type 0 where
  pub path : Bytes
  pub name : Bytes
  pub address : Bytes

abbrev pub or_default : Option Bytes → Bytes
or_default none = []
or_default (some s) = s

-- `dev.get("Alias").or_else(|| dev.get("Name"))`, or the empty string.
unfoldable pub shown_name : DeviceProps → Bytes
shown_name d = elim d.alias [ some a ↦ or_default a | none ↦ or_default d.name ]

-- The `match` on the pinned address.
unfoldable pub matched : Option Bytes → Bytes → Bytes → Bool
matched none addr name = starts_with name_prefix name
matched (some want) addr name = matches_pin want addr name

abbrev pub hit_of : Bytes → DeviceProps → Hit
hit_of path d = record { path = path; name = shown_name d; address = or_default d.address }

unfoldable pub look_at : Option Bytes → Bytes → Option DeviceProps → Option Hit → Option Hit
look_at pin path none rest = rest
look_at pin path (some d) rest =
    let hit = hit_of path d in if matched pin hit.address hit.name then some hit else rest

-- `BluezTransport::look`, on the objects in the order in which they come.
unfoldable pub look : Option Bytes → List Managed → Option Hit
look pin [] = none
look pin (object ∷ rest) = look_at pin object.path object.device (look pin rest)

-- The calls on the bus, of state `S`.
pub record Bus (S : Type 0) : Type 0 where
  pub write_value : S → Bytes → Bytes → S × Io (Unit {0})
  pub read_value : S → Bytes → S × Io Bytes

pub record BluezTransport (S : Type 0) : Type 0 where
  pub conn : S
  pub cmd_path : Bytes
  pub name : Bytes
  pub address : Bytes
  pub model_hint : Option Bytes
  pub notifications : Channel
  pub chars : List (ℕ × Bytes)

-- `self.chars.get(&uuid)`.
unfoldable pub path_of : ℕ → List (ℕ × Bytes) → Option Bytes
path_of uuid [] = none
path_of uuid ((u, path) ∷ rest) = if u == uuid then some path else path_of uuid rest

module _ {S : Type 0} where
  -- `Transport::read`.
  unfoldable pub read_signal : BluezTransport S → Bytes → BluezTransport S × Bytes × Io ℕ
  read_signal t buf =
      let (c, filled, r) = read_channel t.notifications buf in
      (record t { notifications = c }, filled, r)

module _ {S : Type 0} (b : Bus S) where
  -- `Transport::write`.
  unfoldable pub write_signal : BluezTransport S → Bytes → BluezTransport S × Io (Unit {0})
  write_signal t frame =
      let (w, r) = b.write_value t.conn t.cmd_path frame in (record t { conn = w }, r)

  -- `Transport::read_characteristic`, at the path that the identifier has.
  unfoldable pub read_at : Option Bytes → BluezTransport S → BluezTransport S × Io Bytes
  read_at none t = (t, failed (record { kind = not_found; message = "characteristic not found" }))
  read_at (some path) t = let (w, r) = b.read_value t.conn path in (record t { conn = w }, r)

  unfoldable pub read_char : BluezTransport S → ℕ → BluezTransport S × Io Bytes
  read_char t uuid = read_at (path_of uuid t.chars) t
