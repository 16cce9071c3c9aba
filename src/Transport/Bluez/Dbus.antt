-- ===== src/Transport/Bluez/Dbus.antt =====
-- src/bluez.rs: the calls on the D-Bus library, the properties that it reads, and the table of
-- characteristics.
use Prim.Native.String.{String}
use allsquare.Base.{
  ℕ, ◌+◌, ◌-◌, ◌*◌, ◌^◌, Bool, false, ◌==◌, ◌&&◌, List, [], ◌∷◌, Option, some, none, Bytes,
  if◌then◌else◌, leb, ltb,
}
use allsquare.Client.State.{from_secs}
use allsquare.Error.{Error, backend}
use allsquare.Text.{codes, starts_with}
use allsquare.Text.Utf8.{from_utf8}
use allsquare.Transport.Bluez.{Managed}
use allsquare.Transport.Tasks.{from_millis, Result, good, bad, Task, give, call, ◌>>=◌, ◌>>◌}

abbrev pub scan_limit : ℕ
scan_limit = from_secs 20

abbrev pub resolve_timeout : ℕ
resolve_timeout = from_secs 20

abbrev pub settle_pause : ℕ
settle_pause = from_millis 250

-- The interfaces of an object that a proxy is made for.
pub data Interface : Type 0 where
  object_manager adapter_interface device_interface char_interface properties_interface : Interface

-- The bus, of state `S`; a call fails with the text of its error. `proxy` is `Proxy::new`, and the
-- other calls are those of the proxies and the connection. A property that is read is `none` where it
-- holds another type than the one asked for; `manufacturer_data` gives the payloads by company.
pub record Dbus (S : Type 0) : Type 0 where
  pub system : S → S × Result String (Unit {0})
  pub object_path : Bytes → Result String Bytes
  pub proxy : Bytes → Interface → S → S × Result String (Unit {0})
  pub discovery : Bool → Bytes → S → S × Result String (Unit {0})
  pub managed_objects : S → S × Result String (List Managed)
  pub set_trusted : Bytes → S → S × Result String (Unit {0})
  pub get_bool : Bytes → String → S → S × Result String (Option Bool)
  pub manufacturer_data : Bytes → S → S × Result String (Option (List (ℕ × Option Bytes)))
  pub connect_message : Bytes → Result String (Unit {0})
  pub send_connect : Bytes → S → S × Result String (Unit {0})
  pub match_rule : Bytes → Result String (Unit {0})
  pub listen : Bytes → S → S × Result String (Unit {0})
  pub start_notify : Bytes → S → S × Result String (Unit {0})
  pub spawn : S → S × Result String (Unit {0})
  pub disconnect : Bytes → S → S × Result String (Unit {0})
  pub now : S → S × ℕ
  pub sleep : ℕ → S → S

-- `backend`, on the error of a call.
unfoldable pub backend_error : {A : Type 0} → Result String A → Result Error A
backend_error (good a) = good a
backend_error (bad e) = bad (backend e)

-- A call whose error becomes `backend`.
unfoldable pub mapped : {S A : Type 0} → (S → S × Result String A) → Task S Error A
mapped f w = let (w', r) = f w in some (w', backend_error r)

-- `map_err(backend)` on what does not touch the bus.
unfoldable pub checked : {S A : Type 0} → Result String A → Task S Error A
checked r w = some (w, backend_error r)

-- The value of a hexadecimal digit.
unfoldable pub digit_of : ℕ → Option ℕ
digit_of c =
    if leb b'0' c && leb c b'9'
    then some (c - b'0')
    else (if leb b'a' c && leb c b'f'
        then some (c - b'a' + 10)
        else (if leb b'A' c && leb c b'F' then some (c - b'A' + 10) else none))

-- The next value, if it is one of 128 bits.
unfoldable pub push_digit : ℕ → Option ℕ → Option ℕ
push_digit acc none = none
push_digit acc (some d) = let v = acc * 16 + d in if ltb v (2 ^ 128) then some v else none

unfoldable pub digits_from : Option ℕ → Bytes → Option ℕ
digits_from none s = none
digits_from (some acc) [] = some acc
digits_from (some acc) (c ∷ s) = digits_from (push_digit acc (digit_of c)) s

-- `u128::from_str_radix(…, 16)`, which takes a sign `+` and refuses the empty string.
unfoldable pub from_str_radix : Bytes → Option ℕ
from_str_radix [] = none
from_str_radix (c ∷ []) = digits_from (some 0) (c ∷ [])
from_str_radix (c ∷ d ∷ s) =
    if c == b'+' then digits_from (some 0) (d ∷ s) else digits_from (some 0) (c ∷ d ∷ s)

-- `replace('-', "")`.
unfoldable pub without_dashes : Bytes → Bytes
without_dashes [] = []
without_dashes (c ∷ s) = if c == b'-' then without_dashes s else c ∷ without_dashes s

-- The UUID of a characteristic, if it has one that parses.
unfoldable pub uuid_of : Option (Option Bytes) → Option ℕ
uuid_of (some (some uuid)) = from_str_radix (without_dashes uuid)
uuid_of _ = none

-- `out.insert`: a later entry is the one that is found.
unfoldable pub insert : Option ℕ → Bytes → List (ℕ × Bytes) → List (ℕ × Bytes)
insert none path out = out
insert (some uuid) path out = (uuid, path) ∷ out

-- The loop of `characteristics`, on the objects in the order in which they come.
unfoldable pub chars_in : Bytes → List Managed → List (ℕ × Bytes) → List (ℕ × Bytes)
chars_in prefix [] out = out
chars_in prefix (object ∷ rest) out = chars_in prefix rest (
    if starts_with prefix object.path
    then insert (uuid_of object.characteristic) object.path out
    else out)

abbrev pub is_true : Option Bool → Bool
is_true (some b) = b
is_true none = false

-- `(!s.is_empty()).then_some(s)` on the text of a payload.
unfoldable pub non_empty : Option Bytes → Option Bytes
non_empty (some (c ∷ s)) = some (c ∷ s)
non_empty _ = none

module _ {S : Type 0} (b : Dbus S) where
  -- `managed`.
  unfoldable pub managed : Task S Error (List Managed)
  managed = do mapped (b.proxy (codes "/") object_manager); mapped b.managed_objects

  -- `characteristics`.
  unfoldable pub characteristics : Bytes → Task S Error (List (ℕ × Bytes))
  characteristics device_path = do objects ← managed; give (chars_in device_path objects [])

  -- `prop_set`, of `Trusted`.
  unfoldable pub prop_set : Bytes → Task S Error (Unit {0})
  prop_set path = do mapped (b.proxy path properties_interface); mapped (b.set_trusted path)

  -- `prop_bool`.
  unfoldable pub prop_bool : Bytes → String → Task S Error Bool
  prop_bool path name = do
    mapped (b.proxy path properties_interface)
    v ← mapped (b.get_bool path name)
    give (is_true v)

  unfoldable pub first_payload : Option (List (ℕ × Option Bytes)) → Option Bytes
  first_payload (some ((company, some payload) ∷ rest)) = non_empty (from_utf8 payload)
  first_payload _ = none

  abbrev pub payload_of : Result String (Option (List (ℕ × Option Bytes))) → Option Bytes
  payload_of (good found) = first_payload found
  payload_of (bad e) = none

  unfoldable pub payload_after : Bytes → Result String (Unit {0}) → Task S Error (Option Bytes)
  payload_after path (good u) = do r ← call (b.manufacturer_data path); give (payload_of r)
  payload_after path (bad e) = give none

  -- `manufacturer_payload`, which fails to `None`.
  unfoldable pub manufacturer_payload : Bytes → Task S Error (Option Bytes)
  manufacturer_payload path = do
    made ← call (b.proxy path properties_interface)
    payload_after path made

  -- `disconnect`.
  unfoldable pub disconnect_device : Bytes → Task S Error (Unit {0})
  disconnect_device path = do mapped (b.proxy path device_interface); mapped (b.disconnect path)

  abbrev up_in : Option (S × Result Error Bool) → Option (S × Bool)
  up_in none = none
  up_in (some (w, good up)) = some (w, up)
  up_in (some (w, bad e)) = some (w, false)

  -- `is_connected`, where a read that fails counts as not connected.
  unfoldable pub still_connected : Bytes → S → Option (S × Bool)
  still_connected path w = up_in (prop_bool path "Connected" w)
