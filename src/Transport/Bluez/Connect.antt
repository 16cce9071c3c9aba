-- ===== src/Transport/Bluez/Connect.antt =====
-- src/bluez.rs: the search for a device, `connect`, and the thread that receives signals.
use Prim.Native.String.{String}
use allsquare.Base.{
  ℕ, zero, suc, ◌+◌, Bool, true, false, ◌&&◌, not, [], ◌∷◌, ◌++◌, Option, some, none, Bytes,
  if◌then◌else◌, ltb,
}
use allsquare.Error.{Error, backend, not_found}
use allsquare.Protocol.Uuid
use allsquare.Text.{codes, is_some}
use allsquare.Transport.Bluez.{Hit, look, path_of, BluezTransport}
use allsquare.Transport.Bluez.Dbus.{
  Dbus, scan_limit, resolve_timeout, settle_pause, adapter_interface, char_interface, mapped,
  checked, managed, characteristics, prop_set, prop_bool, manufacturer_payload,
}
use allsquare.Transport.Tasks.{from_millis, good, Task, give, raise, call, pause, ◌>>=◌, ◌>>◌}

-- A signal on the characteristic EVT: one that cannot be read, or the value among the properties
-- that changed, if it is there and holds bytes.
pub data Signal : Type 0 where
  unreadable : Signal
  changed : Option Bytes → Signal

module _ {S : Type 0} where
  -- A round of the signal thread, where the transport is still there to receive.
  unfoldable pub receive_signal : Signal → BluezTransport S → BluezTransport S
  receive_signal unreadable t = t
  receive_signal (changed none) t = t
  receive_signal (changed (some bytes)) t = record t {
    notifications = record { sent = t.notifications.sent ++ bytes ∷ []; sender = true };
  }

module _ {S : Type 0} (b : Dbus S) where
  -- The search among the objects that the bus has now.
  unfoldable pub look_now : Option Bytes → Task S Error (Option Hit)
  look_now pin = do objects ← managed b; give (look pin objects)

  -- The closure `scan`, which ignores how its call ends.
  unfoldable pub set_scan : Bytes → Bool → Task S Error (Unit {0})
  set_scan adapter_path on = do
    mapped (b.proxy adapter_path adapter_interface)
    ignored ← call (b.discovery on adapter_path)
    give tt

  unfoldable pub look_loop : ℕ → ℕ → Option Bytes → Option Hit → Task S Error (Option Hit)
  look_loop zero deadline pin hit w = none
  look_loop (suc n) deadline pin hit w =
      (do
        t ← call b.now
        if ltb t deadline && not (is_some hit)
            then (do
              pause (b.sleep (from_millis 250))
              hit' ← look_now pin
              look_loop n deadline pin hit')
            else give hit)
        w

  unfoldable pub hit_or : Option Hit → Task S Error Hit
  hit_or (some hit) = give hit
  hit_or none = raise not_found

  -- `find`, where the first look finds nothing.
  unfoldable pub search : ℕ → Bytes → Option Bytes → Task S Error Hit
  search rounds adapter_path pin = do
    set_scan adapter_path true
    t ← call b.now
    hit ← look_loop rounds (t + scan_limit) pin none
    set_scan adapter_path false
    pause (b.sleep settle_pause)
    hit_or hit

  unfoldable pub hit_or_search : ℕ → Bytes → Option Bytes → Option Hit → Task S Error Hit
  hit_or_search rounds adapter_path pin (some hit) = give hit
  hit_or_search rounds adapter_path pin none = search rounds adapter_path pin

  -- `find`.
  unfoldable pub find_device : ℕ → Bytes → Option Bytes → Task S Error Hit
  find_device rounds adapter_path pin = do
    hit ← look_now pin
    hit_or_search rounds adapter_path pin hit

  -- The wait for `ServicesResolved`, after it was read.
  unfoldable pub resolved : ℕ → Bool → Task S Error (Unit {0}) → Task S Error (Unit {0})
  resolved deadline true rest = give tt
  resolved deadline false rest = do
    t ← call b.now
    if ltb deadline t
        then raise (backend "services never resolved")
        else (pause (b.sleep (from_millis 100)) >> rest)

  unfoldable pub resolve_loop : ℕ → ℕ → Bytes → Task S Error (Unit {0})
  resolve_loop zero deadline device_path w = none
  resolve_loop (suc n) deadline device_path w =
      (do
        up ← prop_bool b device_path "ServicesResolved"
        resolved deadline up (resolve_loop n deadline device_path))
        w

  -- Trust first, then the call whose reply never comes, and the wait for the services.
  unfoldable pub bring_up : ℕ → Bytes → Task S Error (Unit {0})
  bring_up rounds device_path = do
    prop_set b device_path
    checked (b.connect_message device_path)
    mapped (b.send_connect device_path)
    t ← call b.now
    resolve_loop rounds (t + resolve_timeout) device_path

  unfoldable pub required : String → Option Bytes → Task S Error Bytes
  required name (some path) = give path
  required name none = raise (backend name)

  -- Listening to the signals of a characteristic before it is told to notify, and the thread.
  unfoldable pub listen_to : Bytes → Task S Error (Unit {0})
  listen_to evt_path = do
    checked (b.match_rule evt_path)
    mapped (b.listen evt_path)
    mapped (b.proxy evt_path char_interface)
    mapped (b.start_notify evt_path)
    mapped b.spawn

  -- What `connect` does with the device that it found.
  unfoldable pub connect_to : ℕ → Hit → Task S Error (BluezTransport S)
  connect_to rounds hit = do
    hint ← manufacturer_payload b hit.path
    bring_up rounds hit.path
    chars ← characteristics b hit.path
    cmd_path ← required "CMD characteristic missing" (path_of Uuid.cmd chars)
    evt_path ← required "EVT characteristic missing" (path_of Uuid.evt chars)
    listen_to evt_path
    λ w. some (
      w,
      good (record {
        conn = w;
        cmd_path = cmd_path;
        name = hit.name;
        address = hit.address;
        model_hint = hint;
        notifications = record { sent = []; sender = true };
        chars = chars;
      }),
    )

  -- `connect`, with `rounds` for each of its loops.
  unfoldable pub connect_bluez : ℕ → Option Bytes → Bytes → Task S Error (BluezTransport S)
  connect_bluez rounds pin adapter = do
    mapped b.system
    adapter_path ← checked (b.object_path (codes "/org/bluez/" ++ adapter))
    hit ← find_device rounds adapter_path pin
    connect_to rounds hit
