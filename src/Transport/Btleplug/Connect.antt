-- ===== src/Transport/Btleplug/Connect.antt =====
-- src/btleplug_transport.rs: the process's runtime and cached session, and `connect`.
use Prim.Native.String.{String, ◌++◌}
use allsquare.Transport.Tasks.{
  Result, good, bad, Task, give, raise, call, pause, ◌>>=◌, ◌>>◌, caught, as_outcome,
}
use allsquare.Base.{
  ℕ, Bool, true, false, ◌==◌, ◌||◌, List, [], ◌∷◌, Option, some, none, Bytes, if◌then◌else◌,
}
use allsquare.Error.{Io, done, failed, other, timed_out, Error, backend}
use allsquare.Protocol.Names.{advertised_name}
use allsquare.Protocol.Uuid
use allsquare.Transport.Btleplug.{Stack, BtleplugTransport}
use allsquare.Transport.Btleplug.Calls.{
  settle_time, init_timeout, connect_timeout, op_timeout, cancel_timeout, Answer, ended, refused,
  denied, elapsed, System, op, op_result,
}
use allsquare.Transport.Btleplug.Scan.{Found, ScanFailure, or_else, read_advertised_name, find}

-- The statics of the process, and the state of the operating system: whether `RUNTIME` is set, and
-- what `SCANNER` holds.
pub record Process (W A : Type 0) : Type 0 where
  pub world : W
  pub runtime : Bool
  pub scanner : Option A

-- A transport as `connect` returns it: what it owns, and the device's name and address.
pub record Opened (A P : Type 0) : Type 0 where
  pub adapter : A
  pub peripheral : P
  pub name : Bytes
  pub address : Bytes

-- What became of an attempt on an adapter: given up with no connection, and whether the adapter may
-- scan again; or a connection was held, with the result of what follows it.
pub data Attempt (A P : Type 0) : Type 0 where
  gave_up : Error → Bool → Attempt A P
  held : Result Error (Opened A P) → Attempt A P

-- `find(|c| c.uuid == want)` on the characteristics.
unfoldable pub has_uuid : ℕ → List ℕ → Bool
has_uuid uuid [] = false
has_uuid uuid (u ∷ rest) = u == uuid || has_uuid uuid rest

module _ {A : Type 0} where
  -- `park`, on the slot.
  unfoldable pub park : A → Option A → Option A
  park a (some parked) = some parked
  park a none = some a

  module _ {P : Type 0} where
    -- The slot after an attempt on an adapter: where it may scan again, it is parked.
    unfoldable pub slot_after : A → Attempt A P → Option A → Option A
    slot_after a (gave_up e true) slot = park a slot
    slot_after a (gave_up e false) slot = slot
    slot_after a (held r) slot = slot

    unfoldable pub result_of : Attempt A P → Result Error (Opened A P)
    result_of (gave_up e reusable) = bad e
    result_of (held r) = r

module _ {W A : Type 0} where
  abbrev pub within_at :
      {E B : Type 0} → Process W A → Option (W × Result E B) → Option (Process W A × Result E B)
  within_at p none = none
  within_at p (some (w, r)) = some (record p { world = w }, r)

  -- What leaves the statics alone.
  abbrev pub within : {E B : Type 0} → Task W E B → Task (Process W A) E B
  within m p = within_at p (m p.world)

module _ {W A P : Type 0} (s : System W A P) where
  unfoldable pub built :
      Process W A → W × Option String → Option (Process W A × Result Error (Unit {0}))
  built p (w, none) = some (record p { world = w; runtime = true }, good tt)
  built p (w, some e) = some (record p { world = w }, bad (backend ("Bluetooth runtime: " ++ e)))

  -- `runtime`.
  unfoldable pub runtime : Task (Process W A) Error (Unit {0})
  unfolding built
  runtime p = if p.runtime then some (p, good tt) else built p (s.build_runtime p.world)

  unfoldable pub first_adapter : List A → Task W Error A
  first_adapter [] = raise (backend "no Bluetooth adapter found")
  first_adapter (a ∷ rest) = give a

  -- A new session: the block that `take_scanner` runs where nothing is cached.
  unfoldable pub open_session : Task W Error A
  open_session = do
    op "Bluetooth init" (s.new_manager init_timeout)
    found ← op "Bluetooth init" (s.adapters init_timeout)
    first_adapter found

  unfoldable pub cached_or_new : Option A → Task (Process W A) Error A
  cached_or_new (some a) = give a
  cached_or_new none = within open_session

  -- `take_scanner`.
  unfoldable pub take_scanner : Task (Process W A) Error A
  take_scanner p = cached_or_new p.scanner (record p { scanner = none })

  -- `release`.
  unfoldable pub release : ℕ → P → Task W Error (Unit {0})
  release limit p = do ignored ← call (s.disconnect limit p); give tt

  unfoldable pub if_refused : P → Result Error (Unit {0}) → Task W Error (Unit {0})
  if_refused p (good u) = give tt
  if_refused p (bad e) = release cancel_timeout p >> raise e

  -- The block of `connect` from the adapter's events to the link.
  unfoldable pub link : A → P → Task W Error (Unit {0})
  link a p = do
    op "events" (s.events op_timeout a)
    pause (s.sleep settle_time)
    connected ← caught (op "connect" (s.connect connect_timeout p))
    if_refused p connected

  unfoldable pub evt_of : P → W → Result Error ℕ
  evt_of p w =
      if has_uuid Uuid.evt (s.characteristics p w)
      then good Uuid.evt
      else bad (backend "EVT characteristic missing")

  -- `subscribe`.
  unfoldable pub subscribe : P → Task W Error (Unit {0})
  subscribe p = do
    pause (s.sleep settle_time)
    op "discover" (s.discover_services op_timeout p)
    evt ← λ w. some (w, evt_of p w)
    op "notifications" (s.notifications op_timeout p)
    op "subscribe" (s.subscribe op_timeout p evt)

  unfoldable pub if_unsubscribed : P → Result Error (Unit {0}) → Task W Error (Unit {0})
  if_unsubscribed p (good u) = give tt
  if_unsubscribed p (bad e) = release op_timeout p >> raise e

  unfoldable pub opened_name : ℕ → P → Bytes → Option Bytes → Task W Error Bytes
  opened_name rounds p name (some advertised) = give name
  opened_name rounds p name none = do
    read ← read_advertised_name s rounds p 0
    give (or_else name read)

  -- What follows the attempt to subscribe: the end of `connect`.
  unfoldable pub finish : ℕ → A → Found P → Result Error (Unit {0}) → Task W Error (Opened A P)
  finish rounds a found subscribed = do
    if_unsubscribed found.peripheral subscribed
    name ← opened_name rounds found.peripheral found.name (advertised_name found.name)
    give (record {
      adapter = a;
      peripheral = found.peripheral;
      name = name;
      address = found.address;
    })

  -- What `connect` does once the session has held a connection.
  unfoldable pub open_transport : ℕ → A → Found P → Task W Error (Opened A P)
  open_transport rounds a found = do
    subscribed ← caught (subscribe found.peripheral)
    finish rounds a found subscribed

  unfoldable pub after_link : ℕ → A → Found P → Result Error (Unit {0}) → Task W Error (Attempt A P)
  after_link rounds a found (bad e) = give (gave_up e true)
  after_link rounds a found (good u) = do r ← caught (open_transport rounds a found); give (held r)

  unfoldable pub after_find : ℕ → A → Result ScanFailure (Found P) → Task W Error (Attempt A P)
  after_find rounds a (bad failure) = give (gave_up failure.error failure.reusable)
  after_find rounds a (good found) = do
    linked ← caught (link a found.peripheral)
    after_link rounds a found linked

  -- The part of `connect` that has the adapter to itself, on the operating system.
  unfoldable pub attempt : ℕ → A → Option Bytes → Task W Error (Attempt A P)
  attempt rounds a pin = do found ← caught (find s rounds a pin); after_find rounds a found

  -- What `connect` returns after an attempt, with the slot as it leaves it.
  unfoldable pub settle : A → Attempt A P → Task (Process W A) Error (Opened A P)
  settle a became p = some (record p { scanner = slot_after a became p.scanner }, result_of became)

  -- `connect`, with `rounds` for each of its loops.
  unfoldable pub connect : ℕ → Option Bytes → Task (Process W A) Error (Opened A P)
  connect rounds pin = do
    runtime
    a ← take_scanner
    became ← within (attempt rounds a pin)
    settle a became

  -- `io_op`, from how the call ended.
  unfoldable pub io_result : {B : Type 0} → String → Answer B → Io B
  io_result name (ended a) = done a
  io_result name (denied e) = failed (record { kind = other; message = name ++ (": " ++ e) })
  io_result name (refused e) = failed (record { kind = other; message = name ++ (": " ++ e) })
  io_result name elapsed = failed (record { kind = timed_out; message = name ++ ": timed out" })

  -- `matches!(…, Ok(Ok(true)))`.
  unfoldable pub answered_true : Answer Bool → Bool
  answered_true (ended up) = up
  answered_true _ = false

  -- The stack as the transport of a peripheral uses it.
  unfoldable pub stack_of : P → Stack W
  stack_of p = record {
    disconnect = λ w.
        let (w', a) = s.disconnect op_timeout p w in (w', as_outcome (op_result "disconnect" a));
    is_connected = λ w. let (w', a) = s.is_connected op_timeout p w in (w', answered_true a);
    has_characteristic = λ w uuid. has_uuid uuid (s.characteristics p w);
    write = λ w frame. let (w', a) = s.write op_timeout p frame w in (w', io_result "write" a);
    read = λ w uuid. let (w', a) = s.read op_timeout p uuid w in (w', io_result "read" a);
  }

-- The fields that `connect` starts a transport with.
unfoldable pub fresh_transport : {W : Type 0} → W → BtleplugTransport W
fresh_transport w = record {
  stack = w;
  notifications = record { sent = []; sender = true };
  down = false;
  released = false;
  pumping = true;
  closed = false;
}
