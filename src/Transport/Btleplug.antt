-- ===== src/Transport/Btleplug.antt =====
-- src/btleplug_transport.rs: the life of a transport once it is connected.
pub mod Calls
pub mod Scan
pub mod Connect
pub mod Ending
pub mod Logic
pub mod Keeping
pub mod Releases
pub mod Picks
pub mod Sessions
use allsquare.Base.{ℕ, Bool, true, false, ◌||◌, List, [], ◌∷◌, ◌++◌, Bytes, if◌then◌else◌}
use allsquare.Error.{Io, done, failed, not_found, not_connected, Outcome, ok}
use allsquare.Protocol.Uuid
use allsquare.Transport.{Channel, read_channel}

-- The Bluetooth stack behind a peripheral, of state `S`. An operation ends, fails, or is given up at
-- its time limit, as an `io::Result` or as the error of `op`.
pub record Stack (S : Type 0) : Type 0 where
  pub disconnect : S → S × Outcome (Unit {0})
  pub is_connected : S → S × Bool
  pub has_characteristic : S → ℕ → Bool
  pub write : S → Bytes → S × Io (Unit {0})
  pub read : S → ℕ → S × Io Bytes

pub record BtleplugTransport (S : Type 0) : Type 0 where
  pub stack : S
  pub notifications : Channel
  -- The two flags of `Link`.
  pub down : Bool
  pub released : Bool
  -- The pump task runs.
  pub pumping : Bool
  pub closed : Bool

-- What the notification pump sees.
pub data Pumped : Type 0 where
  data_of : Bytes → Pumped
  link_closed : Bool → Pumped

module _ {S : Type 0} where
  -- The pump returns: its sender goes with it.
  abbrev pub end_pump : BtleplugTransport S → BtleplugTransport S
  end_pump t = record t {
    notifications = record { sent = t.notifications.sent; sender = false };
    pumping = false;
  }

  -- One round of the loop of `pump`, where the transport is still there to receive.
  unfoldable pub pump_item : Pumped → BtleplugTransport S → BtleplugTransport S
  pump_item (data_of v) t = record t {
    notifications = record { sent = t.notifications.sent ++ v ∷ []; sender = true };
  }
  pump_item (link_closed released) t = end_pump (record t { released = released; down = true })

  -- A round of the pump, if it runs.
  unfoldable pub pump : Pumped → BtleplugTransport S → BtleplugTransport S
  pump item t = if t.pumping then pump_item item t else t

  -- Rounds of the pump, one after the other.
  unfoldable pub pump_all : List Pumped → BtleplugTransport S → BtleplugTransport S
  pump_all [] t = t
  pump_all (item ∷ rest) t = pump_all rest (pump item t)

  -- The runtime drops the pump after it was aborted, which is after the transport was closed.
  unfoldable pub stop_pump : BtleplugTransport S → BtleplugTransport S
  stop_pump t = if t.closed then end_pump t else t

  unfoldable pub ensure_up : BtleplugTransport S → Io (Unit {0})
  ensure_up t =
      if t.closed || t.down
      then failed (record { kind = not_connected; message = "device disconnected" })
      else done tt

  -- `Transport::read`.
  unfoldable pub read_notification :
      BtleplugTransport S → Bytes → BtleplugTransport S × Bytes × Io ℕ
  read_notification t buf =
      let (c, filled, r) = read_channel t.notifications buf in
      (record t { notifications = c }, filled, r)

module _ {S : Type 0} (s : Stack S) where
  -- `BtleplugTransport::characteristic`.
  unfoldable pub characteristic : BtleplugTransport S → ℕ → Io ℕ
  characteristic t uuid =
      if s.has_characteristic t.stack uuid
      then done uuid
      else failed (record { kind = not_found; message = "characteristic not found" })

  -- `BtleplugTransport::is_connected`.
  unfoldable pub link_up : BtleplugTransport S → BtleplugTransport S × Bool
  link_up t =
      if t.closed || t.down
      then (t, false)
      else (let (w, up) = s.is_connected t.stack in (record t { stack = w }, up))

  -- The result of `disconnect`, with the state of the stack after it.
  unfoldable pub disconnect_stack : BtleplugTransport S → S × Outcome (Unit {0})
  disconnect_stack t = if t.released then (t.stack, ok tt) else s.disconnect t.stack

  -- `BtleplugTransport::disconnect`. The pump is a task of the runtime, and makes the rounds
  -- `meanwhile` from the read of `released` to the end of the request; it may make others after its
  -- abort, until `stop_pump`.
  unfoldable pub disconnect :
      List Pumped → BtleplugTransport S → BtleplugTransport S × Outcome (Unit {0})
  disconnect meanwhile t =
      if t.closed
      then (t, ok tt)
      else (let (w, result) = disconnect_stack t in
          (
            record (pump_all meanwhile (record t { stack = w })) { closed = true; down = true },
            result,
          ))

  -- `Drop::drop`, whose disconnect ignores its outcome.
  unfoldable pub drop_transport : BtleplugTransport S → S
  drop_transport t = if t.closed || t.released then t.stack else (s.disconnect t.stack).0

  -- What follows `ensure_up` and `characteristic` in `write`.
  unfoldable pub write_on :
      Io (Unit {0}) → Io ℕ → Bytes → BtleplugTransport S → BtleplugTransport S × Io (Unit {0})
  write_on (failed e) found bytes t = (t, failed e)
  write_on (done u) (failed e) bytes t = (t, failed e)
  write_on (done u) (done cmd) bytes t =
      let (w, r) = s.write t.stack bytes in (record t { stack = w }, r)

  -- `Transport::write`.
  unfoldable pub write_command : Bytes → BtleplugTransport S → BtleplugTransport S × Io (Unit {0})
  write_command bytes t = write_on (ensure_up t) (characteristic t Uuid.cmd) bytes t

  unfoldable pub read_on :
      Io (Unit {0}) → Io ℕ → BtleplugTransport S → BtleplugTransport S × Io Bytes
  read_on (failed e) found t = (t, failed e)
  read_on (done u) (failed e) t = (t, failed e)
  read_on (done u) (done ch) t = let (w, r) = s.read t.stack ch in (record t { stack = w }, r)

  -- `Transport::read_characteristic`.
  unfoldable pub read_value : ℕ → BtleplugTransport S → BtleplugTransport S × Io Bytes
  read_value uuid t = read_on (ensure_up t) (characteristic t uuid) t
