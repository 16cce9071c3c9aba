-- ===== src/Frp/Device.antt =====
-- src/frp/mod.rs: `FrpDevice`.
use allsquare.Base.{
  ℕ, Bool, true, false, [], Option, some, none, ◌==◌, if◌then◌else◌, Bytes, length,
}
use allsquare.Text.{is_some}
use allsquare.Frp.Types.{
  FrpEnvelope, closed, FrpResult, ok, err, Handedness, FrpClub, DetectionMode, FrpMessage,
  set_detection_mode, other_message,
}

-- What `FrpConnection::try_recv` comes to.
pub data Received : Type 0 where
  message : FrpMessage → Received
  nothing : Received
  lost : Received

-- The surroundings of a device, of state `V`: its connections, the channels of the acceptor thread,
-- and the system clock in nanoseconds since the epoch.
pub record Relay (V Conn F : Type 0) : Type 0 where
  pub send : V → Conn → FrpEnvelope F → V × FrpResult (Unit {0})
  pub try_recv : V → Conn → V × Received
  -- `request.send(()).is_ok()`.
  pub request : V → V × Bool
  -- `incoming.try_recv()`, where both of its errors give no connection.
  pub incoming : V → V × Option Conn
  pub nanos : V → V × ℕ

pub record ControllerCommand : Type 0 where
  pub mode : Option DetectionMode
  pub handed : Option Handedness
  pub club : Option FrpClub

unfoldable pub controller_command : FrpMessage → Option ControllerCommand
controller_command (set_detection_mode mode handed club) =
    some (record { mode = mode; handed = handed; club = club })
controller_command other_message = none

pub record FrpDevice (V Conn F : Type 0) : Type 0 where
  pub world : V
  pub conn : Option Conn
  pub pending : Bool
  pub telemetry : Option (FrpEnvelope F)
  pub device : Bytes
  pub firmware : Option Bytes
  pub model : Option Bytes
  pub shot_number : ℕ
  pub last_ready : Option Bool

-- A method of the device.
abbrev pub D : Type 0 → Type 0 → Type 0 → Type 0 → Type 0
D V Conn F A = FrpDevice V Conn F → FrpDevice V Conn F × FrpResult A

module _ {V Conn F A B : Type 0} where
  abbrev pub proceed :
      FrpDevice V Conn F × FrpResult A → (A → D V Conn F B) → FrpDevice V Conn F × FrpResult B
  proceed (d, ok a) f = f a d
  proceed (d, err e) f = (d, err e)

  infixl 5 ◌>>=◌ ◌>>◌
  abbrev pub ◌>>=◌ : D V Conn F A → (A → D V Conn F B) → D V Conn F B
  ◌>>=◌ m f d = proceed (m d) f

  abbrev pub ◌>>◌ : D V Conn F A → D V Conn F B → D V Conn F B
  ◌>>◌ m k d = proceed (m d) (λ _. k)

module _ {V Conn F : Type 0} where
  unfoldable pub is_connected : FrpDevice V Conn F → Bool
  is_connected d = is_some d.conn

  unfoldable pub set_device_name : Bytes → FrpDevice V Conn F → FrpDevice V Conn F
  set_device_name name d = record d { device = name }

  unfoldable pub set_firmware : Bytes → FrpDevice V Conn F → FrpDevice V Conn F
  set_firmware fw d = record d { firmware = some fw }

  unfoldable pub set_model : Bytes → FrpDevice V Conn F → FrpDevice V Conn F
  set_model model d = if length model == 0 then d else record d { model = some model }

module _ {V Conn F : Type 0} (r : Relay V Conn F) where
  unfoldable pub request_connection : FrpDevice V Conn F → FrpDevice V Conn F
  request_connection d =
      if d.pending
      then d
      else (let (w, sent) = r.request d.world in
          if sent then record d { world = w; pending = true } else record d { world = w })

  -- The device that `spawn` returns.
  unfoldable pub spawn : V → FrpDevice V Conn F
  spawn w = request_connection (record {
    world = w;
    conn = none;
    pending = false;
    telemetry = none;
    device = [];
    firmware = none;
    model = none;
    shot_number = 0;
    last_ready = none;
  })

  unfoldable pub drop_connection : FrpDevice V Conn F → FrpDevice V Conn F
  drop_connection d = request_connection (record d { conn = none })

  -- The `match` on the result of a send.
  unfoldable pub after_send : FrpResult (Unit {0}) → D V Conn F (Unit {0})
  after_send (ok u) d = (d, ok tt)
  after_send (err closed) d = (drop_connection d, ok tt)
  after_send (err e) d = (d, err e)

  -- `FrpDevice::send_envelope`, on the connection.
  unfoldable pub send_on : Option Conn → FrpEnvelope F → D V Conn F (Unit {0})
  send_on none env d = (d, ok tt)
  send_on (some conn) env d =
      let (w, sent) = r.send d.world conn env in after_send sent (record d { world = w })

  unfoldable pub send_envelope : FrpEnvelope F → D V Conn F (Unit {0})
  send_envelope env d = send_on d.conn env d

  -- The re-send of the cached telemetry.
  unfoldable pub resend : Option (FrpEnvelope F) → D V Conn F (Unit {0})
  resend none d = (d, ok tt)
  resend (some env) d = send_envelope env d

  unfoldable pub adopt : Option Conn → D V Conn F Bool
  adopt none d = (d, ok false)
  adopt (some conn) d =
      proceed (resend d.telemetry (record d { pending = false; conn = some conn }))
        (λ _ e. (e, ok true))

  unfoldable pub poll_connection : D V Conn F Bool
  poll_connection d =
      if is_some d.conn
      then (d, ok false)
      else (let (w, arrived) = r.incoming d.world in adopt arrived (record d { world = w }))

  unfoldable pub on_received :
      Received → FrpDevice V Conn F → FrpDevice V Conn F × Option ControllerCommand
  on_received (message m) d = (d, controller_command m)
  on_received lost d = (drop_connection d, none)
  on_received nothing d = (d, none)

  unfoldable pub check_on :
      Option Conn → FrpDevice V Conn F → FrpDevice V Conn F × Option ControllerCommand
  check_on none d = (d, none)
  check_on (some conn) d =
      let (w, got) = r.try_recv d.world conn in on_received got (record d { world = w })

  unfoldable pub check_controller :
      FrpDevice V Conn F → FrpDevice V Conn F × Option ControllerCommand
  check_controller d = check_on d.conn d
