-- ===== src/Frp/Events.antt =====
-- src/frp/mod.rs: the envelopes that `FrpDevice::handle_event` sends.
use allsquare.Base.{
  ℕ, ◌+◌, ◌/◌, ◌%◌, ◌^◌, Bool, true, false, not, ◌&&◌, List, [], ◌∷◌, ◌++◌, Option, some, none, ltb,
  if◌then◌else◌, Bytes,
}
use allsquare.Build.{Build}
use allsquare.Protocol.Types.{BallMetrics, ClubMetrics, DeviceState, ready}
use allsquare.Text.{codes, is_some}
use allsquare.Client.State.{Event}
use allsquare.Frp.Convert.{ball_flight, club_data, impact_location}
use allsquare.Frp.Types.{ShotKey, TelemetryKey, FrpEvent, FrpEnvelope, ok, FaceImpact}
use allsquare.Frp.Uuid.{uuid_v4}
use allsquare.Frp.Device.{Relay, FrpDevice, D, proceed, ◌>>=◌, ◌>>◌, send_envelope}

-- `bool::to_string` and `u8::to_string`.
abbrev pub show_bool : Bool → Bytes
show_bool true = codes "true"
show_bool false = codes "false"

abbrev pub show_u8 : ℕ → Bytes
show_u8 n =
    if ltb n 10
    then (b'0' + n) ∷ []
    else if ltb n 100
    then (b'0' + n / 10) ∷ (b'0' + n % 10) ∷ []
    else (b'0' + n / 100) ∷ (b'0' + n / 10 % 10) ∷ (b'0' + n % 10) ∷ []

abbrev pub manufacturer_name : Bytes
manufacturer_name = codes "Invant"

-- `ready.is_some() && ready == self.last_ready`.
abbrev pub repeats : Option Bool → Option Bool → Bool
repeats none last = false
repeats (some r) none = false
repeats (some true) (some l) = l
repeats (some false) (some l) = not l

-- `self.last_ready.unwrap_or(false)`.
abbrev pub known_ready : Option Bool → Bool
known_ready none = false
known_ready (some r) = r

abbrev pub battery_entry : Option ℕ → List (TelemetryKey × Bytes)
battery_entry none = []
battery_entry (some pct) = (TelemetryKey.battery_pct, show_u8 pct) ∷ []

-- The map of a telemetry envelope.
abbrev pub telemetry_map : Option Bool → Option ℕ → List (TelemetryKey × Bytes)
telemetry_map last_ready battery =
    (TelemetryKey.ready, show_bool (known_ready last_ready)) ∷ battery_entry battery

module _ {F : Type 0} (b : Build F) where
  abbrev pub impact_event : ShotKey → Option (FaceImpact F) → List (FrpEvent F)
  impact_event key none = []
  impact_event key (some impact) = FrpEvent.face_impact key impact ∷ []

  abbrev pub club_events : ShotKey → Option (ClubMetrics F) → List (FrpEvent F)
  club_events key none = []
  club_events key (some club) =
      FrpEvent.club_path key (club_data b club) ∷ impact_event key (impact_location b club)

  -- The envelopes' events of one shot.
  unfoldable pub shot_events : ShotKey → BallMetrics F → Option (ClubMetrics F) → List (FrpEvent F)
  shot_events key ball club =
      FrpEvent.shot_trigger key
      ∷ FrpEvent.ball_flight key (ball_flight b ball)
      ∷ (club_events key club ++ FrpEvent.shot_finished key ∷ [])

-- `DeviceState::Ready` is told from the other states.
abbrev pub is_ready : DeviceState → Bool
is_ready ready = true
is_ready _ = false

module _ {V Conn F : Type 0} where
  -- `if let Some(r) = ready { self.last_ready = Some(r) }`.
  abbrev pub noted : Option Bool → FrpDevice V Conn F → FrpDevice V Conn F
  noted none d = d
  noted (some x) d = record d { last_ready = some x }

  abbrev pub telemetry_envelope : FrpDevice V Conn F → Option ℕ → FrpEnvelope F
  telemetry_envelope d battery = record {
    device = d.device;
    event = FrpEvent.device_telemetry (record {
      manufacturer = some manufacturer_name;
      model = d.model;
      firmware = d.firmware;
      telemetry = telemetry_map d.last_ready battery;
    });
  }

module _ {V Conn F : Type 0} (r : Relay V Conn F) where
  unfoldable pub send_telemetry : Option Bool → Option ℕ → D V Conn F (Unit {0})
  send_telemetry now battery d =
      if not (is_some battery) && repeats now d.last_ready
      then (d, ok tt)
      else (let d' = noted now d in
          let env = telemetry_envelope d' battery in
          send_envelope r env (record d' { telemetry = some env }))

  unfoldable pub send_device_info : D V Conn F (Unit {0})
  send_device_info = send_telemetry none none

  -- The loop of `send_events`.
  unfoldable pub send_events : List (FrpEvent F) → D V Conn F (Unit {0})
  send_events [] d = (d, ok tt)
  send_events (event ∷ rest) d =
      if is_some d.conn
      then proceed (send_envelope r (record { device = d.device; event = event }) d)
          (λ _. send_events rest)
      else (d, ok tt)

  -- `self.shot_number += 1` on a `u32`, which wraps in a release build, and the key of the shot.
  unfoldable pub next_key : D V Conn F ShotKey
  next_key d =
      let n = (d.shot_number + 1) % 2 ^ 32 in
      let (w, t) = r.nanos d.world in
      (
        record d { world = w; shot_number = n },
        ok (record { shot_id = uuid_v4 t; shot_number = n }),
      )

  unfoldable pub handle_shot :
      Build F → BallMetrics F → Option (ClubMetrics F) → D V Conn F (Unit {0})
  handle_shot b ball club = do
    send_telemetry (some false) none
    key ← next_key
    send_events (shot_events b key ball club)

  unfoldable pub handle_event : Build F → Event F → D V Conn F (Unit {0})
  handle_event b (Event.state_changed s) = send_telemetry (some (is_ready s)) none
  handle_event b (Event.battery percent s) = send_telemetry none (some percent)
  handle_event b (Event.shot ball club) = handle_shot b ball club
  handle_event b _ = λ d. (d, ok tt)
