-- ===== src/Frp/Types.antt =====
-- The values of the flightrelay crate that src/frp builds or reads, as it builds and reads them: of
-- a type with more cases or fields, those that it names.
use allsquare.Base.{ℕ, ℤ, List, Option, Bytes}

-- A quantity in meters per second, and one in millimeters.
pub data Velocity (F : Type 0) : Type 0 where
  meters_per_second : F → Velocity F

pub data Distance (F : Type 0) : Type 0 where
  millimeters : F → Distance F

pub record BallFlight (F : Type 0) : Type 0 where
  pub launch_speed : Option (Velocity F)
  pub launch_azimuth : Option F
  pub launch_elevation : Option F
  pub backspin_rpm : Option ℤ
  pub sidespin_rpm : Option ℤ
  pub total_spin_rpm : Option ℤ
  pub spin_axis : Option F

pub record FrpClubData (F : Type 0) : Type 0 where
  pub club_speed : Option (Velocity F)
  pub path : Option F
  pub attack_angle : Option F
  pub face_angle : Option F
  pub dynamic_loft : Option F
  pub smash_factor : Option F

pub record FaceImpact (F : Type 0) : Type 0 where
  pub lateral : Option (Distance F)
  pub vertical : Option (Distance F)

pub record ShotKey : Type 0 where
  pub shot_id : Bytes
  pub shot_number : ℕ

-- The keys of the telemetry map.
pub data TelemetryKey : Type 0 where
  ready battery_pct : TelemetryKey

pub record Telemetry : Type 0 where
  pub manufacturer : Option Bytes
  pub model : Option Bytes
  pub firmware : Option Bytes
  pub telemetry : List (TelemetryKey × Bytes)

pub data FrpEvent (F : Type 0) : Type 0 where
  shot_trigger : ShotKey → FrpEvent F
  ball_flight : ShotKey → BallFlight F → FrpEvent F
  club_path : ShotKey → FrpClubData F → FrpEvent F
  face_impact : ShotKey → FaceImpact F → FrpEvent F
  shot_finished : ShotKey → FrpEvent F
  device_telemetry : Telemetry → FrpEvent F

pub record FrpEnvelope (F : Type 0) : Type 0 where
  pub device : Bytes
  pub event : FrpEvent F

-- `FrpError::Closed`, and every other error.
pub data FrpError : Type 0 where
  closed : FrpError
  other : ℕ → FrpError

pub data FrpResult (A : Type 0) : Type 0 where
  ok : A → FrpResult A
  err : FrpError → FrpResult A

pub data Handedness : Type 0 where
  right left : Handedness

-- The clubs of the protocol; `unnamed` are those that the adapter has no name for.
pub data FrpClub : Type 0 where
  driver wood3 wood5 wood7 hybrid3 hybrid4 hybrid5 : FrpClub
  iron3 iron4 iron5 iron6 iron7 iron8 iron9 : FrpClub
  pitching_wedge gap_wedge sand_wedge lob_wedge putter : FrpClub
  unnamed : ℕ → FrpClub

-- A detection mode, which the adapter passes on and does not look at.
pub data DetectionMode : Type 0 where
  mode : ℕ → DetectionMode

pub data FrpMessage : Type 0 where
  set_detection_mode : Option DetectionMode → Option Handedness → Option FrpClub → FrpMessage
  other_message : FrpMessage
