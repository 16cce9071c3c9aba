-- ===== src/Protocol/Types.antt =====
-- src/protocol.rs: the data types of the wire protocol, and its constants.
use allsquare.Base.{ℕ, ℤ, Bool, true, false, ◌&&◌, Option, ◌==◌, if◌then◌else◌, Bytes}
use allsquare.Club.{Club, Handed}

abbrev pub command_len : ℕ
command_len = 9

abbrev pub heartbeat_secs : ℕ
heartbeat_secs = 5

pub data SpinMode : Type 0 where
  standard advanced : SpinMode

pub data SpeedUnit : Type 0 where
  meters_per_second miles_per_hour : SpeedUnit

-- `speed as u8`.
abbrev pub speed_code : SpeedUnit → ℕ
speed_code meters_per_second = 0
speed_code miles_per_hour = 1

pub data DistanceUnit : Type 0 where
  meter yard_feet yard_yard : DistanceUnit

-- `distance as u8`.
abbrev pub distance_code : DistanceUnit → ℕ
distance_code meter = 0
distance_code yard_feet = 1
distance_code yard_yard = 2

pub data Command : Type 0 where
  detect_ball : Bool → SpinMode → Command
  select_club : Club → Handed → Command
  heartbeat : Command
  query : Command
  request_club_metrics : Command
  set_units : SpeedUnit → DistanceUnit → Command
  set_green_speed : ℕ → Command
  set_carry_adjustment : ℕ → Command

pub data DeviceState : Type 0 where
  none idle init detect ready shot finished : DeviceState
  unknown : ℕ → DeviceState

-- `DeviceState::from`.
unfoldable pub device_state : ℕ → DeviceState
device_state v =
    if v == 0
    then DeviceState.none
    else if v == 1
    then idle
    else if v == 2
    then init
    else if v == 3
    then detect
    else if v == 4
    then ready
    else if v == 5
    then shot
    else if v == 6
    then finished
    else DeviceState.unknown v

pub data ChargingState : Type 0 where
  not_charging discharging charging full no_battery unknown : ChargingState

-- `ChargingState::from`.
unfoldable pub charging_state : ℕ → ChargingState
charging_state v =
    if v == 0
    then not_charging
    else if v == 1
    then discharging
    else if v == 2
    then charging
    else if v == 3
    then full
    else if v == 4
    then no_battery
    else ChargingState.unknown

-- Ball launch data. An `i16` is the integer that it stands for.
pub record BallMetrics (F : Type 0) : Type 0 where
  pub shot_type : ℕ
  pub speed : F
  pub launch_angle : F
  pub direction : F
  pub total_spin : ℤ
  pub spin_axis : F
  pub back_spin : ℤ
  pub side_spin : ℤ

pub record ClubMetrics (F : Type 0) : Type 0 where
  pub mask : ℕ
  pub path : Option F
  pub face_angle : Option F
  pub attack_angle : Option F
  pub dynamic_loft : Option F
  pub impact_horizontal : Option F
  pub impact_vertical : Option F
  pub club_speed : Option F
  pub smash_factor : Option F

abbrev is_none : {F : Type 0} → Option F → Bool
is_none Option.none = true
is_none (Option.some v) = false

-- `ClubMetrics::is_empty`.
unfoldable pub is_empty : {F : Type 0} → ClubMetrics F → Bool
is_empty c = is_none c.club_speed && is_none c.path && is_none c.face_angle

pub record Sensor : Type 0 where
  pub ready : Bool
  pub detected : Bool
  pub position : ℤ × ℤ × ℤ

pub data Notification (F : Type 0) : Type 0 where
  sensor : Sensor → Notification F
  ball : BallMetrics F → Notification F
  heartbeat_ack : DeviceState → Notification F
  alignment : F → Notification F
  query_response : Bytes → Notification F
  club : ClubMetrics F → Notification F
  battery : ℕ → ChargingState → Notification F
  clock : ℕ → Notification F
