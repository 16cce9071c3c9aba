-- ===== src/Tests/Frames.antt =====
-- Frames of the device and of the tests of src/protocol.rs and src/testing.rs.
use allsquare.Base.{[], ◌∷◌, true, some, none, ◌≡◌, refl, arith, pos, negsuc, length}
use allsquare.Club.{from_code, iron5, wood5}
use allsquare.Club.Codes.{from_code_iff}
use allsquare.Error.{Error, Outcome, ok, err, index, slice, slice_from}
use allsquare.Protocol.Parse.{parse}
use allsquare.Protocol.Safety.{parse-NoPanic, parse-disconnected}
use allsquare.Protocol.Types.{
  Notification, device_state, charging_state, full, heartbeat, detect_ball, select_club, advanced,
}
use allsquare.Club.{right, pitching_wedge}
use allsquare.Protocol.Command.{encode}
use allsquare.Protocol.Encoding.{read_frame, read_frame-encode, encode_frame}
use allsquare.Testing.{wire, ball_notification, club_notification, heartbeat_ack, ball_fixture}
use allsquare.Testing.Balls.{BallWire, ball_of, parse-ball_notification}
use allsquare.Testing.Clubs
use allsquare.Testing.Clubs.{ClubWire, club_of, parse-club_notification}
use allsquare.Testing.States.{parse-heartbeat_ack}
use allsquare.Tests.Samples.{centi, centi-IsExact}

heartbeat_bytes : encode heartbeat 0x1c ≡ 0x00 ∷ 0x83 ∷ 0x1c ∷ 0 ∷ 0 ∷ 0 ∷ 0 ∷ 0 ∷ 0 ∷ []
unfolding encode
heartbeat_bytes = refl

select_bytes :
    encode (select_club pitching_wedge right) 0x06
    ≡ 0x00 ∷ 0x82 ∷ 0x06 ∷ 0x0a ∷ 0x02 ∷ 0x00 ∷ 0 ∷ 0 ∷ 0 ∷ []
unfolding encode
select_bytes = refl

parse_battery_bytes : parse centi (0x91 ∷ 0x64 ∷ 0x03 ∷ []) ≡ ok (Notification.battery 100 full)
unfolding parse charging_state index
parse_battery_bytes = refl

parse_clock_bytes :
    parse centi (0x71 ∷ 0 ∷ 0 ∷ 0 ∷ 0 ∷ 0 ∷ 0 ∷ 0x05 ∷ 0x51 ∷ []) ≡ ok (Notification.clock 0x0551)
unfolding parse index slice
parse_clock_bytes = refl

parse_sensor_bytes :
    parse centi (
      0x11 ∷ 0x01 ∷ 0x27 ∷ 0x01 ∷ 0x01 ∷ 0xb8 ∷ 0x22 ∷ 0 ∷ 0 ∷ 0xa4 ∷ 0xfb ∷ 0xff ∷ 0xff ∷ 0x36
      ∷ 0xff ∷ 0xff ∷ 0xff ∷ [])
    ≡ ok (
        Notification.sensor (record {
          ready = true;
          detected = true;
          position = (pos 8888, negsuc 1115, negsuc 201);
        }))
unfolding parse index
parse_sensor_bytes = refl

-- 40 m/s, 15 degrees, 1 degree, 5000 rpm, 2 degrees, 4990 rpm, 300 rpm.
abbrev fixture_wire : BallWire
fixture_wire = record {
  shot_type = 1;
  speed = pos 4000;
  launch_angle = pos 1500;
  direction = pos 100;
  total_spin = pos 5000;
  spin_axis = pos 200;
  back_spin = pos 4990;
  side_spin = pos 300;
}

fixture_bytes : ball_notification centi (ball_of centi fixture_wire) ≡ ball_fixture
unfolding ball_notification wire
fixture_bytes = refl

from_code_iff_example : (from_code 5 2 ≡ some iron5) × (from_code 5 1 ≡ some wood5)
unfolding from_code
from_code_iff_example =
    ((from_code_iff 5 2 iron5).1 (refl, refl), (from_code_iff 5 1 wood5).1 (refl, refl))

read_frame-encode_example :
    read_frame (encode (detect_ball true advanced) 0x0a) ≡ some (detect_ball true advanced)
read_frame-encode_example = read_frame-encode (detect_ball true advanced) 0x0a

encode_frame_example : length (encode heartbeat 0x1c) ≡ 9
encode_frame_example = (encode_frame heartbeat 0x1c).0

parse-NoPanic_example : allsquare.Error.NoPanic (parse centi (0x11 ∷ 0x02 ∷ []))
parse-NoPanic_example = parse-NoPanic centi (0x11 ∷ 0x02 ∷ [])

parse-disconnected_example : parse centi [] ≡ err Error.disconnected
parse-disconnected_example = (parse-disconnected centi []).1 refl

parse-ball_notification_example :
    parse centi (ball_notification centi (ball_of centi fixture_wire))
    ≡ ok (Notification.ball (ball_of centi fixture_wire))
parse-ball_notification_example =
    parse-ball_notification centi fixture_wire centi-IsExact (omega arith)

-- A wedge chip with a partial mask: bits 0, 2 and 6.
abbrev partial_wire : ClubWire
partial_wire = record {
  mask = 0x45;
  path = some (negsuc 249);
  face_angle = none;
  attack_angle = some (negsuc 399);
  dynamic_loft = none;
  impact_horizontal = none;
  impact_vertical = none;
  club_speed = some (pos 3850);
  smash_factor = none;
}

partial_wire-IsWire : Clubs.IsWire partial_wire
partial_wire-IsWire = record {
  mask = omega arith;
  path = (omega arith, (λ e. cc), λ e. cc);
  face_angle = tt;
  attack_angle = (omega arith, (λ e. cc), λ e. cc);
  dynamic_loft = tt;
  impact_horizontal = tt;
  impact_vertical = tt;
  club_speed = (omega arith, (λ e. cc), λ e. cc);
  smash_factor = tt;
}

parse-club_notification_example :
    parse centi (club_notification centi (club_of centi partial_wire))
    ≡ ok (Notification.club (club_of centi partial_wire))
parse-club_notification_example =
    parse-club_notification centi partial_wire centi-IsExact centi-IsExact partial_wire-IsWire

parse-heartbeat_ack_example :
    parse centi (heartbeat_ack (device_state 4)) ≡ ok (Notification.heartbeat_ack (device_state 4))
parse-heartbeat_ack_example = parse-heartbeat_ack centi 4
