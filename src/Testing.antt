-- ===== src/Testing.antt =====
-- src/testing.rs: the notification fixtures and encoders of the `testing` feature.
pub mod States
pub mod Balls
pub mod Clubs
use allsquare.Base.{
  ℕ, ◌+◌, ◌*◌, ◌/◌, ◌%◌, ◌^◌, List, [], ◌∷◌, ◌++◌, Option, some, none, set, replicate, Bytes, ℤ,
  pos, negsuc, word16, bit_or,
}
use allsquare.Build.{Build, lit}
use allsquare.Protocol.Parse.{club_sentinel, club_scale, impact_scale}
use allsquare.Protocol.Types.{
  DeviceState, idle, init, detect, ready, shot, finished, BallMetrics, ClubMetrics,
}

abbrev pub typical_shot_type : ℕ
typical_shot_type = 0x37

-- `BALL_NOTIFICATION`.
abbrev pub ball_fixture : Bytes
ball_fixture =
    0x11 ∷ 0x02 ∷ 0x01 ∷ 0xa0 ∷ 0x0f ∷ 0xdc ∷ 0x05 ∷ 0x64 ∷ 0x00 ∷ 0x88 ∷ 0x13 ∷ 0xc8 ∷ 0x00 ∷ 0x7e
    ∷ 0x13 ∷ 0x2c ∷ 0x01 ∷ []

-- `QUERY_RESPONSE`.
abbrev pub query_fixture : Bytes
query_fixture = 0x11 ∷ 0x06 ∷ 0x17 ∷ 0x01 ∷ 0x00 ∷ []

abbrev pub club_notification_no_data : Bytes
club_notification_no_data = 0x11 ∷ 0x07 ∷ 0x00 ∷ []

-- `b[off..off + 2].copy_from_slice(&v.to_le_bytes())`.
abbrev pub put16 : Bytes → ℕ → ℤ → Bytes
put16 b off v = set (set b off (word16 v % 256)) (off + 1) (word16 v / 256)

unfoldable pub state_byte : DeviceState → ℕ
state_byte DeviceState.none = 0
state_byte idle = 1
state_byte init = 2
state_byte detect = 3
state_byte ready = 4
state_byte shot = 5
state_byte finished = 6
state_byte (DeviceState.unknown v) = v

unfoldable pub heartbeat_ack : DeviceState → Bytes
unfolding state_byte
heartbeat_ack state = 0x11 ∷ 0x03 ∷ 0x85 ∷ state_byte state ∷ 0x04 ∷ 0x03 ∷ 0x00 ∷ 0x00 ∷ 0x00 ∷ []

unfoldable pub query_response : Bytes → Bytes
query_response payload = (0x11 ∷ 0x06 ∷ []) ++ payload

module _ {F : Type 0} (b : Build F) where
  abbrev pub ball_metrics : BallMetrics F
  ball_metrics = record {
    shot_type = typical_shot_type;
    speed = lit b 0;
    launch_angle = lit b 0;
    direction = lit b 0;
    total_spin = pos 0;
    spin_axis = lit b 0;
    back_spin = pos 0;
    side_spin = pos 0;
  }

  unfoldable pub wire : F → F → ℤ
  wire value scale =
      b.as_i16
        (b.clamp (b.round (b.mul value scale)) (b.of_int (negsuc 32767)) (b.of_int (pos 32767)))

  unfoldable pub ball_notification : BallMetrics F → Bytes
  ball_notification m =
      let b0 = set (set (set (replicate 17 0) 0 0x11) 1 0x02) 2 m.shot_type in
      let b1 = put16 b0 3 (wire m.speed (lit b 100)) in
      let b2 = put16 b1 5 (wire m.launch_angle (lit b 100)) in
      let b3 = put16 b2 7 (wire m.direction (lit b 100)) in
      let b4 = put16 b3 9 m.total_spin in
      let b5 = put16 b4 11 (wire m.spin_axis (lit b 100)) in
      put16 (put16 b5 13 m.back_spin) 15 m.side_spin

  -- The array `fields`: the value and the scale of each.
  abbrev pub club_values : ClubMetrics F → List (Option F × F)
  club_values c =
      (c.path, club_scale b)
      ∷ (c.face_angle, club_scale b)
      ∷ (c.attack_angle, club_scale b)
      ∷ (c.dynamic_loft, club_scale b)
      ∷ (c.impact_horizontal, impact_scale b)
      ∷ (c.impact_vertical, impact_scale b)
      ∷ (c.club_speed, club_scale b)
      ∷ (c.smash_factor, club_scale b)
      ∷ []

  -- One round of the loop over the fields: what it writes, and the widened mask.
  unfoldable pub raw_value : Option F → F → ℤ
  unfolding wire
  raw_value (some v) scale = wire v scale
  raw_value none scale = club_sentinel

  unfoldable pub widen : ℕ → ℕ → Option F → ℕ
  widen mask i (some v) = bit_or mask (2 ^ i)
  widen mask i none = mask

  -- The loop, from field `i` on, over the frame and the mask.
  unfoldable pub put_fields : ℕ → List (Option F × F) → Bytes → ℕ → Bytes × ℕ
  put_fields i [] frame mask = (frame, mask)
  put_fields i ((value, scale) ∷ rest) frame mask =
      put_fields (i + 1) rest (put16 frame (3 + 2 * i) (raw_value value scale)) (widen mask i value)

  unfoldable pub club_notification : ClubMetrics F → Bytes
  unfolding put_fields
  club_notification c =
      let start = set (set (replicate 19 0) 0 0x11) 1 0x07 in
      let (frame, mask) = put_fields 0 (club_values c) start c.mask in set frame 2 mask
