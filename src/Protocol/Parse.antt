-- ===== src/Protocol/Parse.antt =====
-- src/protocol.rs: the notification parser.
use Prim.Native.String.{String}
use mathlib.Core.List.{foldl}
use allsquare.Base.{
  ℕ, ◌+◌, ◌*◌, ◌^◌, ◌||◌, Option, some, none, ltb, ◌==◌, if◌then◌else◌, length, Bytes, ℤ, negsuc,
  eq_ℤ, signed, bit_and,
}
use allsquare.Build.{Build, lit}
use allsquare.Error.{Error, Outcome, ok, err, ◌>>=◌, ◌>>◌, index, slice, slice_from}
use allsquare.Protocol.Types.{
  Notification, ClubMetrics, sensor, ball, heartbeat_ack, alignment, query_response, club, battery,
  clock, device_state, charging_state,
}

abbrev pub club_sentinel : ℤ
club_sentinel = negsuc 0

unfoldable pub need : String → Bytes → ℕ → Outcome (Unit {0})
need kind bytes n =
    if ltb (length bytes) n then err (Error.truncated kind (length bytes) n) else ok tt

-- `i16::from_le_bytes`.
abbrev pub le16 : ℕ → ℕ → ℤ
le16 lo hi = signed 32768 (lo + 256 * hi)

-- `i32::from_le_bytes`.
abbrev pub le32 : ℕ → ℕ → ℕ → ℕ → ℤ
le32 b0 b1 b2 b3 = signed 2147483648 (b0 + 256 * b1 + 65536 * b2 + 16777216 * b3)

-- `u64::from_be_bytes`.
abbrev pub be_value : Bytes → ℕ
be_value = foldl (λ acc v. acc * 256 + v) 0

unfoldable pub i16_at : Bytes → ℕ → Outcome ℤ
i16_at b off = do lo ← index b off; hi ← index b (off + 1); ok (le16 lo hi)

unfoldable pub i32_at : Bytes → ℕ → Outcome ℤ
i32_at b off = do
  b0 ← index b off
  b1 ← index b (off + 1)
  b2 ← index b (off + 2)
  b3 ← index b (off + 3)
  ok (le32 b0 b1 b2 b3)

module _ {F : Type 0} (b : Build F) where
  abbrev pub club_scale : F
  club_scale = lit b 100

  abbrev pub impact_scale : F
  impact_scale = if b.raw_face_impact then lit b 1 else lit b 100

  unfoldable pub club_field : ℤ → ℕ → ℕ → F → Option F
  club_field raw mask bit scale =
      if eq_ℤ raw club_sentinel || bit_and mask (2 ^ bit) == 0
      then none
      else some (b.div (b.of_int raw) scale)

  -- `f64::from(i16_at(data, off)) / 100.0`.
  unfoldable pub hundredths_at : Bytes → ℕ → Outcome F
  unfolding i16_at
  hundredths_at bytes off = do raw ← i16_at bytes off; ok (b.div (b.of_int raw) (lit b 100))

  -- The closure `get_scaled` of the club branch.
  unfoldable pub get_scaled : ℕ → Bytes → ℕ → ℕ → F → Outcome (Option F)
  unfolding i16_at
  get_scaled mask body i bit scale =
      if ltb (length body) ((i + 1) * 2)
      then ok none
      else (do raw ← i16_at body (i * 2); ok (club_field raw mask bit scale))

  unfoldable pub parse_sensor : Bytes → Outcome (Notification F)
  unfolding need i32_at
  parse_sensor bytes = do
    need "sensor" bytes 17
    ready ← index bytes 3
    detected ← index bytes 4
    x ← i32_at bytes 5
    y ← i32_at bytes 9
    z ← i32_at bytes 13
    ok (
        sensor (record {
          ready = ready == 0x01 || ready == 0x02;
          detected = detected == 0x01;
          position = (x, y, z);
        }))

  unfoldable pub parse_ball : Bytes → Outcome (Notification F)
  unfolding need hundredths_at i16_at
  parse_ball bytes = do
    need "ball" bytes 17
    shot_type ← index bytes 2
    speed ← hundredths_at bytes 3
    launch_angle ← hundredths_at bytes 5
    direction ← hundredths_at bytes 7
    total_spin ← i16_at bytes 9
    spin_axis ← hundredths_at bytes 11
    back_spin ← i16_at bytes 13
    side_spin ← i16_at bytes 15
    ok (
        ball (record {
          shot_type = shot_type;
          speed = speed;
          launch_angle = launch_angle;
          direction = direction;
          total_spin = total_spin;
          spin_axis = spin_axis;
          back_spin = back_spin;
          side_spin = side_spin;
        }))

  -- The fields of the club branch, read from its body.
  unfoldable pub club_fields : ℕ → Bytes → Outcome (ClubMetrics F)
  unfolding get_scaled
  club_fields mask body = do
    path ← get_scaled mask body 0 0 club_scale
    face_angle ← get_scaled mask body 1 1 club_scale
    attack_angle ← get_scaled mask body 2 2 club_scale
    dynamic_loft ← get_scaled mask body 3 3 club_scale
    impact_horizontal ← get_scaled mask body 4 4 impact_scale
    impact_vertical ← get_scaled mask body 5 5 impact_scale
    club_speed ← get_scaled mask body 6 6 club_scale
    smash_factor ← get_scaled mask body 7 7 club_scale
    ok (record {
      mask = mask;
      path = path;
      face_angle = face_angle;
      attack_angle = attack_angle;
      dynamic_loft = dynamic_loft;
      impact_horizontal = impact_horizontal;
      impact_vertical = impact_vertical;
      club_speed = club_speed;
      smash_factor = smash_factor;
    })

  unfoldable pub parse_club : Bytes → Outcome (Notification F)
  unfolding need club_fields
  parse_club bytes = do
    need "club" bytes 3
    mask ← index bytes 2
    body ← slice_from bytes 3
    fields ← club_fields mask body
    ok (club fields)

  unfoldable pub parse_ack : Bytes → Outcome (Notification F)
  unfolding need
  parse_ack bytes = do
    need "heartbeat ack" bytes 4
    v ← index bytes 3
    ok (heartbeat_ack (device_state v))

  unfoldable pub parse_alignment : Bytes → Outcome (Notification F)
  unfolding need hundredths_at
  parse_alignment bytes = do
    need "alignment" bytes 7
    angle ← hundredths_at bytes 5
    ok (alignment angle)

  unfoldable pub parse_query : Bytes → Outcome (Notification F)
  parse_query bytes = do payload ← slice_from bytes 2; ok (query_response payload)

  -- The `match data[1]` of `parse_11`.
  unfoldable pub parse_kind : ℕ → Bytes → Outcome (Notification F)
  unfolding parse_sensor parse_ball parse_ack parse_alignment parse_query parse_club
  parse_kind kind bytes =
      if kind == 0x01
      then parse_sensor bytes
      else if kind == 0x02
      then parse_ball bytes
      else if kind == 0x03
      then parse_ack bytes
      else if kind == 0x04
      then parse_alignment bytes
      else if kind == 0x06
      then parse_query bytes
      else if kind == 0x07
      then parse_club bytes
      else err (Error.unknown_notification kind)

  unfoldable pub parse_11 : Bytes → Outcome (Notification F)
  unfolding need parse_kind
  parse_11 bytes = do need "notification" bytes 2; kind ← index bytes 1; parse_kind kind bytes

  unfoldable pub parse_battery : Bytes → Outcome (Notification F)
  unfolding need
  parse_battery bytes = do
    need "battery" bytes 3
    percent ← index bytes 1
    state ← index bytes 2
    ok (battery percent (charging_state state))

  unfoldable pub parse_clock : Bytes → Outcome (Notification F)
  unfolding need
  parse_clock bytes = do need "clock" bytes 9; v ← slice bytes 1 9; ok (clock (be_value v))

  -- The `match data[0]` of `parse`.
  unfoldable pub parse_family : ℕ → Bytes → Outcome (Notification F)
  unfolding parse_battery parse_clock parse_11
  parse_family family bytes =
      if family == 0x91
      then parse_battery bytes
      else if family == 0x71
      then parse_clock bytes
      else if family == 0x11
      then parse_11 bytes
      else err (Error.unknown_family family)

  unfoldable pub parse : Bytes → Outcome (Notification F)
  unfolding parse_family
  parse bytes =
      if length bytes == 0
      then err Error.disconnected
      else (do family ← index bytes 0; parse_family family bytes)
