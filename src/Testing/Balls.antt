-- ===== src/Testing/Balls.antt =====
-- `parse` of src/protocol.rs and `ball_notification` of src/testing.rs are inverse.
use allsquare.Base.{
  ℕ, ◌+◌, ◌*◌, ◌/◌, ◌%◌, ◌<◌, ◌≡◌, arith, ℤ, pos, negsuc, word16, IsI16, word16-signed,
  signed-IsI16,
}
use allsquare.Build.{Build, lit}
use allsquare.Error.{ok, index}
use allsquare.Protocol.Parse.{parse, le16}
use allsquare.Protocol.Types.{Notification, BallMetrics}
use allsquare.Testing.{wire, ball_notification}

-- The two bytes that are written for a 16-bit integer read back as it.
pub le16-word16 : (z : ℤ) → IsI16 z → le16 (word16 z % 256) (word16 z / 256) ≡ z
le16-word16 (pos n) h = ground arith
le16-word16 (negsuc n) h = ground arith

-- The two bytes of an integer that was read are the bytes read.
pub word16-le16 :
    (lo hi : ℕ)
    → lo < 256
    → hi < 256
    → (word16 (le16 lo hi) % 256 ≡ lo) × (word16 (le16 lo hi) / 256 ≡ hi)
word16-le16 lo hi h k = let e = word16-signed (lo + 256 * hi) (omega arith) in rw e (omega arith)

pub le16-IsI16 : (lo hi : ℕ) → lo < 256 → hi < 256 → IsI16 (le16 lo hi)
le16-IsI16 lo hi h k = signed-IsI16 (lo + 256 * hi) (omega arith)

-- The launch data as the device sends it: 16-bit integers, hundredths where the metrics are `f64`.
pub record BallWire : Type 0 where
  pub shot_type : ℕ
  pub speed : ℤ
  pub launch_angle : ℤ
  pub direction : ℤ
  pub total_spin : ℤ
  pub spin_axis : ℤ
  pub back_spin : ℤ
  pub side_spin : ℤ

pub record IsWire (w : BallWire) : Type 0 where
  pub speed : IsI16 w.speed
  pub launch_angle : IsI16 w.launch_angle
  pub direction : IsI16 w.direction
  pub total_spin : IsI16 w.total_spin
  pub spin_axis : IsI16 w.spin_axis
  pub back_spin : IsI16 w.back_spin
  pub side_spin : IsI16 w.side_spin

module _ {F : Type 0} (b : Build F) where
  -- A quotient of a 16-bit integer by the scale is rounded so closely that `wire` restores it.
  abbrev pub IsExact : F → Type 0
  IsExact scale = (r : ℤ) → IsI16 r → wire b (b.div (b.of_int r) scale) scale ≡ r

  abbrev hundredths : ℤ → F
  hundredths r = b.div (b.of_int r) (lit b 100)

  abbrev pub ball_of : BallWire → BallMetrics F
  ball_of w = record {
    shot_type = w.shot_type;
    speed = hundredths w.speed;
    launch_angle = hundredths w.launch_angle;
    direction = hundredths w.direction;
    total_spin = w.total_spin;
    spin_axis = hundredths w.spin_axis;
    back_spin = w.back_spin;
    side_spin = w.side_spin;
  }

  -- Ball metrics that the device can send, encoded and parsed, come back as they were.
  pub parse-ball_notification :
      (w : BallWire)
      → IsExact (lit b 100)
      → IsWire w
      → parse b (ball_notification b (ball_of w)) ≡ ok (Notification.ball (ball_of w))
  unfolding parse index ball_notification
  parse-ball_notification w exact h = rw (
    exact w.speed h.speed,
    exact w.launch_angle h.launch_angle,
    exact w.direction h.direction,
    exact w.spin_axis h.spin_axis,
    le16-word16 w.speed h.speed,
    le16-word16 w.launch_angle h.launch_angle,
    le16-word16 w.direction h.direction,
    le16-word16 w.total_spin h.total_spin,
    le16-word16 w.spin_axis h.spin_axis,
    le16-word16 w.back_spin h.back_spin,
    le16-word16 w.side_spin h.side_spin,
  )
