-- ===== src/Frp/Convert.antt =====
-- src/frp/convert.rs: shot data as the protocol's types.
use mathlib.Core.Option
use allsquare.Base.{
  zero, suc, Bool, true, false, ◌&&◌, Option, some, none, ℤ, pos, negsuc, neg_ℤ, if◌then◌else◌,
}
use allsquare.Build.{Build}
use allsquare.Protocol.Types.{BallMetrics, ClubMetrics}
use allsquare.Frp.Types.{BallFlight, FrpClubData, FaceImpact, meters_per_second, millimeters}

-- `total_spin > 0`.
abbrev pub is_positive : ℤ → Bool
is_positive (pos zero) = false
is_positive (pos (suc n)) = true
is_positive (negsuc n) = false

-- `bool::then_some`.
abbrev pub then_some : {A : Type 0} → Bool → A → Option A
then_some true a = some a
then_some false a = none

module _ {F : Type 0} (b : Build F) where
  unfoldable pub ball_flight : BallMetrics F → BallFlight F
  ball_flight m =
      let spin_measured = is_positive m.total_spin in
      record {
        launch_speed = some (meters_per_second m.speed);
        launch_azimuth = some m.direction;
        launch_elevation = some m.launch_angle;
        backspin_rpm = some m.back_spin;
        sidespin_rpm = some (neg_ℤ m.side_spin);
        total_spin_rpm = then_some spin_measured m.total_spin;
        spin_axis = then_some spin_measured (b.neg m.spin_axis);
      }

  unfoldable pub club_data : ClubMetrics F → FrpClubData F
  club_data c = record {
    club_speed = Option.map meters_per_second c.club_speed;
    path = c.path;
    attack_angle = c.attack_angle;
    face_angle = c.face_angle;
    dynamic_loft = c.dynamic_loft;
    smash_factor = c.smash_factor;
  }

  abbrev pub lateral_sign : F
  lateral_sign = if b.raw_face_impact then b.of_int (pos 1) else b.of_int (negsuc 0)

  abbrev pub is_none : Option F → Bool
  is_none none = true
  is_none (some v) = false

  -- `face_impact`, of src/frp/convert.rs.
  unfoldable pub impact_location : ClubMetrics F → Option (FaceImpact F)
  impact_location c =
      if is_none c.impact_horizontal && is_none c.impact_vertical
      then none
      else some (record {
        lateral = Option.map (λ v. millimeters (b.mul lateral_sign v)) c.impact_horizontal;
        vertical = Option.map millimeters c.impact_vertical;
      })
