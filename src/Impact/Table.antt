-- ===== src/Impact/Table.antt =====
-- The law of the calibration table of src/impact.rs.
use allsquare.Base.{Option, some, none, ◌≡◌, ◌≢◌, arith}
use allsquare.Club.{Club}
use allsquare.Club.Codes.{same_club_iff}
use allsquare.Impact.{
  ImpactCalibration, dot_bottom_to_face_center_mm, set_dot_bottom_to_face_center_mm,
}

module _ {F : Type 0} where
  -- Writing an entry, or removing it, is read back at that club and at no other.
  pub get-set :
      (cal : ImpactCalibration F) (c d : Club) (mm : Option F)
      → (dot_bottom_to_face_center_mm (set_dot_bottom_to_face_center_mm cal c mm) c ≡ mm)
        × (c ≢ d
            → dot_bottom_to_face_center_mm (set_dot_bottom_to_face_center_mm cal c mm) d
              ≡ dot_bottom_to_face_center_mm cal d)
  unfolding dot_bottom_to_face_center_mm set_dot_bottom_to_face_center_mm
  get-set cal c d none = ground (arith, same_club_iff c c, same_club_iff c d)
  get-set cal c d (some mm) = ground (arith, same_club_iff c c, same_club_iff c d)
