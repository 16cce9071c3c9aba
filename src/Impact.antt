-- ===== src/Impact.antt =====
-- src/impact.rs: the per-club face impact calibration. The hash map is the finite map that it
-- holds, from a club to its entry.
pub mod Table
use allsquare.Base.{ℕ, List, [], ◌∷◌, Option, some, none, if◌then◌else◌}
use allsquare.Build.{Build, lit}
use allsquare.Club.{
  Club, same_club, wood3, wood5, wood7, hybrid3, hybrid4, hybrid5, iron3, iron4, iron5, iron6,
  iron7, iron8, iron9, pitching_wedge, gap_wedge, sand_wedge, lob_wedge,
}

pub record ImpactCalibration (F : Type 0) : Type 0 where
  pub offsets : Club → Option F

module _ {F : Type 0} where
  pub empty : ImpactCalibration F
  empty = record { offsets = λ _. none }

  unfoldable pub dot_bottom_to_face_center_mm : ImpactCalibration F → Club → Option F
  dot_bottom_to_face_center_mm cal club = cal.offsets club

  -- `HashMap::insert` for `Some`, `HashMap::remove` for `None`.
  unfoldable pub set_dot_bottom_to_face_center_mm :
      ImpactCalibration F → Club → Option F → ImpactCalibration F
  set_dot_bottom_to_face_center_mm cal club (some mm) = record {
    offsets = λ c. if same_club club c then some mm else cal.offsets c;
  }
  set_dot_bottom_to_face_center_mm cal club none = record {
    offsets = λ c. if same_club club c then none else cal.offsets c;
  }

  -- The deprecated spellings.
  pub dot_bottom_to_face_centre_mm : ImpactCalibration F → Club → Option F
  dot_bottom_to_face_centre_mm = dot_bottom_to_face_center_mm

  pub set_dot_bottom_to_face_centre_mm : ImpactCalibration F → Club → Option F → ImpactCalibration F
  set_dot_bottom_to_face_centre_mm = set_dot_bottom_to_face_center_mm

  -- The inner loop of `default`.
  set_all : ImpactCalibration F → List Club → F → ImpactCalibration F
  set_all cal [] mm = cal
  set_all cal (club ∷ clubs) mm =
      set_all (set_dot_bottom_to_face_center_mm cal club (some mm)) clubs mm

  -- The outer loop.
  set_table : ImpactCalibration F → List (List Club × F) → ImpactCalibration F
  set_table cal [] = cal
  set_table cal ((clubs, mm) ∷ rows) = set_table (set_all cal clubs mm) rows

  abbrev table : Build F → List (List Club × F)
  table b =
      (Club.driver ∷ [], lit b 15)
      ∷ (wood3 ∷ wood5 ∷ wood7 ∷ [], lit b 9)
      ∷ (hybrid3 ∷ hybrid4 ∷ hybrid5 ∷ [], lit b 8)
      ∷ (iron3 ∷ iron4 ∷ iron5 ∷ iron6 ∷ iron7 ∷ iron8 ∷ iron9 ∷ pitching_wedge ∷ [], lit b 19)
      ∷ (gap_wedge ∷ sand_wedge ∷ [], lit b 21)
      ∷ (lob_wedge ∷ [], lit b 24)
      ∷ []

  -- `ImpactCalibration::default`.
  unfoldable pub default : Build F → ImpactCalibration F
  unfolding set_table set_all empty
  default b = set_table empty (table b)
