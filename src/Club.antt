-- ===== src/Club.antt =====
-- src/club.rs: clubs and their wire codes.
pub mod Codes
use allsquare.Base.{
  ℕ, Bool, true, false, not, ◌&&◌, List, [], ◌∷◌, Option, some, none, ◌==◌, if◌then◌else◌,
}
use Prim.Native.String.{String}

pub data Category : Type 0 where
  driver wood_hybrid iron_wedge putter : Category

-- `category as u8`: the discriminants that `repr(u8)` fixes.
unfoldable pub category_code : Category → ℕ
category_code Category.driver = 0x00
category_code wood_hybrid = 0x01
category_code iron_wedge = 0x02
category_code Category.putter = 0x03

pub data Club : Type 0 where
  driver wood3 wood5 wood7 hybrid3 hybrid4 hybrid5 : Club
  iron3 iron4 iron5 iron6 iron7 iron8 iron9 : Club
  pitching_wedge gap_wedge sand_wedge lob_wedge putter : Club

pub data Handed : Type 0 where
  right left : Handed

-- `Handed::code`.
unfoldable pub handed_code : Handed → ℕ
handed_code right = 0x00
handed_code left = 0x01

unfoldable pub code : Club → ℕ × Category
code Club.driver = (0x01, Category.driver)
code wood3 = (0x03, wood_hybrid)
code wood5 = (0x05, wood_hybrid)
code wood7 = (0x07, wood_hybrid)
code hybrid3 = (0x0D, wood_hybrid)
code hybrid4 = (0x0E, wood_hybrid)
code hybrid5 = (0x0F, wood_hybrid)
code iron3 = (0x03, iron_wedge)
code iron4 = (0x04, iron_wedge)
code iron5 = (0x05, iron_wedge)
code iron6 = (0x06, iron_wedge)
code iron7 = (0x07, iron_wedge)
code iron8 = (0x08, iron_wedge)
code iron9 = (0x09, iron_wedge)
code pitching_wedge = (0x0A, iron_wedge)
code gap_wedge = (0x0B, iron_wedge)
code sand_wedge = (0x0C, iron_wedge)
code lob_wedge = (0x0D, iron_wedge)
code Club.putter = (0x01, Category.putter)

unfoldable pub is_confirmed : Club → Bool
is_confirmed wood5 = false
is_confirmed wood7 = false
is_confirmed hybrid4 = false
is_confirmed iron3 = false
is_confirmed lob_wedge = false
is_confirmed _ = true

-- `ALL` of `from_code`.
abbrev pub all_clubs : List Club
all_clubs =
    Club.driver ∷ wood3 ∷ wood5 ∷ wood7 ∷ hybrid3 ∷ hybrid4 ∷ hybrid5 ∷ iron3 ∷ iron4 ∷ iron5
    ∷ iron6 ∷ iron7 ∷ iron8 ∷ iron9 ∷ pitching_wedge ∷ gap_wedge ∷ sand_wedge ∷ lob_wedge
    ∷ Club.putter ∷ []

-- The closure of `from_code`.
unfoldable pub has_code : ℕ → ℕ → Club → Bool
unfolding code category_code
has_code number category c = (code c).0 == number && category_code (code c).1 == category

-- `Iterator::find`.
unfoldable pub find {ℓ} : {A : Type ℓ} → (A → Bool) → List A → Option A
find p [] = none
find p (x ∷ xs) = if p x then some x else find p xs

unfoldable pub from_code : ℕ → ℕ → Option Club
unfolding find has_code
from_code number category = find (has_code number category) all_clubs

unfoldable pub short_name : Club → String
short_name Club.driver = "Dr"
short_name wood3 = "3w"
short_name wood5 = "5w"
short_name wood7 = "7w"
short_name hybrid3 = "3h"
short_name hybrid4 = "4h"
short_name hybrid5 = "5h"
short_name iron3 = "3i"
short_name iron4 = "4i"
short_name iron5 = "5i"
short_name iron6 = "6i"
short_name iron7 = "7i"
short_name iron8 = "8i"
short_name iron9 = "9i"
short_name pitching_wedge = "PW"
short_name gap_wedge = "GW"
short_name sand_wedge = "SW"
short_name lob_wedge = "LW"
short_name Club.putter = "Pt"

-- `==` of the derived `PartialEq`, which compares discriminants.
abbrev pub discriminant : Club → ℕ
discriminant Club.driver = 0
discriminant wood3 = 1
discriminant wood5 = 2
discriminant wood7 = 3
discriminant hybrid3 = 4
discriminant hybrid4 = 5
discriminant hybrid5 = 6
discriminant iron3 = 7
discriminant iron4 = 8
discriminant iron5 = 9
discriminant iron6 = 10
discriminant iron7 = 11
discriminant iron8 = 12
discriminant iron9 = 13
discriminant pitching_wedge = 14
discriminant gap_wedge = 15
discriminant sand_wedge = 16
discriminant lob_wedge = 17
discriminant Club.putter = 18

unfoldable pub same_club : Club → Club → Bool
same_club a b = discriminant a == discriminant b
