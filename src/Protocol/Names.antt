-- ===== src/Protocol/Names.antt =====
-- src/protocol.rs: recognising a Square Golf device by its name or manufacturer data; src/ble.rs:
-- matching a pinned device.
use allsquare.Base.{
  ℕ, Bool, false, not, ◌&&◌, ◌||◌, List, [], ◌∷◌, Option, some, none, ◌==◌, if◌then◌else◌, length,
  Bytes, bytes_eq,
}
use allsquare.Text.{
  codes, is_some, starts_with, strip_last, rsplit_once, trim, eq_ignore_ascii_case,
}

abbrev pub name_prefix : Bytes
name_prefix = codes "SquareGolf"

abbrev pub manufacturer_id : ℕ
manufacturer_id = 0xffff

abbrev pub omni_model : Bytes
omni_model = codes "0300A"

abbrev pub omni_gap_name : Bytes
omni_gap_name = codes "SGO300A"

-- The name within the brackets of `X [name]`, or the whole name.
unfoldable pub bracketed : Bytes → Bytes
unfolding strip_last rsplit_once
bracketed reported = elim (strip_last b']' reported) [
  | none ↦ reported
  | some s ↦ elim (rsplit_once (codes " [") s) [ none ↦ reported | some (_, adv) ↦ adv ]
]

unfoldable pub advertised_name : Bytes → Option Bytes
unfolding bracketed starts_with
advertised_name reported =
    let advertised = bracketed reported in
    if starts_with name_prefix advertised then some advertised else none

-- `Iterator::any` over the manufacturer data.
unfoldable pub any_omni : List (ℕ × Bytes) → Bool
any_omni [] = false
any_omni ((company, payload) ∷ rest) =
    (company == manufacturer_id && bytes_eq payload omni_model) || any_omni rest

unfoldable pub is_square_golf : Bytes → List (ℕ × Bytes) → Bool
unfolding advertised_name any_omni
is_square_golf reported manufacturer_data =
    is_some (advertised_name reported)
    || bytes_eq reported omni_gap_name
    || any_omni manufacturer_data

-- `Option::is_some_and` with the comparison of `matches_pin`.
unfoldable pub names : Bytes → Option Bytes → Bool
unfolding eq_ignore_ascii_case
names want none = false
names want (some n) = eq_ignore_ascii_case n want

unfoldable pub matches_pin : Bytes → Bytes → Bytes → Bool
unfolding trim names advertised_name eq_ignore_ascii_case
matches_pin want address reported =
    let want' = trim want in
    not (length want' == 0)
    && (eq_ignore_ascii_case address want' || names want' (advertised_name reported))
