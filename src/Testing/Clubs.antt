-- ===== src/Testing/Clubs.antt =====
-- `parse` of src/protocol.rs inverts `club_notification` of src/testing.rs.
use allsquare.Base.{
  ℕ, ◌/◌, ◌%◌, ◌^◌, ◌<◌, Bool, true, ◌||◌, Option, some, none, ◌≡◌, ◌≢◌, refl, arith, ◌==◌, ℤ, pos,
  negsuc, word16, IsI16, bit_and, bit_or,
}
use allsquare.Base.Bits.{table, table_entry}
use allsquare.Build.{Build}
use allsquare.Error.{ok, index, slice_from}
use allsquare.Protocol.Parse.{parse, le16, club_field, club_scale, impact_scale, club_sentinel}
use allsquare.Protocol.Types.{Notification, ClubMetrics}
use allsquare.Testing.{raw_value, widen, club_notification}
use allsquare.Testing.Balls.{IsExact, le16-word16}

-- Setting a bit that is set changes nothing: all bytes, for each of the eight bits.
abbrev keeps_bit : ℕ → ℕ → Bool
keeps_bit i m = bit_and m (2 ^ i) == 0 || bit_or m (2 ^ i) == m

keeps_table :
    (table (keeps_bit 0) 256 ≡ true)
    × (table (keeps_bit 1) 256 ≡ true)
    × (table (keeps_bit 2) 256 ≡ true)
    × (table (keeps_bit 3) 256 ≡ true)
    × (table (keeps_bit 4) 256 ≡ true)
    × (table (keeps_bit 5) 256 ≡ true)
    × (table (keeps_bit 6) 256 ≡ true)
    × (table (keeps_bit 7) 256 ≡ true)
unfolding table
keeps_table = (refl, refl, refl, refl, refl, refl, refl, refl)

-- A field as the device sends it: no value, or an integer that is not the sentinel, with its bit
-- of the mask set.
abbrev pub IsMeasured : ℕ → ℕ → Option ℤ → Type 0
IsMeasured mask i none = Unit {0}
IsMeasured mask i (some r) = IsI16 r × (r ≢ club_sentinel) × (bit_and mask (2 ^ i) ≢ 0)

-- The eight fields as the device sends them, and the mask.
pub record ClubWire : Type 0 where
  pub mask : ℕ
  pub path : Option ℤ
  pub face_angle : Option ℤ
  pub attack_angle : Option ℤ
  pub dynamic_loft : Option ℤ
  pub impact_horizontal : Option ℤ
  pub impact_vertical : Option ℤ
  pub club_speed : Option ℤ
  pub smash_factor : Option ℤ

pub record IsWire (w : ClubWire) : Type 0 where
  pub mask : w.mask < 256
  pub path : IsMeasured w.mask 0 w.path
  pub face_angle : IsMeasured w.mask 1 w.face_angle
  pub attack_angle : IsMeasured w.mask 2 w.attack_angle
  pub dynamic_loft : IsMeasured w.mask 3 w.dynamic_loft
  pub impact_horizontal : IsMeasured w.mask 4 w.impact_horizontal
  pub impact_vertical : IsMeasured w.mask 5 w.impact_vertical
  pub club_speed : IsMeasured w.mask 6 w.club_speed
  pub smash_factor : IsMeasured w.mask 7 w.smash_factor

module _ {F : Type 0} (b : Build F) where
  abbrev scaled : F → Option ℤ → Option F
  scaled scale none = none
  scaled scale (some r) = some (b.div (b.of_int r) scale)

  abbrev pub club_of : ClubWire → ClubMetrics F
  club_of w = record {
    mask = w.mask;
    path = scaled (club_scale b) w.path;
    face_angle = scaled (club_scale b) w.face_angle;
    attack_angle = scaled (club_scale b) w.attack_angle;
    dynamic_loft = scaled (club_scale b) w.dynamic_loft;
    impact_horizontal = scaled (impact_scale b) w.impact_horizontal;
    impact_vertical = scaled (impact_scale b) w.impact_vertical;
    club_speed = scaled (club_scale b) w.club_speed;
    smash_factor = scaled (club_scale b) w.smash_factor;
  }

  -- The mask is not widened by a field whose bit it has.
  widen_covered :
      (mask i : ℕ) (scale : F) (o : Option ℤ)
      → table (keeps_bit i) 256 ≡ true
      → mask < 256
      → IsMeasured mask i o
      → widen b mask i (scaled scale o) ≡ mask
  unfolding widen
  widen_covered mask i scale none t h m = refl
  widen_covered mask i scale (some r) t h m = ground (arith, table_entry (keeps_bit i) 256 mask h t)

  -- The value of a field, or the sentinel.
  abbrev raw_of : Option ℤ → ℤ
  raw_of none = club_sentinel
  raw_of (some r) = r

  raw_value-scaled :
      (mask i : ℕ) (scale : F) (o : Option ℤ)
      → IsExact b scale
      → IsMeasured mask i o
      → raw_value b (scaled scale o) scale ≡ raw_of o
  unfolding raw_value
  raw_value-scaled mask i scale none e m = refl
  raw_value-scaled mask i scale (some r) e m = e r m.0

  -- A field's bytes are read back as the field.
  club_field-raw :
      (mask i : ℕ) (scale : F) (o : Option ℤ)
      → IsMeasured mask i o
      → club_field b (le16 (word16 (raw_of o) % 256) (word16 (raw_of o) / 256)) mask i scale
        ≡ scaled scale o
  unfolding club_field
  club_field-raw mask i scale none m = refl
  club_field-raw mask i scale (some r) m = rw (le16-word16 r m.0) (sentinel r m.1)
    where
      sentinel :
          (z : ℤ)
          → z ≢ club_sentinel
          → club_field b z mask i scale ≡ some (b.div (b.of_int z) scale)
      sentinel (pos n) ne = ground arith
      sentinel (negsuc n) ne = ground arith

  field_back :
      (mask i : ℕ) (scale : F) (o : Option ℤ)
      → IsExact b scale
      → IsMeasured mask i o
      → (let raw = raw_value b (scaled scale o) scale in
          club_field b (le16 (word16 raw % 256) (word16 raw / 256)) mask i scale ≡ scaled scale o)
  field_back mask i scale o e m =
      rw (raw_value-scaled mask i scale o e m) (club_field-raw mask i scale o m)

  -- Club metrics that the device can send, encoded and parsed, come back as they were.
  pub parse-club_notification :
      (w : ClubWire)
      → IsExact b (club_scale b)
      → IsExact b (impact_scale b)
      → IsWire w
      → parse b (club_notification b (club_of w)) ≡ ok (Notification.club (club_of w))
  unfolding parse index slice_from club_notification
  parse-club_notification w e e' h = rw (
    widen_covered w.mask 0 (club_scale b) w.path keeps_table.0 h.mask h.path,
    widen_covered w.mask 1 (club_scale b) w.face_angle keeps_table.1 h.mask h.face_angle,
    widen_covered w.mask 2 (club_scale b) w.attack_angle keeps_table.2 h.mask h.attack_angle,
    widen_covered w.mask 3 (club_scale b) w.dynamic_loft keeps_table.3 h.mask h.dynamic_loft,
    widen_covered w.mask 4 (impact_scale b) w.impact_horizontal keeps_table.4 h.mask
        h.impact_horizontal,
    widen_covered w.mask 5 (impact_scale b) w.impact_vertical keeps_table.5 h.mask
        h.impact_vertical,
    widen_covered w.mask 6 (club_scale b) w.club_speed keeps_table.6 h.mask h.club_speed,
    widen_covered w.mask 7 (club_scale b) w.smash_factor keeps_table.7 h.mask h.smash_factor,
    field_back w.mask 0 (club_scale b) w.path e h.path,
    field_back w.mask 1 (club_scale b) w.face_angle e h.face_angle,
    field_back w.mask 2 (club_scale b) w.attack_angle e h.attack_angle,
    field_back w.mask 3 (club_scale b) w.dynamic_loft e h.dynamic_loft,
    field_back w.mask 4 (impact_scale b) w.impact_horizontal e' h.impact_horizontal,
    field_back w.mask 5 (impact_scale b) w.impact_vertical e' h.impact_vertical,
    field_back w.mask 6 (club_scale b) w.club_speed e h.club_speed,
    field_back w.mask 7 (club_scale b) w.smash_factor e h.smash_factor,
  )
