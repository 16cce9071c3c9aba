-- ===== src/Protocol/Encoding.antt =====
-- Laws of the command encoder of src/protocol.rs.
use allsquare.Base.{
  ℕ, true, false, ◌∷◌, Option, some, none, ◌≡◌, refl, ap, ◌==◌, if◌then◌else◌, length, get_elem?,
  Bytes,
}
use allsquare.Club.{Club, Handed, right, left, from_code}
use allsquare.Club.Codes.{from_code-code}
use allsquare.Protocol.Types.{
  SpinMode, standard, advanced, SpeedUnit, meters_per_second, miles_per_hour, DistanceUnit, meter,
  yard_feet, yard_yard, Command, detect_ball, select_club, heartbeat, query, request_club_metrics,
  set_units, set_green_speed, set_carry_adjustment, command_len,
}
use allsquare.Protocol.Command.{type_byte, type_byte_of, encode}

-- Every command is a frame of nine bytes: the direction byte 0, the type byte, which
-- `type_byte_of` reads back, and the sequence number, before the payload.
pub encode_frame :
    (cmd : Command) (seq : ℕ)
    → (length (encode cmd seq) ≡ command_len)
      × (get_elem? (encode cmd seq) 0 ≡ some 0)
      × (type_byte_of (encode cmd seq) ≡ some (type_byte cmd))
      × (get_elem? (encode cmd seq) 2 ≡ some seq)
unfolding encode type_byte_of
encode_frame (detect_ball on spin) seq = (refl, refl, refl, refl)
encode_frame _ seq = (refl, refl, refl, refl)

-- A reader of command frames, written from the layout in docs/WIRE.md.
abbrev read_spin : ℕ → SpinMode
read_spin v = if v == 0x10 then standard else advanced

abbrev read_speed : ℕ → SpeedUnit
read_speed v = if v == 0 then meters_per_second else miles_per_hour

abbrev read_distance : ℕ → DistanceUnit
read_distance v = if v == 0 then meter else if v == 1 then yard_feet else yard_yard

abbrev read_handed : ℕ → Handed
read_handed v = if v == 0 then right else left

abbrev read_club : Option Club → ℕ → Option Command
read_club none hand = none
read_club (some c) hand = some (select_club c (read_handed hand))

read_payload : ℕ → ℕ → ℕ → ℕ → Option Command
read_payload kind p q r =
    if kind == 0x81
    then some (detect_ball (p == 1) (read_spin q))
    else if kind == 0x82
    then read_club (from_code p q) r
    else if kind == 0x83
    then some heartbeat
    else if kind == 0x86
    then some query
    else if kind == 0x87
    then some request_club_metrics
    else if kind == 0x88
    then some (set_units (read_speed q) (read_distance r))
    else if kind == 0x89
    then some (set_green_speed p)
    else if kind == 0x8A
    then some (set_carry_adjustment p)
    else none

pub read_frame : Bytes → Option Command
unfolding read_payload
read_frame (start ∷ kind ∷ seq ∷ p ∷ q ∷ r ∷ rest) = read_payload kind p q r
read_frame _ = none

-- Reading an encoded frame gives the command back, whatever the sequence number: no two commands
-- share a frame.
pub read_frame-encode : (cmd : Command) (seq : ℕ) → read_frame (encode cmd seq) ≡ some cmd
unfolding read_frame encode
read_frame-encode (detect_ball true standard) seq = refl
read_frame-encode (detect_ball true advanced) seq = refl
read_frame-encode (detect_ball false standard) seq = refl
read_frame-encode (detect_ball false advanced) seq = refl
read_frame-encode (select_club c right) seq = ap (λ o. read_club o 0) (from_code-code c)
read_frame-encode (select_club c left) seq = ap (λ o. read_club o 1) (from_code-code c)
read_frame-encode heartbeat seq = refl
read_frame-encode query seq = refl
read_frame-encode request_club_metrics seq = refl
read_frame-encode (set_units meters_per_second meter) seq = refl
read_frame-encode (set_units meters_per_second yard_feet) seq = refl
read_frame-encode (set_units meters_per_second yard_yard) seq = refl
read_frame-encode (set_units miles_per_hour meter) seq = refl
read_frame-encode (set_units miles_per_hour yard_feet) seq = refl
read_frame-encode (set_units miles_per_hour yard_yard) seq = refl
read_frame-encode (set_green_speed v) seq = refl
read_frame-encode (set_carry_adjustment v) seq = refl
