-- ===== src/Protocol/Command.antt =====
-- src/protocol.rs: the command encoder.
use allsquare.Base.{
  ℕ, Bool, true, false, Option, none, leb, if◌then◌else◌, length, set, get_elem?, replicate, Bytes,
}
use allsquare.Club.{category_code, handed_code, code}
use allsquare.Protocol.Types.{
  SpinMode, standard, advanced, speed_code, distance_code, Command, detect_ball, select_club,
  heartbeat, query, request_club_metrics, set_units, set_green_speed, set_carry_adjustment,
  command_len,
}

unfoldable pub type_byte : Command → ℕ
type_byte (detect_ball on spin) = 0x81
type_byte (select_club club handed) = 0x82
type_byte heartbeat = 0x83
type_byte query = 0x86
type_byte request_club_metrics = 0x87
type_byte (set_units speed distance) = 0x88
type_byte (set_green_speed v) = 0x89
type_byte (set_carry_adjustment v) = 0x8A

-- The byte is there when the frame holds two; the code tests the length first.
unfoldable pub type_byte_of : Bytes → Option ℕ
type_byte_of frame = if leb 2 (length frame) then get_elem? frame 1 else none

-- `u8::from(on)`.
abbrev pub bit_of : Bool → ℕ
bit_of true = 1
bit_of false = 0

abbrev pub spin_code : SpinMode → ℕ
spin_code standard = 0x10
spin_code advanced = 0x11

-- The `match` that writes a command's payload into the frame.
unfoldable pub write_payload : Command → Bytes → Bytes
unfolding code category_code handed_code
write_payload (detect_ball on spin) b = set (set b 3 (bit_of on)) 4 (spin_code spin)
write_payload (select_club club handed) b =
    let (number, category) = code club in
    set (set (set b 3 number) 4 (category_code category)) 5 (handed_code handed)
write_payload (set_units speed distance) b =
    set (set b 4 (speed_code speed)) 5 (distance_code distance)
write_payload (set_green_speed v) b = set b 3 v
write_payload (set_carry_adjustment v) b = set b 3 v
write_payload heartbeat b = b
write_payload query b = b
write_payload request_club_metrics b = b

unfoldable pub encode : Command → ℕ → Bytes
unfolding type_byte write_payload
encode cmd seq =
    let b = set (replicate command_len 0) 0 0x00 in
    write_payload cmd (set (set b 1 (type_byte cmd)) 2 seq)
