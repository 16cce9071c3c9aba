-- ===== src/Text/Utf8.antt =====
-- `String::from_utf8` and `String::from_utf8_lossy`. In the second each maximal ill-formed part of the bytes becomes U+FFFD.
use allsquare.Base.{
  ℕ, zero, suc, ◌+◌, ◌-◌, ◌*◌, Bool, true, false, not, Option, some, none, ◌&&◌, [], ◌∷◌, ◌==◌, leb,
  ltb, if◌then◌else◌, length, Bytes,
}

abbrev between : ℕ → ℕ → ℕ → Bool
between lo hi c = leb lo c && leb c hi

-- The range of the second byte behind a lead byte of three or four bytes.
second_low : ℕ → ℕ
second_low b = if b == 0xE0 then 0xA0 else if b == 0xF0 then 0x90 else 0x80

second_high : ℕ → ℕ
second_high b = if b == 0xED then 0x9F else if b == 0xF4 then 0x8F else 0xBF

-- How many bytes a sequence has by its lead byte; 0 for a byte that leads none.
width : ℕ → ℕ
width b =
    if ltb b 0x80
    then 1
    else if between 0xC2 0xDF b
    then 2
    else if between 0xE0 0xEF b
    then 3
    else if between 0xF0 0xF4 b
    then 4
    else 0

-- One decoding step at a lead byte: the code point, and the bytes that follow the part it covers.
decode_two : ℕ → Bytes → ℕ × Bytes
decode_two b [] = (0xFFFD, [])
decode_two b (c ∷ s) =
    if between 0x80 0xBF c then ((b - 0xC0) * 64 + (c - 0x80), s) else (0xFFFD, c ∷ s)

decode_last : ℕ → Bytes → ℕ × Bytes
decode_last acc [] = (0xFFFD, [])
decode_last acc (c ∷ s) =
    if between 0x80 0xBF c then (acc * 64 + (c - 0x80), s) else (0xFFFD, c ∷ s)

decode_three : ℕ → Bytes → ℕ × Bytes
unfolding second_low second_high decode_last
decode_three b [] = (0xFFFD, [])
decode_three b (c ∷ s) =
    if between (second_low b) (second_high b) c
    then decode_last ((b - 0xE0) * 64 + (c - 0x80)) s
    else (0xFFFD, c ∷ s)

decode_third : ℕ → Bytes → ℕ × Bytes
unfolding decode_last
decode_third acc [] = (0xFFFD, [])
decode_third acc (c ∷ s) =
    if between 0x80 0xBF c then decode_last (acc * 64 + (c - 0x80)) s else (0xFFFD, c ∷ s)

decode_four : ℕ → Bytes → ℕ × Bytes
unfolding second_low second_high decode_third
decode_four b [] = (0xFFFD, [])
decode_four b (c ∷ s) =
    if between (second_low b) (second_high b) c
    then decode_third ((b - 0xF0) * 64 + (c - 0x80)) s
    else (0xFFFD, c ∷ s)

decode_char : ℕ → Bytes → ℕ × Bytes
unfolding width decode_two decode_three decode_four
decode_char b s =
    let w = width b in
    if w == 1
    then (b, s)
    else if w == 2
    then decode_two b s
    else if w == 3
    then decode_three b s
    else if w == 4
    then decode_four b s
    else (0xFFFD, s)

-- Each step takes a byte at least, so as much fuel as there are bytes is enough.
decode : ℕ → Bytes → Bytes
unfolding decode_char
decode zero s = []
decode (suc fuel) [] = []
decode (suc fuel) (b ∷ s) = let (c, rest) = decode_char b s in c ∷ decode fuel rest

unfoldable pub from_utf8_lossy : Bytes → Bytes
unfolding decode
from_utf8_lossy s = decode (length s) s

-- U+FFFD itself, which a step may also decode.
abbrev encodes_replacement : ℕ → Bytes → Bool
encodes_replacement b (c ∷ d ∷ s) = b == 0xEF && (c == 0xBF && d == 0xBD)
encodes_replacement b s = false

abbrev cons_or_none : Bool → ℕ → Option Bytes → Option Bytes
cons_or_none true c rest = none
cons_or_none false c none = none
cons_or_none false c (some rest) = some (c ∷ rest)

decode_strict : ℕ → Bytes → Option Bytes
unfolding decode_char
decode_strict fuel [] = some []
decode_strict zero (b ∷ s) = none
decode_strict (suc fuel) (b ∷ s) =
    let (c, rest) = decode_char b s in
    cons_or_none (c == 0xFFFD && not (encodes_replacement b s)) c (decode_strict fuel rest)

-- `String::from_utf8`, `none` where the bytes are ill-formed.
unfoldable pub from_utf8 : Bytes → Option Bytes
unfolding decode_strict
from_utf8 s = decode_strict (length s) s
