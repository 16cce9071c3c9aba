-- ===== src/Frp/Uuid/Shape.antt =====
-- The identifiers of src/frp/mod.rs against the form of a random UUID.
use allsquare.Base.{
  ℕ, zero, suc, ◌+◌, ◌/◌, ◌%◌, Bool, true, false, ◌&&◌, ◌||◌, List, [], ◌∷◌, ◌≡◌, refl, arith, leb,
  ◌==◌, Bytes, bit_and, bit_or,
}
use allsquare.Base.Bits.{table, table_entry}
use allsquare.Frp.Uuid.{
  u64, seed_words, xorshift, le_bytes, chunk, uuid_bytes, hex_digit, show_uuid, uuid_v4,
}

-- What may stand at a position.
pub data Place : Type 0 where
  hyphen hex version variant : Place

-- A lower-case hexadecimal digit.
abbrev pub is_hex : ℕ → Bool
is_hex c = (leb b'0' c && leb c b'9') || (leb b'a' c && leb c b'f')

abbrev pub admits : Place → ℕ → Bool
admits Place.hyphen c = c == b'-'
admits Place.hex c = is_hex c
admits Place.version c = c == b'4'
admits Place.variant c = c == b'8' || c == b'9' || c == b'a' || c == b'b'

abbrev pub matches : List Place → Bytes → Bool
matches [] [] = true
matches (p ∷ ps) (c ∷ cs) = admits p c && matches ps cs
matches _ _ = false

abbrev hex_4 : List Place → List Place
hex_4 ps = Place.hex ∷ Place.hex ∷ Place.hex ∷ Place.hex ∷ ps

abbrev hex_3 : List Place → List Place
hex_3 ps = Place.hex ∷ Place.hex ∷ Place.hex ∷ ps

-- xxxxxxxx-xxxx-4xxx-yxxx-xxxxxxxxxxxx
abbrev pub uuid_form : List Place
uuid_form = hex_4 (
    hex_4 (
      Place.hyphen
      ∷ hex_4 (
          Place.hyphen
          ∷ Place.version
          ∷ hex_3
              (Place.hyphen ∷ Place.variant ∷ hex_3 (Place.hyphen ∷ hex_4 (hex_4 (hex_4 [])))))))

-- Tests of the two digits of a byte.
abbrev plain_byte : ℕ → Bool
plain_byte v = is_hex (hex_digit (v / 16)) && is_hex (hex_digit (v % 16))

abbrev version_byte : ℕ → Bool
version_byte v =
    let u = bit_or (bit_and v 0x0f) 0x40 in
    admits Place.version (hex_digit (u / 16)) && is_hex (hex_digit (u % 16))

abbrev variant_byte : ℕ → Bool
variant_byte v =
    let u = bit_or (bit_and v 0x3f) 0x80 in
    admits Place.variant (hex_digit (u / 16)) && is_hex (hex_digit (u % 16))

tables :
    (table plain_byte 256 ≡ true)
    × (table version_byte 256 ≡ true)
    × (table variant_byte 256 ≡ true)
unfolding table
tables = (refl, refl, refl)

byte-digits :
    (x : ℕ)
    → (is_hex (hex_digit (x % 256 / 16)) ≡ true) × (is_hex (hex_digit (x % 256 % 16)) ≡ true)
byte-digits x = ground (arith, table_entry plain_byte 256 (x % 256) (omega arith) tables.0)

version-digits :
    (x : ℕ)
    → let u = bit_or (bit_and (x % 256) 0x0f) 0x40 in
      (admits Place.version (hex_digit (u / 16)) ≡ true) × (is_hex (hex_digit (u % 16)) ≡ true)
version-digits x = ground (arith, table_entry version_byte 256 (x % 256) (omega arith) tables.1)

variant-digits :
    (x : ℕ)
    → let u = bit_or (bit_and (x % 256) 0x3f) 0x80 in
      (admits Place.variant (hex_digit (u / 16)) ≡ true) × (is_hex (hex_digit (u % 16)) ≡ true)
variant-digits x = ground (arith, table_entry variant_byte 256 (x % 256) (omega arith) tables.2)

-- The rest of a word after `n` of its bytes.
abbrev high : ℕ → ℕ → ℕ
high v zero = v
high v (suc n) = high (v / 256) n

pair : {p q r : Bool} → (p ≡ true) × (q ≡ true) → r ≡ true → (p && (q && r)) ≡ true
pair (h, k) t = rw (h, k) t

-- Whatever the clock reads, a shot's identifier has the form of a version 4 UUID: 36 characters,
-- hyphens after the eighth, twelfth, sixteenth and twentieth digit, the digits lower-case
-- hexadecimal, the version digit 4 and the variant digit one of 8, 9, a and b.
pub uuid_v4-matches : (nanos : ℕ) → matches uuid_form (uuid_v4 nanos) ≡ true
unfolding uuid_v4 show_uuid uuid_bytes chunk le_bytes
uuid_v4-matches nanos =
    let w1 = xorshift (seed_words nanos) in
    let w2 = xorshift w1 in
    let v = high ((w1.s0 + w1.s1) % u64) in
    let w = high ((w2.s0 + w2.s1) % u64) in
    let b = byte-digits in
    pair (b (v 0)) (
      pair (b (v 1)) (
        pair (b (v 2)) (
          pair (b (v 3)) (
            pair (b (v 4)) (
              pair (b (v 5)) (
                pair (version-digits (v 6)) (
                  pair (b (v 7)) (
                    pair (variant-digits (w 0)) (
                      pair (b (w 1)) (
                        pair (b (w 2)) (
                          pair (b (w 3)) (
                            pair (b (w 4))
                              (pair (b (w 5)) (pair (b (w 6)) (pair (b (w 7)) refl)))))))))))))))
