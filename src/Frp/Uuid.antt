-- ===== src/Frp/Uuid.antt =====
-- src/frp/mod.rs: `uuid_v4`, by xorshift128+ on 64-bit words.
pub mod Shape
use allsquare.Base.{
  ℕ, zero, suc, ◌+◌, ◌*◌, ◌/◌, ◌%◌, ◌^◌, List, [], ◌∷◌, ◌++◌, bit_and, bit_or, bit_xor, ◌==◌, ltb,
  if◌then◌else◌, Bytes, set, get_elem?, Option, some, none,
}

abbrev pub u64 : ℕ
u64 = 2 ^ 64

-- The two words of the generator.
pub record Words : Type 0 where
  pub s0 : ℕ
  pub s1 : ℕ

unfoldable pub seed_words : ℕ → Words
seed_words seed =
    let s0 = seed % u64 in
    let s1 = seed * 6_364_136_223_846_793_005 % 2 ^ 128 % u64 in
    record {
      s0 = if s0 == 0 then 0x1234_5678_9abc_def0 else s0;
      s1 = if s1 == 0 then 0xfedc_ba98_7654_3210 else s1;
    }

-- One round of the loop over the chunks.
unfoldable pub xorshift : Words → Words
xorshift w =
    let x0 = w.s0 in
    let y = w.s1 in
    let x1 = bit_xor x0 (x0 * 2 ^ 23 % u64) in
    let x2 = bit_xor x1 (x1 / 2 ^ 17) in
    let x3 = bit_xor x2 y in record { s0 = y; s1 = bit_xor x3 (y / 2 ^ 26) }

-- `u64::to_le_bytes`, the lowest `n` bytes.
unfoldable pub le_bytes : ℕ → ℕ → Bytes
le_bytes zero v = []
le_bytes (suc n) v = v % 256 ∷ le_bytes n (v / 256)

unfoldable pub chunk : Words → Bytes
chunk w = le_bytes 8 ((w.s0 + w.s1) % u64)

-- `bytes[i] = f(bytes[i])`.
abbrev pub modify : ℕ → (ℕ → ℕ) → Bytes → Bytes
modify i f bytes = elim (get_elem? bytes i) [ some v ↦ set bytes i (f v) | none ↦ bytes ]

unfoldable pub uuid_bytes : ℕ → Bytes
uuid_bytes seed =
    let w1 = xorshift (seed_words seed) in
    let w2 = xorshift w1 in
    let bytes = chunk w1 ++ chunk w2 in
    modify 8 (λ v. bit_or (bit_and v 0x3f) 0x80)
      (modify 6 (λ v. bit_or (bit_and v 0x0f) 0x40) bytes)

abbrev pub hex_digit : ℕ → ℕ
hex_digit v = if ltb v 10 then b'0' + v else 87 + v

-- `{:02x}`.
abbrev pub hex_byte : ℕ → Bytes
hex_byte v = hex_digit (v / 16) ∷ hex_digit (v % 16) ∷ []

-- The bytes from position `i` on, with a hyphen before those at 4, 6, 8 and 10.
unfoldable pub show_uuid : ℕ → Bytes → Bytes
show_uuid i [] = []
show_uuid i (v ∷ vs) =
    let tail = hex_byte v ++ show_uuid (i + 1) vs in
    if i == 4
    then b'-' ∷ tail
    else if i == 6
    then b'-' ∷ tail
    else if i == 8
    then b'-' ∷ tail
    else if i == 10
    then b'-' ∷ tail
    else tail

unfoldable pub uuid_v4 : ℕ → Bytes
uuid_v4 nanos = show_uuid 0 (uuid_bytes nanos)
