-- ===== src/Text.antt =====
-- The string operations of the standard library that the code calls. A `str` is the list of its
-- code points; what the code searches for is ASCII, so its byte offsets fall between code points.
pub mod Utf8
use Prim.Native.Char.{code}
use Prim.Native.String.{String}
use mathlib.Core.List.{reverse}
use allsquare.Base.{
  ℕ, zero, suc, ◌+◌, Bool, true, false, not, ◌&&◌, ◌||◌, List, [], ◌∷◌, Option, some, none, ◌==◌,
  leb, if◌then◌else◌, Bytes,
}

-- The code points of a literal.
abbrev pub codes : String → Bytes
codes String.[] = []
codes (String.◌∷◌ c s) = code c ∷ codes s

-- `str::strip_prefix`.
unfoldable pub strip_prefix : Bytes → Bytes → Option Bytes
strip_prefix [] s = some s
strip_prefix (p ∷ ps) [] = none
strip_prefix (p ∷ ps) (c ∷ s) = if p == c then strip_prefix ps s else none

abbrev pub is_some {ℓ} : {A : Type ℓ} → Option A → Bool
is_some none = false
is_some (some a) = true

unfoldable pub starts_with : Bytes → Bytes → Bool
unfolding strip_prefix
starts_with p s = is_some (strip_prefix p s)

-- `str::strip_suffix` of one character.
unfoldable pub strip_last : ℕ → Bytes → Option Bytes
strip_last c [] = none
strip_last c (x ∷ []) = if x == c then some [] else none
strip_last c (x ∷ y ∷ s) = elim (strip_last c (y ∷ s)) [ some r ↦ some (x ∷ r) | none ↦ none ]

-- `&s[s.find(p)? + p.len()..]`: what follows the first occurrence of `p`.
unfoldable pub after_first : Bytes → Bytes → Option Bytes
unfolding strip_prefix
after_first p [] = strip_prefix p []
after_first p (c ∷ s) = elim (strip_prefix p (c ∷ s)) [ some r ↦ some r | none ↦ after_first p s ]

-- `&s[..s.find(c)?]`: what stands before the first occurrence of the character `c`.
unfoldable pub before_first : ℕ → Bytes → Option Bytes
before_first c [] = none
before_first c (x ∷ s) = elim (x == c) [
  | true ↦ some []
  | false ↦ elim (before_first c s) [ some r ↦ some (x ∷ r) | none ↦ none ]
]

-- `str::rsplit_once`: the parts round the last occurrence of `p`.
unfoldable pub rsplit_once : Bytes → Bytes → Option (Bytes × Bytes)
unfolding strip_prefix
rsplit_once p [] = none
rsplit_once p (c ∷ s) = elim (rsplit_once p s) [
  | some (l, r) ↦ some (c ∷ l, r)
  | none ↦ elim (strip_prefix p (c ∷ s)) [ some r ↦ some ([], r) | none ↦ none ]
]

-- `char::is_whitespace`: the property `White_Space`.
unfoldable pub is_whitespace : ℕ → Bool
is_whitespace c =
    (leb 0x09 c && leb c 0x0D)
    || c == 0x20
    || c == 0x85
    || c == 0xA0
    || c == 0x1680
    || (leb 0x2000 c && leb c 0x200A)
    || c == 0x2028
    || c == 0x2029
    || c == 0x202F
    || c == 0x205F
    || c == 0x3000

unfoldable pub trim_start : Bytes → Bytes
unfolding is_whitespace
trim_start [] = []
trim_start (c ∷ s) = elim (is_whitespace c) [ true ↦ trim_start s | false ↦ c ∷ s ]

unfoldable pub trim : Bytes → Bytes
unfolding trim_start
trim s = reverse (trim_start (reverse (trim_start s)))

-- `to_ascii_lowercase` of a character.
unfoldable pub ascii_lower : ℕ → ℕ
ascii_lower c = if leb b'A' c && leb c b'Z' then c + 32 else c

unfoldable pub eq_ignore_ascii_case : Bytes → Bytes → Bool
unfolding ascii_lower
eq_ignore_ascii_case [] [] = true
eq_ignore_ascii_case (x ∷ xs) (y ∷ ys) =
    ascii_lower x == ascii_lower y && eq_ignore_ascii_case xs ys
eq_ignore_ascii_case _ _ = false
