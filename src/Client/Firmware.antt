-- ===== src/Client/Firmware.antt =====
-- src/client.rs: the firmware versions, and the reader of their JSON.
use allsquare.Base.{[], ◌∷◌, ◌++◌, some, none, Bytes}
use allsquare.Text.{codes, after_first, before_first}

pub record Firmware : Type 0 where
  pub launcher : Bytes
  pub mmi : Bytes
  pub lm : Bytes

-- What follows a name, a colon and a quote, up to the next quote; empty where one is missing.
unfoldable pub quoted_after_colon : Bytes → Bytes
unfolding after_first before_first
quoted_after_colon rest = elim (after_first (b':' ∷ []) rest) [
  | none ↦ []
  | some behind_colon ↦ elim (after_first (b'"' ∷ []) behind_colon) [
    | none ↦ []
    | some opened ↦ elim (before_first b'"' opened) [ none ↦ [] | some value ↦ value ]
  ]
]

-- The closure `field` of `Firmware::parse`.
unfoldable pub field_value : Bytes → Bytes → Bytes
unfolding after_first quoted_after_colon
field_value s key = elim (after_first (b'"' ∷ (key ++ b'"' ∷ [])) s) [
  | none ↦ []
  | some rest ↦ quoted_after_colon rest
]

-- `Firmware::parse`.
unfoldable pub parse_firmware : Bytes → Firmware
unfolding field_value
parse_firmware s = record {
  launcher = field_value s (codes "launcher");
  mmi = field_value s (codes "mmi");
  lm = field_value s (codes "lm");
}
