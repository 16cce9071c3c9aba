-- ===== src/Build.antt =====
-- What a build of the crate fixes: the `f64` arithmetic that the code calls, and the
-- `raw-face-impact` feature of Cargo.toml. The type `F` of `f64` values and its operations are
-- parameters of the models that use them.
use allsquare.Base.{ℕ, Bool, ℤ, pos}

pub record Build (F : Type 0) : Type 0 where
  pub raw_face_impact : Bool
  -- `f64::from` of an integer, also the value of a literal such as `100.0`.
  pub of_int : ℤ → F
  pub add : F → F → F
  pub mul : F → F → F
  pub div : F → F → F
  pub neg : F → F
  pub round : F → F
  pub clamp : F → F → F → F
  -- `v as i16`.
  pub as_i16 : F → ℤ

abbrev pub lit : {F : Type 0} → Build F → ℕ → F
lit b n = b.of_int (pos n)
