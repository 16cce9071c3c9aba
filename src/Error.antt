-- ===== src/Error.antt =====
-- src/error.rs: the error type and `Result`. `Outcome` adds the panic of an index out of range to
-- the two cases of `Result`; `Io` is `std::io::Result`.
use Prim.Native.String.{String}
use allsquare.Base.{
  ℕ, ◌-◌, ◌≤◌, ◌<◌, ◌≡◌, ◌≢◌, ◌&&◌, none, some, leb, le→leb, if◌then◌else◌, length, get_elem?,
  get_elem?-lt, take, drop, Bytes,
}

-- `io::ErrorKind`, with the kinds that the code names.
pub data ErrorKind : Type 0 where
  would_block not_found not_connected timed_out other : ErrorKind

pub record IoError : Type 0 where
  pub kind : ErrorKind
  pub message : String

pub data Io (A : Type 0) : Type 0 where
  done : A → Io A
  failed : IoError → Io A

pub data Error : Type 0 where
  truncated : String → ℕ → ℕ → Error
  unknown_family : ℕ → Error
  unknown_notification : ℕ → Error
  disconnected : Error
  transport : IoError → Error
  not_found : Error
  backend : String → Error

pub data Outcome (A : Type 0) : Type 0 where
  ok : A → Outcome A
  err : Error → Outcome A
  panic : Outcome A

module _ {A B : Type 0} where
  infixl 5 ◌>>=◌ ◌>>◌
  abbrev pub ◌>>=◌ : Outcome A → (A → Outcome B) → Outcome B
  ok a >>= f = f a
  err e >>= f = err e
  panic >>= f = panic

  abbrev pub ◌>>◌ : Outcome A → Outcome B → Outcome B
  m >> k = m >>= λ _. k

-- The call does not panic.
abbrev pub NoPanic : {A : Type 0} → Outcome A → Type 0
NoPanic (ok a) = Unit {0}
NoPanic (err e) = Unit {0}
NoPanic panic = ⊥

-- The call answers: it does not panic, and it does not say that the link is gone.
abbrev pub IsAnswer : {A : Type 0} → Outcome A → Type 0
IsAnswer (ok a) = Unit {0}
IsAnswer (err disconnected) = ⊥
IsAnswer (err e) = Unit {0}
IsAnswer panic = ⊥

module _ {A B : Type 0} where
  pub bind_IsAnswer :
      (m : Outcome A) (f : A → Outcome B)
      → IsAnswer m
      → ((a : A) → IsAnswer (f a))
      → IsAnswer (m >>= f)
  bind_IsAnswer (ok a) f h k = k a
  bind_IsAnswer (err disconnected) f h k = h
  bind_IsAnswer (err (truncated _ _ _)) f h k = h
  bind_IsAnswer (err _) f h k = h
  bind_IsAnswer panic f h k = h

pub IsAnswer-NoPanic : {A : Type 0} (r : Outcome A) → IsAnswer r → NoPanic r
IsAnswer-NoPanic (ok a) h = tt
IsAnswer-NoPanic (err e) h = tt
IsAnswer-NoPanic panic h = h

pub IsAnswer-ne : {A : Type 0} (r : Outcome A) → IsAnswer r → r ≢ err disconnected
IsAnswer-ne (ok a) h e = cc
IsAnswer-ne (err disconnected) h e = h
IsAnswer-ne (err _) h e = cc
IsAnswer-ne panic h e = h

-- `data[i]`.
unfoldable pub index : Bytes → ℕ → Outcome ℕ
index xs i = elim (get_elem? xs i) [ some v ↦ ok v | none ↦ panic ]

-- `data[lo..hi]`.
unfoldable pub slice : Bytes → ℕ → ℕ → Outcome Bytes
slice xs lo hi = if leb lo hi && leb hi (length xs) then ok (take (hi - lo) (drop lo xs)) else panic

-- `data[lo..]`.
unfoldable pub slice_from : Bytes → ℕ → Outcome Bytes
slice_from xs lo = if leb lo (length xs) then ok (drop lo xs) else panic

pub index-IsAnswer : (xs : Bytes) (i : ℕ) → i < length xs → IsAnswer (index xs i)
unfolding index
index-IsAnswer xs i h = let (v, e) = get_elem?-lt xs i h in rw (e, IsAnswer, index) tt

pub slice-eq-ok :
    (xs : Bytes) (lo hi : ℕ)
    → lo ≤ hi
    → hi ≤ length xs
    → slice xs lo hi ≡ ok (take (hi - lo) (drop lo xs))
unfolding slice
slice-eq-ok xs lo hi h k = rw (le→leb lo hi h, le→leb hi (length xs) k)

pub slice_from-eq-ok : (xs : Bytes) (lo : ℕ) → lo ≤ length xs → slice_from xs lo ≡ ok (drop lo xs)
unfolding slice_from
slice_from-eq-ok xs lo h = rw (le→leb lo (length xs) h)
