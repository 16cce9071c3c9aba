-- ===== src/Transport/Tasks.antt =====
-- Blocking code on a state, as the transports of src/bluez.rs and src/btleplug_transport.rs connect: it
-- may fail, and may use up the rounds that its loops have.
pub mod Ends
pub mod Back
use allsquare.Base.{ℕ, ◌*◌, Option, some, none}
use allsquare.Error.{Error, Outcome}

-- `Duration::from_millis`, in nanoseconds.
abbrev pub from_millis : ℕ → ℕ
from_millis n = n * 1_000_000

-- `std::result::Result`.
pub data Result (E A : Type 0) : Type 0 where
  good : A → Result E A
  bad : E → Result E A

-- Blocking code on a state, `none` if a loop has used up its rounds.
abbrev pub Task : Type 0 → Type 0 → Type 0 → Type 0
Task W E A = W → Option (W × Result E A)

module _ {W E : Type 0} where
  abbrev pub give : {A : Type 0} → A → Task W E A
  give a w = some (w, good a)

  abbrev pub raise : {A : Type 0} → E → Task W E A
  raise e w = some (w, bad e)

  abbrev pub call : {A : Type 0} → (W → W × A) → Task W E A
  call f w = let (w', a) = f w in some (w', good a)

  abbrev pub pause : (W → W) → Task W E (Unit {0})
  pause f w = some (f w, good tt)

  abbrev pub and_then :
      {A B : Type 0} → (A → Task W E B) → Option (W × Result E A) → Option (W × Result E B)
  and_then f none = none
  and_then f (some (w, good a)) = f a w
  and_then f (some (w, bad e)) = some (w, bad e)

  infixl 5 ◌>>=◌ ◌>>◌
  abbrev pub ◌>>=◌ : {A B : Type 0} → Task W E A → (A → Task W E B) → Task W E B
  (m >>= f) w = and_then f (m w)

  abbrev pub ◌>>◌ : {A B : Type 0} → Task W E A → Task W E B → Task W E B
  m >> k = m >>= λ _. k

  -- The result of a task as a value, as `match` takes it.
  abbrev pub caught_at :
      {A G : Type 0} → Option (W × Result E A) → Option (W × Result G (Result E A))
  caught_at none = none
  caught_at (some (w, r)) = some (w, good r)

  abbrev pub caught : {A G : Type 0} → Task W E A → Task W G (Result E A)
  caught m w = caught_at (m w)

abbrev pub as_outcome : {A : Type 0} → Result Error A → Outcome A
as_outcome (good a) = Outcome.ok a
as_outcome (bad e) = Outcome.err e
