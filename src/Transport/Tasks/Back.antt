-- ===== src/Transport/Tasks/Back.antt =====
-- That a task returns, and not before a time.
use allsquare.Base.{ℕ, ◌≤◌, Option, some, none, arith}
use allsquare.Transport.Tasks.{Result, good, bad, Task, and_then, caught_at}

module _ {W : Type 0} (time : W → ℕ) where
  -- A task has returned, not before `t`.
  abbrev pub Back : {E A : Type 0} → ℕ → Option (W × Result E A) → Type 0
  Back t none = ⊥
  Back t (some (w, r)) = t ≤ time w

  pub Back-earlier :
      {E A : Type 0} (t u : ℕ) (o : Option (W × Result E A)) → t ≤ u → Back u o → Back t o
  Back-earlier t u none h k = k
  Back-earlier t u (some (w, r)) h k = omega arith

  pub and_then-Back :
      {E A B : Type 0} (t : ℕ) (f : A → Task W E B) (o : Option (W × Result E A))
      → Back t o
      → ((a : A) (w : W) → t ≤ time w → Back t (f a w))
      → Back t (and_then f o)
  and_then-Back t f none h k = h
  and_then-Back t f (some (w, good a)) h k = k a w h
  and_then-Back t f (some (w, bad e)) h k = h

  pub caught-Back :
      {E G A B : Type 0} (t : ℕ) (f : Result E A → Task W G B) (o : Option (W × Result E A))
      → Back t o
      → ((r : Result E A) (w : W) → t ≤ time w → Back t (f r w))
      → Back t (and_then f (caught_at o))
  caught-Back t f none h k = h
  caught-Back t f (some (w, r)) h k = k r w h
