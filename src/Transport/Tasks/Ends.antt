-- ===== src/Transport/Tasks/Ends.antt =====
-- What holds when a task returns, from what its steps return.
use allsquare.Base.{Option, some, none}
use allsquare.Transport.Tasks.{Result, good, bad, Task, and_then, caught_at}

module _ {W : Type 0} where
  -- `I` holds of a value and the state it is returned in, `J` of an error and its state.
  abbrev pub Ends :
      {E A : Type 0} → (A → W → Type 0) → (E → W → Type 0) → Option (W × Result E A) → Type 0
  Ends I J none = Unit {0}
  Ends I J (some (w, good a)) = I a w
  Ends I J (some (w, bad e)) = J e w

  pub and_then-Ends :
      {E A B : Type 0} (I : A → W → Type 0) (K : B → W → Type 0) (J : E → W → Type 0)
      (f : A → Task W E B) (o : Option (W × Result E A))
      → Ends I J o
      → ((a : A) (w : W) → I a w → Ends K J (f a w))
      → Ends K J (and_then f o)
  and_then-Ends I K J f none h k = tt
  and_then-Ends I K J f (some (w, good a)) h k = k a w h
  and_then-Ends I K J f (some (w, bad e)) h k = h

  pub map-Ends :
      {E A : Type 0} (I K : A → W → Type 0) (J : E → W → Type 0) (o : Option (W × Result E A))
      → Ends I J o
      → ((a : A) (w : W) → I a w → K a w)
      → Ends K J o
  map-Ends I K J none h k = tt
  map-Ends I K J (some (w, good a)) h k = k a w h
  map-Ends I K J (some (w, bad e)) h k = h

  pub caught-Ends :
      {E G A B : Type 0} (I : A → W → Type 0) (J : E → W → Type 0) (K : B → W → Type 0)
      (L : G → W → Type 0) (f : Result E A → Task W G B) (o : Option (W × Result E A))
      → Ends I J o
      → ((a : A) (w : W) → I a w → Ends K L (f (good a) w))
      → ((e : E) (w : W) → J e w → Ends K L (f (bad e) w))
      → Ends K L (and_then f (caught_at o))
  caught-Ends I J K L f none h k l = tt
  caught-Ends I J K L f (some (w, good a)) h k l = k a w h
  caught-Ends I J K L f (some (w, bad e)) h k l = l e w h
