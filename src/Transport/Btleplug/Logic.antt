-- ===== src/Transport/Btleplug/Logic.antt =====
-- What holds when a task of src/btleplug_transport.rs returns, from what its steps return.
use Prim.Native.String.{String}
use allsquare.Transport.Tasks.Ends.{Ends}
use allsquare.Transport.Tasks.{Result, good, bad}
use allsquare.Base.{Option, some, none}
use allsquare.Error.{Error}
use allsquare.Transport.Btleplug.Calls.{Answer, op, op_result}
use allsquare.Transport.Btleplug.Scan.{ScanFailure, from_error, scan_error_at}
use allsquare.Transport.Btleplug.Connect.{Process, within_at}

module _ {W : Type 0} where
  result-Ends :
      {A : Type 0} (I : W → Type 0) (r : Result Error A) (w : W)
      → I w
      → Ends (λ (a : A). I) (λ (e : Error). I) (some (w, r))
  result-Ends I (good a) w h = h
  result-Ends I (bad e) w h = h

  pub op-Ends :
      {A : Type 0} (I : W → Type 0) (name : String) (f : W → W × Answer A) (w : W)
      → I (f w).0
      → Ends (λ (a : A). I) (λ (e : Error). I) (op name f w)
  unfolding op
  op-Ends I name f w h = result-Ends I (op_result name (f w).1) (f w).0 h

  pub scan_error-Ends :
      {A : Type 0} (I : A → W → Type 0) (K : Error → W → Type 0) (J : ScanFailure → W → Type 0)
      (o : Option (W × Result Error A))
      → Ends I K o
      → ((e : Error) (w : W) → K e w → J (from_error e) w)
      → Ends I J (scan_error_at o)
  scan_error-Ends I K J none h fails = tt
  scan_error-Ends I K J (some (w, good a)) h fails = h
  scan_error-Ends I K J (some (w, bad e)) h fails = fails e w h

  -- What leaves the statics alone ends as the task that it runs.
  pub within-Ends :
      {A E B : Type 0} (I : B → W → Type 0) (J : E → W → Type 0) (K : B → Process W A → Type 0)
      (L : E → Process W A → Type 0) (p : Process W A) (o : Option (W × Result E B))
      → Ends I J o
      → ((b : B) (w : W) → I b w → K b (record p { world = w }))
      → ((e : E) (w : W) → J e w → L e (record p { world = w }))
      → Ends K L (within_at p o)
  within-Ends I J K L p none h k l = tt
  within-Ends I J K L p (some (w, good b)) h k l = k b w h
  within-Ends I J K L p (some (w, bad e)) h k l = l e w h
