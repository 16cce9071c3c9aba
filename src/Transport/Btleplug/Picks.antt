-- ===== src/Transport/Btleplug/Picks.antt =====
-- The device that a scan of src/btleplug_transport.rs finds, and the name that it gives it.
pub mod Scans
use allsquare.Base.{ℕ, ◌+◌, Option, some, none, ◌≡◌, Bytes, leb, true, false}
use allsquare.Protocol.Names.{advertised_name}
use allsquare.Transport.Bluez.{or_default}
use allsquare.Transport.Btleplug.Calls.{op_timeout, name_poll, name_wait, ended, Properties, System}
use allsquare.Transport.Btleplug.Scan.{Found, name_in, or_else, accepts, shown_address}

-- The waits of a peripheral's advertised name, from a state to one after it: it is heard with the
-- peripheral's properties, or they are asked for again after a pause until the deadline has passed.
pub data Waits {W A P : Type 0} (s : System W A P) (p : P) (deadline : ℕ)
    : W → Option Bytes → W → Type 0 where
  hears :
      {name : Bytes} (w : W)
      → name_in (s.properties op_timeout p w).1 ≡ some name
      → Waits s p deadline w (some name) (s.properties op_timeout p w).0
  gives_up :
      (w : W)
      → name_in (s.properties op_timeout p w).1 ≡ none
      → leb deadline (s.now (s.properties op_timeout p w).0).1 ≡ true
      → Waits s p deadline w none (s.now (s.properties op_timeout p w).0).0
  pauses :
      {heard : Option Bytes} {u : W} (w : W)
      → name_in (s.properties op_timeout p w).1 ≡ none
      → leb deadline (s.now (s.properties op_timeout p w).0).1 ≡ false
      → Waits s p deadline (s.sleep name_poll (s.now (s.properties op_timeout p w).0).0) heard u
      → Waits s p deadline w heard u

-- The name of a match that was reported under another, from the state after the report to one after
-- the name: the advertised name within the reported one; or, where it holds none, the reported one
-- if a device is pinned, and else what is heard within the time for a name, or the reported one if
-- none is.
pub data NameOf {W A P : Type 0} (s : System W A P) (pin : Option Bytes) (p : P) (reported : Bytes)
    (w : W) : Bytes → W → Type 0 where
  advertised :
      {name : Bytes} → advertised_name reported ≡ some name → NameOf s pin p reported w name w
  pinned :
      {want : Bytes}
      → pin ≡ some want
      → advertised_name reported ≡ none
      → NameOf s pin p reported w reported w
  waited :
      {heard : Option Bytes} {u : W}
      → pin ≡ none
      → advertised_name reported ≡ none
      → Waits s p ((s.now w).1 + name_wait) (s.now w).0 heard u
      → NameOf s pin p reported w (or_else reported heard) u

-- The device of a scan that is over in a state: where the scan had come to a state that `I` holds
-- of, its peripheral answered with properties that the pin accepts, or that are a Square Golf
-- device's where nothing is pinned; its address is what they give, and its name was got next.
pub record IsPicked {W A P : Type 0} (s : System W A P) (pin : Option Bytes) (I : W → Type 0)
    (found : Found P) (over : W) : Type 0 where
  pub seen : W
  pub reached : I seen
  pub props : Properties
  pub answered : (s.properties op_timeout found.peripheral seen).1 ≡ ended (some props)
  pub located : found.address ≡ shown_address s found.peripheral props
  pub accepted : accepts pin found.address props ≡ true
  pub called :
      NameOf s pin found.peripheral
        (or_default props.local_name)
        (s.properties op_timeout found.peripheral seen).0
        found.name
        over

-- The states that the calls of a search lead to from `w`.
pub data Reaches {W A P : Type 0} (s : System W A P) (w : W) : W → Type 0 where
  at_once : Reaches s w w
  sleeps : {v : W} (d : ℕ) → Reaches s w v → Reaches s w (s.sleep d v)
  reads : {v : W} → Reaches s w v → Reaches s w (s.now v).0
  states : {v : W} (l : ℕ) (a : A) → Reaches s w v → Reaches s w (s.adapter_state l a v).0
  starts : {v : W} (l : ℕ) (a : A) → Reaches s w v → Reaches s w (s.start_scan l a v).0
  stops : {v : W} (l : ℕ) (a : A) → Reaches s w v → Reaches s w (s.stop_scan l a v).0
  lists : {v : W} (l : ℕ) (a : A) → Reaches s w v → Reaches s w (s.peripherals l a v).0
  describes : {v : W} (l : ℕ) (p : P) → Reaches s w v → Reaches s w (s.properties l p v).0
