-- ===== src/Transport/Btleplug/Ending.antt =====
-- The loops of src/btleplug_transport.rs end, by a clock that moves on with every sleep.
mod Waits
mod Scans
mod Attempts
pub mod Connects
use Prim.Native.String.{String}
use allsquare.Transport.Tasks.Back.{Back, Back-earlier, and_then-Back, caught-Back}
use allsquare.Transport.Tasks.{from_millis, Result, good, bad, Task, give, and_then, caught_at}
use allsquare.Base.{
  ℕ, zero, suc, ◌+◌, ◌*◌, ◌≤◌, ◌<◌, Bool-cases, List, [], ◌∷◌, Option, some, none, ◌≡◌, refl, arith,
  inl, inr, Bytes, leb, ltb, true, false, if◌then◌else◌,
}
use allsquare.Error.{Error}
use allsquare.Protocol.Names.{advertised_name}
use allsquare.Transport.Btleplug.Calls.{
  scan_timeout, op_timeout, name_wait, name_poll, state_grace, Answer, ended, denied, refused,
  elapsed, CentralState, powered_on, powered_off, unknown, Properties, System, op,
}
use allsquare.Transport.Btleplug.Scan.{
  Found, ScanFailure, scan_error_at, name_in, powered, wait_loop, wait_powered, named, name_loop,
  read_advertised_name, match_name, found_at, consider, scan_list, scan_listed, or_again,
  scan_round, scan_loop, scan, find, found_or, accepts, shown_address,
}
use allsquare.Transport.Btleplug.Connect.{
  Process, within, runtime, take_scanner, link, subscribe, open_transport, attempt, settle, connect,
}

-- A clock of the system: `now` reads it, a sleep lasts as long as it is asked to, and no call turns
-- it back.
pub record IsClock {W A P : Type 0} (s : System W A P) (time : W → ℕ) : Type 0 where
  pub slept : (d : ℕ) (w : W) → time w + d ≤ time (s.sleep d w)
  pub read_after : (w : W) → time w ≤ (s.now w).1
  pub read_before : (w : W) → (s.now w).1 ≤ time (s.now w).0
  pub built : (w : W) → time w ≤ time (s.build_runtime w).0
  pub managed : (l : ℕ) (w : W) → time w ≤ time (s.new_manager l w).0
  pub listed : (l : ℕ) (w : W) → time w ≤ time (s.adapters l w).0
  pub state_read : (l : ℕ) (a : A) (w : W) → time w ≤ time (s.adapter_state l a w).0
  pub started : (l : ℕ) (a : A) (w : W) → time w ≤ time (s.start_scan l a w).0
  pub stopped : (l : ℕ) (a : A) (w : W) → time w ≤ time (s.stop_scan l a w).0
  pub scanned : (l : ℕ) (a : A) (w : W) → time w ≤ time (s.peripherals l a w).0
  pub watched : (l : ℕ) (a : A) (w : W) → time w ≤ time (s.events l a w).0
  pub described : (l : ℕ) (p : P) (w : W) → time w ≤ time (s.properties l p w).0
  pub connected : (l : ℕ) (p : P) (w : W) → time w ≤ time (s.connect l p w).0
  pub disconnected : (l : ℕ) (p : P) (w : W) → time w ≤ time (s.disconnect l p w).0
  pub discovered : (l : ℕ) (p : P) (w : W) → time w ≤ time (s.discover_services l p w).0
  pub notified : (l : ℕ) (p : P) (w : W) → time w ≤ time (s.notifications l p w).0
  pub subscribed : (l : ℕ) (p : P) (u : ℕ) (w : W) → time w ≤ time (s.subscribe l p u w).0

module _ {W : Type 0} (time : W → ℕ) where
  pub scan_error-Back :
      {A : Type 0} (t : ℕ) (o : Option (W × Result Error A))
      → Back time t o
      → Back time t (scan_error_at o)
  scan_error-Back t none h = h
  scan_error-Back t (some (w, good a)) h = h
  scan_error-Back t (some (w, bad e)) h = h

  pub op-Back :
      {A : Type 0} (t : ℕ) (name : String) (f : W → W × Answer A) (w : W)
      → t ≤ time (f w).0
      → Back time t (op name f w)
  unfolding op
  op-Back t name f w h = h

  pub op_then-Back :
      {A B : Type 0} (t : ℕ) (name : String) (f : W → W × Answer A) (k : A → Task W Error B) (w : W)
      → t ≤ time (f w).0
      → ((a : A) (v : W) → t ≤ time v → Back time t (k a v))
      → Back time t (and_then k (op name f w))
  op_then-Back t name f k w h r = and_then-Back time t k (op name f w) (op-Back t name f w h) r
