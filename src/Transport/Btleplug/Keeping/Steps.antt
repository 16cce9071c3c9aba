-- ===== src/Transport/Btleplug/Keeping/Steps.antt =====
-- What the calls of the system keep, the steps of `connect` in src/btleplug_transport.rs keep: its
-- wait for power, its subscription, and the names that it reads.
use allsquare.Transport.Tasks.Ends.{Ends, and_then-Ends}
use allsquare.Transport.Tasks.{from_millis, Result, good, bad, Task, and_then, ◌>>◌}
use allsquare.Base.{ℕ, zero, suc, ◌+◌, Bool-cases, Option, some, none, inl, inr, Bytes, leb, false}
use allsquare.Error.{Error, backend}
use allsquare.Transport.Btleplug.Calls.{
  op_timeout, settle_time, state_grace, CentralState, powered_on, powered_off, unknown, System, op,
}
use allsquare.Transport.Btleplug.Scan.{
  ScanFailure, from_error, scan_error_at, powered, wait_loop, wait_powered, search, find,
  read_advertised_name,
}
use allsquare.Transport.Btleplug.Connect.{evt_of, subscribe, opened_name}
use allsquare.Transport.Btleplug.Keeping.{
  Searches, SetsUp, Keeps, read_advertised_name-Gives, search-Ends,
}
use allsquare.Transport.Btleplug.Logic.{op-Ends, scan_error-Ends}

-- What holds after the state of an adapter was read: `J` of the failure, where it is off.
abbrev pub Stated :
    {W : Type 0} → (W → Type 0) → (ScanFailure → W → Type 0) → CentralState → W → Type 0
Stated I J powered_off w =
    J (record { error = backend "Bluetooth is powered off"; reusable = false }) w
Stated I J powered_on w = I w
Stated I J unknown w = I w

-- `I` is kept by a search for a device that finds one, and gives `J` where it fails.
pub record Finds {W A P : Type 0} (s : System W A P) (I : W → Type 0) (J : ScanFailure → W → Type 0)
    : Type 0 where
  pub searches : Searches s I
  pub fails : (e : Error) (w : W) → I w → J (from_error e) w
  pub state_read :
      (a : A) (w : W)
      → I w
      → Ends (Stated I J) (λ e. I) (op "adapter state" (s.adapter_state op_timeout a) w)

module _ {W A P : Type 0} (s : System W A P) (I : W → Type 0) (J : ScanFailure → W → Type 0)
    (finds : Finds s I J) where
  powered-Ends :
      (deadline : ℕ) (state : CentralState) (rest : Task W ScanFailure (Unit {0})) (w : W)
      → Stated I J state w
      → ((v : W) → I v → Ends (λ u. I) J (rest v))
      → Ends (λ u. I) J (powered s deadline state rest w)
  unfolding powered
  powered-Ends deadline powered_on rest w h k = h
  powered-Ends deadline powered_off rest w h k = h
  powered-Ends deadline unknown rest w h k = elim (Bool-cases (leb deadline (s.now w).1)) [
    | inl e ↦ rw e (finds.searches.read w h)
    | inr e ↦ rw e (
        k (s.sleep (from_millis 100) (s.now w).0)
          (finds.searches.slept (from_millis 100) (s.now w).0 (finds.searches.read w h)))
  ]

  wait_loop-Ends :
      (n deadline : ℕ) (a : A) (w : W) → I w → Ends (λ u. I) J (wait_loop s n deadline a w)
  unfolding wait_loop
  wait_loop-Ends zero deadline a w h = tt
  wait_loop-Ends (suc n) deadline a w h =
      let o = op "adapter state" (s.adapter_state op_timeout a) w in
      and_then-Ends (Stated I J) (λ u. I) J
        (λ state. powered s deadline state (wait_loop s n deadline a)) (scan_error_at o)
        (scan_error-Ends (Stated I J) (λ e. I) J o (finds.state_read a w h) finds.fails)
        (λ state v h'.
          powered-Ends deadline state (wait_loop s n deadline a) v h' (wait_loop-Ends n deadline a))

  pub wait_powered-Ends : (n : ℕ) (a : A) (w : W) → I w → Ends (λ u. I) J (wait_powered s n a w)
  unfolding wait_powered
  wait_powered-Ends n a w h =
      let (v, t) = s.now w in wait_loop-Ends n (t + state_grace) a v (finds.searches.read w h)

  pub find-Ends :
      (n : ℕ) (a : A) (pin : Option Bytes) (w : W) → I w → Ends (λ x. I) J (find s n a pin w)
  unfolding find
  find-Ends n a pin w h =
      and_then-Ends (λ x. I) (λ x. I) J (λ u. search s n a pin) (wait_powered s n a w)
        (wait_powered-Ends n a w h) (λ u. search-Ends s I finds.searches J finds.fails n a pin)

module _ {W A P : Type 0} (s : System W A P) (I : W → Type 0) where
  pub Stated-Kept :
      (o : Option (W × Result Error CentralState))
      → Ends (λ state. I) (λ e. I) o
      → Ends (Stated I (λ e. I)) (λ e. I) o
  Stated-Kept none h = tt
  Stated-Kept (some (w, good powered_on)) h = h
  Stated-Kept (some (w, good powered_off)) h = h
  Stated-Kept (some (w, good unknown)) h = h
  Stated-Kept (some (w, bad e)) h = h

  Keeps-Finds : Keeps s I → Finds s I (λ e. I)
  Keeps-Finds keeps = record {
    searches = keeps.searches;
    fails = λ e w h. h;
    state_read = λ a w h. Stated-Kept (op "adapter state" (s.adapter_state op_timeout a) w) (
        op-Ends I "adapter state" (s.adapter_state op_timeout a) w
          (keeps.state_read op_timeout a w h));
  }

  pub find-Kept :
      (n : ℕ) (a : A) (pin : Option Bytes) (w : W)
      → Keeps s I
      → I w
      → Ends (λ x. I) (λ e. I) (find s n a pin w)
  find-Kept n a pin w keeps = find-Ends s I (λ e. I) (Keeps-Finds keeps) n a pin w

  pub opened_name-Ends :
      (J : Error → W → Type 0) (rounds : ℕ) (p : P) (name : Bytes) (advertised : Option Bytes)
      (w : W)
      → Searches s I
      → I w
      → Ends (λ x. I) J (opened_name s rounds p name advertised w)
  unfolding opened_name
  opened_name-Ends J rounds p name (some a) w searches h = h
  opened_name-Ends J rounds p name none w searches h =
      and_then-Ends (λ x. I) (λ x. I) J _ (read_advertised_name s rounds p 0 w)
        (read_advertised_name-Gives s I searches Error J rounds p 0 w h) (λ read v k. k)

  module _ (searches : Searches s I) (sets_up : SetsUp s I) where
    with_evt-Kept :
        (p : P) (w : W) (r : Result Error ℕ)
        → I w
        → Ends
            (λ (u : Unit {0}). I)
            (λ e. I)
            (and_then
              (λ evt.
                op "notifications" (s.notifications op_timeout p)
                >> op "subscribe" (s.subscribe op_timeout p evt))
              (some (w, r)))
    with_evt-Kept p w (bad e) h = h
    with_evt-Kept p w (good evt) h =
        and_then-Ends (λ u. I) (λ u. I) (λ e. I) _
          (op "notifications" (s.notifications op_timeout p) w)
          (op-Ends I "notifications" (s.notifications op_timeout p) w
            (sets_up.notified op_timeout p w h))
          (λ u y k.
            op-Ends I "subscribe" (s.subscribe op_timeout p evt) y
              (sets_up.subscribed op_timeout p evt y k))

    pub subscribe-Kept : (p : P) (w : W) → I w → Ends (λ u. I) (λ e. I) (subscribe s p w)
    unfolding subscribe
    subscribe-Kept p w h =
        let v = s.sleep settle_time w in
        and_then-Ends (λ u. I) (λ u. I) (λ e. I) _
          (op "discover" (s.discover_services op_timeout p) v)
          (op-Ends I "discover" (s.discover_services op_timeout p) v
            (sets_up.discovered op_timeout p v (searches.slept settle_time w h)))
          (λ u x k. with_evt-Kept p x (evt_of s p x) k)
