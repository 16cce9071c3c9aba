-- ===== src/Transport/Btleplug/Ending/Waits.antt =====
-- `wait_powered` and `read_advertised_name` of src/btleplug_transport.rs.
use allsquare.Transport.Tasks.Back.{Back, Back-earlier, and_then-Back}
use allsquare.Transport.Tasks.{from_millis, Task, and_then}
use allsquare.Base.{
  ℕ, zero, suc, ◌+◌, ◌*◌, ◌≤◌, ◌<◌, Bool-cases, Option, some, none, arith, inl, inr, Bytes, leb,
}
use allsquare.Transport.Btleplug.Calls.{
  op_timeout, name_poll, state_grace, CentralState, powered_on, powered_off, unknown, System, op,
}
use allsquare.Transport.Btleplug.Scan.{
  ScanFailure, scan_error_at, name_in, powered, wait_loop, wait_powered, named, name_loop,
  read_advertised_name,
}
use allsquare.Transport.Btleplug.Ending.{IsClock, scan_error-Back}

module _ {W A P : Type 0} (s : System W A P) (time : W → ℕ) (clock : IsClock s time) where
  powered-Back :
      (t deadline : ℕ) (state : CentralState) (rest : Task W ScanFailure (Unit {0})) (w : W)
      → t ≤ time w
      → ((w' : W) → time w < deadline → time w + from_millis 100 ≤ time w' → Back time t (rest w'))
      → Back time t (powered s deadline state rest w)
  unfolding powered
  powered-Back t deadline powered_on rest w h k = h
  powered-Back t deadline powered_off rest w h k = h
  powered-Back t deadline unknown rest w h k = elim (Bool-cases (leb deadline (s.now w).1)) [
    | inl e ↦ rw e (omega (arith, clock.read_after w, clock.read_before w))
    | inr e ↦ rw e (
        k (s.sleep (from_millis 100) (s.now w).0) (grind (arith, clock.read_after w)) (
          omega (
            arith,
            clock.read_after w,
            clock.read_before w,
            clock.slept (from_millis 100) (s.now w).0,
          )))
  ]

  wait_round-Back :
      (deadline : ℕ) (rest : Task W ScanFailure (Unit {0})) (a : A) (w : W)
      → ((w' : W)
          → time w < deadline
          → time w + from_millis 100 ≤ time w'
          → Back time (time w) (rest w'))
      → Back time (time w) (
          and_then
            (λ state. powered s deadline state rest)
            (scan_error_at (op "adapter state" (s.adapter_state op_timeout a) w)))
  unfolding op
  wait_round-Back deadline rest a w k =
      let o = op "adapter state" (s.adapter_state op_timeout a) w in
      and_then-Back time (time w) (λ state. powered s deadline state rest) (scan_error_at o)
        (scan_error-Back time (time w) o (clock.state_read op_timeout a w))
        (λ state w' h.
          powered-Back (time w) deadline state rest w' h
            (λ v lt le. k v (omega arith) (omega arith)))

  wait_loop-Back :
      (n deadline : ℕ) (a : A) (w : W)
      → deadline ≤ time w + n * from_millis 100
      → Back time (time w) (wait_loop s (suc n) deadline a w)
  unfolding wait_loop
  wait_loop-Back zero deadline a w h =
      wait_round-Back deadline (wait_loop s zero deadline a) a w (λ v lt le. absurd (omega arith))
  wait_loop-Back (suc n) deadline a w h =
      wait_round-Back deadline (wait_loop s (suc n) deadline a) a w (λ v lt le.
        Back-earlier time (time w) (time v) (wait_loop s (suc n) deadline a v) (omega arith)
          (wait_loop-Back n deadline a v (omega arith)))

  pub wait_powered-Back :
      (n : ℕ) (a : A) (w : W) → 20 ≤ n → Back time (time w) (wait_powered s (suc n) a w)
  unfolding wait_powered
  wait_powered-Back n a w h =
      let (v, t) = s.now w in
      Back-earlier time (time w) (time v) (wait_loop s (suc n) (t + state_grace) a v)
        (omega (arith, clock.read_after w, clock.read_before w))
        (wait_loop-Back n (t + state_grace) a v (omega (arith, clock.read_before w)))

  module _ (E : Type 0) where
    named-Back :
        (t deadline : ℕ) (name : Option Bytes) (rest : Task W E (Option Bytes)) (w : W)
        → t ≤ time w
        → ((v : W) → time w < deadline → time w + name_poll ≤ time v → Back time t (rest v))
        → Back time t (named s deadline name rest w)
    unfolding named
    named-Back t deadline (some name) rest w h k = h
    named-Back t deadline none rest w h k = elim (Bool-cases (leb deadline (s.now w).1)) [
      | inl e ↦ rw e (omega (arith, clock.read_after w, clock.read_before w))
      | inr e ↦ rw e (
          k (s.sleep name_poll (s.now w).0) (grind (arith, clock.read_after w)) (
            omega
              (arith, clock.read_after w, clock.read_before w, clock.slept name_poll (s.now w).0)))
    ]

    name_loop-Back :
        (n deadline : ℕ) (p : P) (w : W)
        → deadline ≤ time w + n * name_poll
        → Back time (time w) (name_loop s {E = E} (suc n) deadline p w)
    unfolding name_loop
    name_loop-Back zero deadline p w h =
        let (v, answer) = s.properties op_timeout p w in
        named-Back (time w) deadline (name_in answer) (name_loop s zero deadline p) v
          (clock.described op_timeout p w)
          (λ u lt le. absurd (omega (arith, clock.described op_timeout p w)))
    name_loop-Back (suc n) deadline p w h =
        let (v, answer) = s.properties op_timeout p w in
        named-Back (time w) deadline (name_in answer) (name_loop s (suc n) deadline p) v
          (clock.described op_timeout p w)
          (λ u lt le.
            Back-earlier time (time w) (time u) (name_loop s (suc n) deadline p u)
              (omega (arith, clock.described op_timeout p w))
              (name_loop-Back n deadline p u (omega (arith, clock.described op_timeout p w))))

    -- A wait for a name reads the properties at most once more than its limit has periods.
    pub read_advertised_name-Back :
        (n : ℕ) (p : P) (limit : ℕ) (w : W)
        → limit ≤ n * name_poll
        → Back time (time w) (read_advertised_name s {E = E} (suc n) p limit w)
    unfolding read_advertised_name
    read_advertised_name-Back n p limit w h =
        let (v, t) = s.now w in
        Back-earlier time (time w) (time v) (name_loop s (suc n) (t + limit) p v)
          (omega (arith, clock.read_after w, clock.read_before w))
          (name_loop-Back n (t + limit) p v (omega (arith, clock.read_before w)))
