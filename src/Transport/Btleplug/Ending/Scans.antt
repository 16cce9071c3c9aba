-- ===== src/Transport/Btleplug/Ending/Scans.antt =====
-- The scan of src/btleplug_transport.rs.
use allsquare.Transport.Tasks.Back.{Back, Back-earlier, and_then-Back}
use allsquare.Transport.Tasks.{from_millis, Task, give, and_then}
use allsquare.Base.{
  ℕ, zero, suc, ◌+◌, ◌*◌, ◌≤◌, ◌<◌, Bool-cases, List, [], ◌∷◌, Option, some, none, arith, inl, inr,
  Bytes, ltb, if◌then◌else◌,
}
use allsquare.Transport.Btleplug.Calls.{
  scan_timeout, op_timeout, name_wait, Answer, ended, denied, refused, elapsed, Properties, System,
}
use allsquare.Transport.Btleplug.Scan.{
  Found, read_advertised_name, match_name, found_at, consider, scan_list, scan_listed, or_again,
  scan_round, scan_loop, scan, found_or, accepts, shown_address,
}
use allsquare.Transport.Btleplug.Ending.{IsClock}
use allsquare.Transport.Btleplug.Ending.Waits.{read_advertised_name-Back}

module _ {W A P : Type 0} (s : System W A P) (time : W → ℕ) (clock : IsClock s time) where
  module _ (E : Type 0) where
    match_name-Back :
        (n : ℕ) (pin : Option Bytes) (p : P) (reported : Bytes) (name : Option Bytes) (w : W)
        → 10 ≤ n
        → Back time (time w) (match_name s {E = E} (suc n) pin p reported name w)
    unfolding match_name
    match_name-Back n pin p reported (some name) w h = omega arith
    match_name-Back n (some want) p reported none w h = omega arith
    match_name-Back n none p reported none w h =
        and_then-Back time (time w) _ (read_advertised_name s (suc n) p name_wait w)
          (read_advertised_name-Back s time clock E n p name_wait w (omega arith)) (λ name v k. k)

    consider-Back :
        (n : ℕ) (pin : Option Bytes) (p : P) (answer : Answer (Option Properties))
        (rest : Task W E (Option (Found P))) (w : W)
        → 10 ≤ n
        → Back time (time w) (rest w)
        → Back time (time w) (consider s (suc n) pin p answer rest w)
    unfolding consider found_at
    consider-Back n pin p (ended (some props)) rest w h k =
        elim (Bool-cases (accepts pin (shown_address s p props) props)) [
          | inl e ↦
              rw e (
                and_then-Back time (time w) _ _ (match_name-Back n pin p _ _ w h) (λ name v k'. k'))
          | inr e ↦ rw e k
        ]
    consider-Back n pin p (ended none) rest w h k = k
    consider-Back n pin p (denied e) rest w h k = k
    consider-Back n pin p (refused e) rest w h k = k
    consider-Back n pin p elapsed rest w h k = k

    scan_list-Back :
        (n : ℕ) (pin : Option Bytes) (ps : List P) (w : W)
        → 10 ≤ n
        → Back time (time w) (scan_list s {E = E} (suc n) pin ps w)
    unfolding scan_list
    scan_list-Back n pin [] w h = omega arith
    scan_list-Back n pin (p ∷ ps) w h =
        let (v, answer) = s.properties op_timeout p w in
        Back-earlier time (time w) (time v)
          (consider s (suc n) pin p answer (scan_list s (suc n) pin ps) v)
          (clock.described op_timeout p w)
          (consider-Back n pin p answer (scan_list s (suc n) pin ps) v h
            (scan_list-Back n pin ps v h))

    scan_listed-Back :
        (n : ℕ) (pin : Option Bytes) (answer : Answer (List P)) (w : W)
        → 10 ≤ n
        → Back time (time w) (scan_listed s {E = E} (suc n) pin answer w)
    unfolding scan_listed
    scan_listed-Back n pin (ended ps) w h = scan_list-Back n pin ps w h
    scan_listed-Back n pin (denied e) w h = omega arith
    scan_listed-Back n pin (refused e) w h = omega arith
    scan_listed-Back n pin elapsed w h = omega arith

    or_again-Back :
        (t : ℕ) (found : Option (Found P)) (rest : Task W E (Option (Found P))) (w : W)
        → t ≤ time w
        → Back time t (rest w)
        → Back time t (or_again s found rest w)
    or_again-Back t (some found) rest w h k = h
    or_again-Back t none rest w h k = k

    scan_round-Back :
        (n : ℕ) (a : A) (pin : Option Bytes) (again : Task W E (Option (Found P))) (w : W)
        → 10 ≤ n
        → ((v : W) → time w + from_millis 400 ≤ time v → Back time (time v) (again v))
        → Back time (time w) (scan_round s (suc n) a pin again w)
    unfolding scan_round
    scan_round-Back n a pin again w h f =
        let awake = s.sleep (from_millis 400) w in
        let (v, listed) = s.peripherals op_timeout a awake in
        let slept : time w + from_millis 400 ≤ time v =
          omega (arith, clock.slept (from_millis 400) w, clock.scanned op_timeout a awake) in
        let o = scan_listed s (suc n) pin listed v in
        Back-earlier time (time w) (time v) (and_then (λ found. or_again s found again) o)
          (omega arith)
          (and_then-Back time (time v) (λ found. or_again s found again) o
            (scan_listed-Back n pin listed v h)
            (λ found u le.
              Back-earlier time (time v) (time u) (or_again s found again u) le
                (or_again-Back (time u) found again u (omega arith) (f u (omega arith)))))

    scan_turn-Back :
        (n deadline : ℕ) (a : A) (pin : Option Bytes) (again : Task W E (Option (Found P))) (w : W)
        → 10 ≤ n
        → ((v : W)
            → time w < deadline
            → time w + from_millis 400 ≤ time v
            → Back time (time v) (again v))
        → Back time (time w) (
            (if ltb (s.now w).1 deadline then scan_round s (suc n) a pin again else give none)
              (s.now w).0)
    scan_turn-Back n deadline a pin again w h f =
        let (v, t) = s.now w in
        let onward : time w ≤ time v = omega (arith, clock.read_after w, clock.read_before w) in
        elim (Bool-cases (ltb t deadline)) [
          | inr e ↦ rw e onward
          | inl e ↦ rw e (
              Back-earlier time (time w) (time v) (scan_round s (suc n) a pin again v) onward (
                scan_round-Back n a pin again v h
                  (λ u le. f u (grind (arith, clock.read_after w)) (omega arith))))
        ]

    scan_loop-Back :
        (k n deadline : ℕ) (a : A) (pin : Option Bytes) (w : W)
        → 10 ≤ n
        → deadline ≤ time w + k * from_millis 400
        → Back time (time w) (scan_loop s {E = E} (suc k) (suc n) deadline a pin w)
    unfolding scan_loop
    scan_loop-Back zero n deadline a pin w h b =
        scan_turn-Back n deadline a pin (scan_loop s zero (suc n) deadline a pin) w h
          (λ v lt le. absurd (omega arith))
    scan_loop-Back (suc k) n deadline a pin w h b =
        scan_turn-Back n deadline a pin (scan_loop s (suc k) (suc n) deadline a pin) w h
          (λ v lt le. scan_loop-Back k n deadline a pin v h (omega arith))

    pub scan-Back :
        (n : ℕ) (a : A) (pin : Option Bytes) (w : W)
        → 50 ≤ n
        → Back time (time w) (scan s {E = E} (suc n) a pin w)
    unfolding scan
    scan-Back n a pin w h =
        let (v, t) = s.now w in
        Back-earlier time (time w) (time v) (scan_loop s (suc n) (suc n) (t + scan_timeout) a pin v)
          (omega (arith, clock.read_after w, clock.read_before w))
          (scan_loop-Back n n (t + scan_timeout) a pin v (omega arith)
            (omega (arith, clock.read_before w)))

  pub found_or-Back :
      (t : ℕ) (found : Option (Found P)) (w : W) → t ≤ time w → Back time t (found_or s found w)
  unfolding found_or
  found_or-Back t (some found) w h = h
  found_or-Back t none w h = h
