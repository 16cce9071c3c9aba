-- ===== src/Transport/Btleplug/Picks/Scans.antt =====
-- What a scan of src/btleplug_transport.rs finds, from the states of its run.
use allsquare.Transport.Tasks.Ends.{Ends, and_then-Ends, map-Ends}
use allsquare.Transport.Tasks.{from_millis, good, Task}
use allsquare.Base.{
  ℕ, zero, suc, ◌+◌, Bool-cases, List, [], ◌∷◌, Option, some, none, ◌≡◌, refl, subst, inl, inr,
  Bytes, leb, ltb,
}
use allsquare.Protocol.Names.{advertised_name}
use allsquare.Transport.Bluez.{or_default}
use allsquare.Transport.Btleplug.Calls.{
  op_timeout, name_poll, name_wait, scan_timeout, Answer, ended, denied, refused, elapsed,
  Properties, System, op,
}
use allsquare.Transport.Btleplug.Keeping.{Searches}
use allsquare.Transport.Btleplug.Keeping.Steps.{Finds, Stated-Kept, wait_powered-Ends}
use allsquare.Transport.Btleplug.Logic.{op-Ends, scan_error-Ends}
use allsquare.Transport.Btleplug.Picks.{
  Waits, hears, gives_up, pauses, NameOf, advertised, pinned, waited, IsPicked, Reaches, at_once,
  sleeps, reads, states, starts, stops, lists, describes,
}
use allsquare.Transport.Btleplug.Scan.{
  Found, ScanFailure, scan_error_at, name_in, named, name_loop, read_advertised_name, match_name,
  found_at, consider, scan_list, scan_listed, or_again, scan_round, scan_loop, scan, find, search,
  wait_powered, found_or, accepts, shown_address,
}

-- These tasks raise no error, so that what holds of one is any.
module _ {W A P : Type 0} (s : System W A P) (E : Type 0) (Any : E → W → Type 0) where
  named-Waits :
      (p : P) (deadline : ℕ) (seen : W) (name : Option Bytes) (rest : Task W E (Option Bytes))
      → name_in (s.properties op_timeout p seen).1 ≡ name
      → ((v : W) → Ends (Waits s p deadline v) Any (rest v))
      → Ends
          (Waits s p deadline seen)
          Any
          (named s deadline name rest (s.properties op_timeout p seen).0)
  unfolding named
  named-Waits p deadline seen (some name) rest h k = hears seen h
  named-Waits p deadline seen none rest h k =
      let (v, t) = s.now (s.properties op_timeout p seen).0 in
      elim (Bool-cases (leb deadline t)) [
        | inl e ↦ rw e (gives_up seen h e)
        | inr e ↦ rw e (
            map-Ends (Waits s p deadline (s.sleep name_poll v)) (Waits s p deadline seen) Any
              (rest (s.sleep name_poll v)) (k (s.sleep name_poll v)) (λ heard u. pauses seen h e))
      ]

  name_loop-Waits :
      (n deadline : ℕ) (p : P) (w : W)
      → Ends (Waits s p deadline w) Any (name_loop s {E = E} n deadline p w)
  unfolding name_loop
  name_loop-Waits zero deadline p w = tt
  name_loop-Waits (suc n) deadline p w =
      named-Waits p deadline w (name_in (s.properties op_timeout p w).1) (name_loop s n deadline p)
        refl (name_loop-Waits n deadline p)

  match_name-NameOf :
      (n : ℕ) (pin : Option Bytes) (p : P) (reported : Bytes) (name : Option Bytes) (w : W)
      → advertised_name reported ≡ name
      → Ends (NameOf s pin p reported w) Any (match_name s {E = E} n pin p reported name w)
  unfolding match_name read_advertised_name
  match_name-NameOf n pin p reported (some name) w h = advertised h
  match_name-NameOf n (some want) p reported none w h = pinned refl h
  match_name-NameOf n none p reported none w h =
      let (v, t) = s.now w in
      and_then-Ends (Waits s p (t + name_wait) v) (NameOf s none p reported w) Any _
        (name_loop s n (t + name_wait) p v) (name_loop-Waits n (t + name_wait) p v)
        (λ heard u k. waited refl h k)

  module _ (pin : Option Bytes) (I : W → Type 0) (searches : Searches s I) where
    -- Where a scan finds one, and where it does not.
    abbrev Picks : Option (Found P) → W → Type 0
    Picks none u = I u
    Picks (some found) u = IsPicked s pin I found u

    consider-Picks :
        (n : ℕ) (p : P) (seen : W) (answer : Answer (Option Properties))
        (rest : Task W E (Option (Found P)))
        → I seen
        → (s.properties op_timeout p seen).1 ≡ answer
        → Ends Picks Any (rest (s.properties op_timeout p seen).0)
        → Ends Picks Any (consider s n pin p answer rest (s.properties op_timeout p seen).0)
    unfolding consider found_at
    consider-Picks n p seen (ended (some props)) rest i h k =
        let w = (s.properties op_timeout p seen).0 in
        let reported = or_default props.local_name in
        elim (Bool-cases (accepts pin (shown_address s p props) props)) [
          | inl e ↦ rw e (
              and_then-Ends (NameOf s pin p reported w) Picks Any _ _
                (match_name-NameOf n pin p reported _ w refl)
                (λ name v c. record {
                  seen = seen;
                  reached = i;
                  props = props;
                  answered = h;
                  located = refl;
                  accepted = e;
                  called = c;
                }))
          | inr e ↦ rw e k
        ]
    consider-Picks n p seen (ended none) rest i h k = k
    consider-Picks n p seen (denied e) rest i h k = k
    consider-Picks n p seen (refused e) rest i h k = k
    consider-Picks n p seen elapsed rest i h k = k

    scan_list-Picks :
        (n : ℕ) (ps : List P) (w : W) → I w → Ends Picks Any (scan_list s {E = E} n pin ps w)
    unfolding scan_list
    scan_list-Picks n [] w i = i
    scan_list-Picks n (p ∷ ps) w i =
        let (v, answer) = s.properties op_timeout p w in
        consider-Picks n p w answer (scan_list s n pin ps) i refl
          (scan_list-Picks n ps v (searches.described op_timeout p w i))

    scan_listed-Picks :
        (n : ℕ) (answer : Answer (List P)) (w : W)
        → I w
        → Ends Picks Any (scan_listed s {E = E} n pin answer w)
    unfolding scan_listed
    scan_listed-Picks n (ended ps) w i = scan_list-Picks n ps w i
    scan_listed-Picks n (denied e) w i = i
    scan_listed-Picks n (refused e) w i = i
    scan_listed-Picks n elapsed w i = i

    or_again-Picks :
        (found : Option (Found P)) (rest : Task W E (Option (Found P))) (w : W)
        → Picks found w
        → (I w → Ends Picks Any (rest w))
        → Ends Picks Any (or_again s found rest w)
    or_again-Picks (some found) rest w h k = h
    or_again-Picks none rest w h k = k h

    scan_loop-Picks :
        (k n deadline : ℕ) (a : A) (w : W)
        → I w
        → Ends Picks Any (scan_loop s {E = E} k n deadline a pin w)
    unfolding scan_loop scan_round
    scan_loop-Picks zero n deadline a w i = tt
    scan_loop-Picks (suc k) n deadline a w i =
        let (v, t) = s.now w in
        let again = scan_loop s {E = E} k n deadline a pin in
        let x = s.sleep (from_millis 400) v in
        let (u, listed) = s.peripherals op_timeout a x in
        let i' =
          searches.scanned op_timeout a x
            (searches.slept (from_millis 400) v (searches.read w i)) in
        elim (Bool-cases (ltb t deadline)) [
          | inr e ↦ rw e (searches.read w i)
          | inl e ↦ rw e (
              and_then-Ends Picks Picks Any (λ found. or_again s found again)
                (scan_listed s n pin listed u) (scan_listed-Picks n listed u i')
                (λ found y h. or_again-Picks found again y h (scan_loop-Picks k n deadline a y)))
        ]

module _ {W A P : Type 0} (s : System W A P) where
  -- A find is over once the scan that picked its device is stopped.
  abbrev pub Stops : A → Option Bytes → (W → Type 0) → Found P → W → Type 0
  Stops a pin I found v =
      (over : W) × IsPicked s pin I found over × (v ≡ (s.stop_scan op_timeout a over).0)

  module _ (a : A) (pin : Option Bytes) (I : W → Type 0) (finds : Finds s I (λ e. I)) where
    found_or-Stops :
        (found : Option (Found P)) (over : W)
        → Picks s ScanFailure (λ e. I) pin I finds.searches found over
        → Ends (Stops a pin I) (λ e. I) (found_or s found (s.stop_scan op_timeout a over).0)
    unfolding found_or
    found_or-Stops (some found) over h = (over, h, refl)
    found_or-Stops none over h = finds.searches.stopped op_timeout a over h

    find-Stops : (n : ℕ) (w : W) → I w → Ends (Stops a pin I) (λ e. I) (find s n a pin w)
    unfolding find search scan
    find-Stops n w i =
        let J = λ (e : ScanFailure). I in
        let K = Picks s ScanFailure (λ e. I) pin I finds.searches in
        and_then-Ends (λ u. I) (Stops a pin I) J _ (wait_powered s n a w)
          (wait_powered-Ends s I J finds n a w i)
          (λ u x h.
            let o = op "scan" (s.start_scan op_timeout a) x in
            and_then-Ends (λ u. I) (Stops a pin I) J _ (scan_error_at o)
              (scan_error-Ends (λ u. I) (λ e. I) J o
                (op-Ends I "scan" (s.start_scan op_timeout a) x
                  (finds.searches.started op_timeout a x h))
                (λ e v k. k))
              (λ u y h'.
                let (z, t) = s.now y in
                and_then-Ends K (Stops a pin I) J _ (scan_loop s n n (t + scan_timeout) a pin z)
                  (scan_loop-Picks s _ J pin I finds.searches n n (t + scan_timeout) a z
                    (finds.searches.read y h'))
                  (λ found q. found_or-Stops found q)))

  module _ (w : W) where
    Reaches-Searches : Searches s (Reaches s w)
    Reaches-Searches = record {
      slept = λ d v. sleeps d;
      read = λ v. reads;
      started = λ l a v. starts l a;
      stopped = λ l a v. stops l a;
      scanned = λ l a v. lists l a;
      described = λ l p v. describes l p;
    }

    Reaches-Finds : Finds s (Reaches s w) (λ e. Reaches s w)
    Reaches-Finds = record {
      searches = Reaches-Searches;
      fails = λ e v h. h;
      state_read = λ a v h.
          let f = s.adapter_state op_timeout a in
          Stated-Kept s (Reaches s w) (op "adapter state" f v)
            (op-Ends (Reaches s w) "adapter state" f v (states op_timeout a h));
    }

  -- A find that succeeds has come, by the calls of a search, to a state where a peripheral answered
  -- it with properties that the pin accepts, or that are a Square Golf device's where nothing is
  -- pinned; it returns that peripheral, under the address that they give, or the peripheral's
  -- identifier where the address is hidden. Its name is the advertised name within the reported
  -- one. Where there is none, it is the reported one if a device is pinned; and else the advertised
  -- name that the peripheral, asked again until two seconds have passed, is the first to answer
  -- with, and the reported one only if it answers with none. Then the scan is stopped, and that is
  -- all.
  pub find-picks :
      (n : ℕ) (a : A) (pin : Option Bytes) (w v : W) (found : Found P)
      → find s n a pin w ≡ some (v, good found)
      → Stops a pin (Reaches s w) found v
  find-picks n a pin w v found e =
      subst (Ends (Stops a pin (Reaches s w)) (λ e. Reaches s w)) e
        (find-Stops a pin (Reaches s w) (Reaches-Finds w) n w at_once)
