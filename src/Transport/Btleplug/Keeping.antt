-- ===== src/Transport/Btleplug/Keeping.antt =====
-- What the calls of the system keep, the search of src/btleplug_transport.rs keeps.
pub mod Steps
use allsquare.Transport.Tasks.Ends.{Ends, and_then-Ends}
use allsquare.Transport.Tasks.{from_millis, Result, Task}
use allsquare.Base.{
  ℕ, zero, suc, ◌+◌, Bool-cases, List, [], ◌∷◌, Option, some, none, inl, inr, Bytes, leb, ltb,
}
use allsquare.Transport.Btleplug.Calls.{
  op_timeout, name_poll, name_wait, state_grace, scan_timeout, Answer, ended, denied, refused,
  elapsed, Properties, System, op,
}
use allsquare.Transport.Btleplug.Scan.{
  Found, ScanFailure, scan_error_at, name_in, named, name_loop, read_advertised_name, match_name,
  found_at, consider, scan_list, scan_listed, or_again, scan_round, scan_loop, scan, search,
  found_or, accepts, shown_address, from_error,
}
use allsquare.Error.{Error, not_found}
use allsquare.Transport.Btleplug.Logic.{op-Ends, scan_error-Ends}

-- `I` is kept by the calls of a search for a device.
pub record Searches {W A P : Type 0} (s : System W A P) (I : W → Type 0) : Type 0 where
  pub slept : (d : ℕ) (w : W) → I w → I (s.sleep d w)
  pub read : (w : W) → I w → I (s.now w).0
  pub started : (l : ℕ) (a : A) (w : W) → I w → I (s.start_scan l a w).0
  pub stopped : (l : ℕ) (a : A) (w : W) → I w → I (s.stop_scan l a w).0
  pub scanned : (l : ℕ) (a : A) (w : W) → I w → I (s.peripherals l a w).0
  pub described : (l : ℕ) (p : P) (w : W) → I w → I (s.properties l p w).0

-- `I` is kept by the calls that prepare a session, and that set a link up.
pub record SetsUp {W A P : Type 0} (s : System W A P) (I : W → Type 0) : Type 0 where
  pub built : (w : W) → I w → I (s.build_runtime w).0
  pub managed : (l : ℕ) (w : W) → I w → I (s.new_manager l w).0
  pub watched : (l : ℕ) (a : A) (w : W) → I w → I (s.events l a w).0
  pub discovered : (l : ℕ) (p : P) (w : W) → I w → I (s.discover_services l p w).0
  pub notified : (l : ℕ) (p : P) (w : W) → I w → I (s.notifications l p w).0
  pub subscribed : (l : ℕ) (p : P) (u : ℕ) (w : W) → I w → I (s.subscribe l p u w).0

-- `I` is kept by every call of the system but those that open and close a link.
pub record Keeps {W A P : Type 0} (s : System W A P) (I : W → Type 0) : Type 0 where
  pub searches : Searches s I
  pub sets_up : SetsUp s I
  pub listed : (l : ℕ) (w : W) → I w → I (s.adapters l w).0
  pub state_read : (l : ℕ) (a : A) (w : W) → I w → I (s.adapter_state l a w).0

module _ {W A P : Type 0} (s : System W A P) (I : W → Type 0) (searches : Searches s I) where
  -- A task keeps `I`, however it ends.
  abbrev pub Kept : {E A : Type 0} → Option (W × Result E A) → Type 0
  Kept o = Ends (λ a. I) (λ e. I) o

  module _ (E : Type 0) (J : E → W → Type 0) where
    -- A task gives a value and keeps `I`; it raises no error, so that `J` is any.
    abbrev pub Gives : {A : Type 0} → Option (W × Result E A) → Type 0
    Gives o = Ends (λ a. I) J o

    named-Gives :
        (deadline : ℕ) (name : Option Bytes) (rest : Task W E (Option Bytes)) (w : W)
        → I w
        → ((v : W) → I v → Gives (rest v))
        → Gives (named s deadline name rest w)
    unfolding named
    named-Gives deadline (some name) rest w h k = h
    named-Gives deadline none rest w h k = elim (Bool-cases (leb deadline (s.now w).1)) [
      | inl e ↦ rw e (searches.read w h)
      | inr e ↦ rw e (
          k (s.sleep name_poll (s.now w).0)
            (searches.slept name_poll (s.now w).0 (searches.read w h)))
    ]

    name_loop-Gives :
        (n deadline : ℕ) (p : P) (w : W) → I w → Gives (name_loop s {E = E} n deadline p w)
    unfolding name_loop
    name_loop-Gives zero deadline p w h = tt
    name_loop-Gives (suc n) deadline p w h =
        let (v, answer) = s.properties op_timeout p w in
        named-Gives deadline (name_in answer) (name_loop s n deadline p) v
          (searches.described op_timeout p w h) (name_loop-Gives n deadline p)

    pub read_advertised_name-Gives :
        (n : ℕ) (p : P) (limit : ℕ) (w : W)
        → I w
        → Gives (read_advertised_name s {E = E} n p limit w)
    unfolding read_advertised_name
    read_advertised_name-Gives n p limit w h =
        name_loop-Gives n ((s.now w).1 + limit) p (s.now w).0 (searches.read w h)

    match_name-Gives :
        (n : ℕ) (pin : Option Bytes) (p : P) (reported : Bytes) (name : Option Bytes) (w : W)
        → I w
        → Gives (match_name s {E = E} n pin p reported name w)
    unfolding match_name
    match_name-Gives n pin p reported (some name) w h = h
    match_name-Gives n (some want) p reported none w h = h
    match_name-Gives n none p reported none w h =
        and_then-Ends (λ x. I) (λ x. I) J _ (read_advertised_name s n p name_wait w)
          (read_advertised_name-Gives n p name_wait w h) (λ name v k. k)

    consider-Gives :
        (n : ℕ) (pin : Option Bytes) (p : P) (answer : Answer (Option Properties))
        (rest : Task W E (Option (Found P))) (w : W)
        → I w
        → Gives (rest w)
        → Gives (consider s n pin p answer rest w)
    unfolding consider found_at
    consider-Gives n pin p (ended (some props)) rest w h k =
        elim (Bool-cases (accepts pin (shown_address s p props) props)) [
          | inl e ↦ rw e (
              and_then-Ends (λ x. I) (λ x. I) J _ _ (match_name-Gives n pin p _ _ w h)
                (λ name v k'. k'))
          | inr e ↦ rw e k
        ]
    consider-Gives n pin p (ended none) rest w h k = k
    consider-Gives n pin p (denied e) rest w h k = k
    consider-Gives n pin p (refused e) rest w h k = k
    consider-Gives n pin p elapsed rest w h k = k

    scan_list-Gives :
        (n : ℕ) (pin : Option Bytes) (ps : List P) (w : W)
        → I w
        → Gives (scan_list s {E = E} n pin ps w)
    unfolding scan_list
    scan_list-Gives n pin [] w h = h
    scan_list-Gives n pin (p ∷ ps) w h =
        let (v, answer) = s.properties op_timeout p w in
        let h' = searches.described op_timeout p w h in
        consider-Gives n pin p answer (scan_list s n pin ps) v h' (scan_list-Gives n pin ps v h')

    scan_listed-Gives :
        (n : ℕ) (pin : Option Bytes) (answer : Answer (List P)) (w : W)
        → I w
        → Gives (scan_listed s {E = E} n pin answer w)
    unfolding scan_listed
    scan_listed-Gives n pin (ended ps) w h = scan_list-Gives n pin ps w h
    scan_listed-Gives n pin (denied e) w h = h
    scan_listed-Gives n pin (refused e) w h = h
    scan_listed-Gives n pin elapsed w h = h

    or_again-Gives :
        (found : Option (Found P)) (rest : Task W E (Option (Found P))) (w : W)
        → I w
        → Gives (rest w)
        → Gives (or_again s found rest w)
    or_again-Gives (some found) rest w h k = h
    or_again-Gives none rest w h k = k

    scan_loop-Gives :
        (k n deadline : ℕ) (a : A) (pin : Option Bytes) (w : W)
        → I w
        → Gives (scan_loop s {E = E} k n deadline a pin w)
    unfolding scan_loop scan_round
    scan_loop-Gives zero n deadline a pin w h = tt
    scan_loop-Gives (suc k) n deadline a pin w h =
        let (v, t) = s.now w in
        let again = scan_loop s {E = E} k n deadline a pin in
        let (u, listed) = s.peripherals op_timeout a (s.sleep (from_millis 400) v) in
        let h' =
          searches.scanned op_timeout a (s.sleep (from_millis 400) v)
            (searches.slept (from_millis 400) v (searches.read w h)) in
        elim (Bool-cases (ltb t deadline)) [
          | inr e ↦ rw e (searches.read w h)
          | inl e ↦ rw e (
              and_then-Ends (λ x. I) (λ x. I) J (λ found. or_again s found again)
                (scan_listed s n pin listed u) (scan_listed-Gives n pin listed u h')
                (λ found x k'.
                  or_again-Gives found again x k' (scan_loop-Gives k n deadline a pin x k')))
        ]

  module _ (J : ScanFailure → W → Type 0)
      (fails : (e : Error) (w : W) → I w → J (from_error e) w) where
    found_or-Ends : (found : Option (Found P)) (w : W) → I w → Ends (λ x. I) J (found_or s found w)
    unfolding found_or
    found_or-Ends (some found) w h = h
    found_or-Ends none w h = fails not_found w h

    -- The part of `find` that follows the wait for power.
    pub search-Ends :
        (n : ℕ) (a : A) (pin : Option Bytes) (w : W) → I w → Ends (λ x. I) J (search s n a pin w)
    unfolding search scan
    search-Ends n a pin w h =
        let o = op "scan" (s.start_scan op_timeout a) w in
        and_then-Ends (λ x. I) (λ x. I) J _ (scan_error_at o)
          (scan_error-Ends (λ u. I) (λ e. I) J o
            (op-Ends I "scan" (s.start_scan op_timeout a) w (searches.started op_timeout a w h))
            fails)
          (λ u y h2.
            let (z, t) = s.now y in
            and_then-Ends (λ x. I) (λ x. I) J _ (scan_loop s n n (t + scan_timeout) a pin z)
              (scan_loop-Gives _ J n n (t + scan_timeout) a pin z (searches.read y h2))
              (λ found q h3.
                found_or-Ends found (s.stop_scan op_timeout a q).0
                  (searches.stopped op_timeout a q h3)))
