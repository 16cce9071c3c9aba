-- ===== src/Transport/Btleplug/Ending/Attempts.antt =====
-- The part of `connect` of src/btleplug_transport.rs that has an adapter to itself.
use allsquare.Transport.Tasks.Back.{Back, Back-earlier, and_then-Back, caught-Back}
use allsquare.Transport.Tasks.{Result, good, bad, raise, and_then, ◌>>◌}
use allsquare.Base.{ℕ, suc, ◌≤◌, Option, some, none, arith, Bytes}
use allsquare.Error.{Error}
use allsquare.Protocol.Names.{advertised_name}
use allsquare.Transport.Btleplug.Calls.{
  settle_time, connect_timeout, cancel_timeout, op_timeout, System, op,
}
use allsquare.Transport.Btleplug.Scan.{
  Found, ScanFailure, scan_error_at, wait_powered, read_advertised_name, scan, search, find,
}
use allsquare.Transport.Btleplug.Connect.{
  release, if_refused, link, evt_of, subscribe, if_unsubscribed, opened_name, finish,
  open_transport, after_link, after_find, attempt,
}
use allsquare.Transport.Btleplug.Ending.{IsClock, scan_error-Back, op-Back, op_then-Back}
use allsquare.Transport.Btleplug.Ending.Waits.{read_advertised_name-Back, wait_powered-Back}
use allsquare.Transport.Btleplug.Ending.Scans.{scan-Back, found_or-Back}

module _ {W A P : Type 0} (s : System W A P) (time : W → ℕ) (clock : IsClock s time) where
  find-Back :
      (n : ℕ) (a : A) (pin : Option Bytes) (w : W)
      → 50 ≤ n
      → Back time (time w) (find s (suc n) a pin w)
  unfolding find search
  find-Back n a pin w h =
      and_then-Back time (time w) _ (wait_powered s (suc n) a w)
        (wait_powered-Back s time clock n a w (omega arith))
        (λ u v le.
          and_then-Back time (time w) _ (scan_error_at (op "scan" (s.start_scan op_timeout a) v))
            (scan_error-Back time (time w) (op "scan" (s.start_scan op_timeout a) v) (
              op-Back time (time w) "scan" (s.start_scan op_timeout a) v
                (omega (arith, clock.started op_timeout a v))))
            (λ u' v' le'.
              and_then-Back time (time w) _ (scan s (suc n) a pin v')
                (Back-earlier time (time w) (time v') _ le' (scan-Back s time clock _ n a pin v' h))
                (λ found v'' le''.
                  found_or-Back s time clock (time w) found (s.stop_scan op_timeout a v'').0
                    (omega (arith, clock.stopped op_timeout a v'')))))

  subscribe-Back : (t : ℕ) (p : P) (w : W) → t ≤ time w → Back time t (subscribe s p w)
  unfolding subscribe
  subscribe-Back t p w h =
      let v = s.sleep settle_time w in
      op_then-Back time t "discover" (s.discover_services op_timeout p) _ v
        (omega (arith, clock.slept settle_time w, clock.discovered op_timeout p v))
        (λ u v le. with_evt v le (evt_of s p v))
    where
      with_evt :
          (v : W)
          → t ≤ time v
          → (r : Result Error ℕ)
          → Back time t (
              and_then
                (λ evt.
                  op "notifications" (s.notifications op_timeout p)
                  >> op "subscribe" (s.subscribe op_timeout p evt))
                (some (v, r)))
      with_evt v le (bad e) = le
      with_evt v le (good evt) =
          op_then-Back time t "notifications" (s.notifications op_timeout p) _ v
            (omega (arith, clock.notified op_timeout p v))
            (λ u x le'.
              op-Back time t "subscribe" (s.subscribe op_timeout p evt) x
                (omega (arith, clock.subscribed op_timeout p evt x)))

  release-raise-Back :
      (t limit : ℕ) (p : P) (e : Error) (w : W)
      → t ≤ time w
      → Back time t ((release s limit p >> raise {A = Unit {0}} e) w)
  unfolding release
  release-raise-Back t limit p e w h = omega (arith, clock.disconnected limit p w)

  if_refused-Back :
      (t : ℕ) (p : P) (r : Result Error (Unit {0})) (w : W)
      → t ≤ time w
      → Back time t (if_refused s p r w)
  unfolding if_refused
  if_refused-Back t p (good u) w h = h
  if_refused-Back t p (bad e) w h = release-raise-Back t cancel_timeout p e w h

  if_unsubscribed-Back :
      (t : ℕ) (p : P) (r : Result Error (Unit {0})) (w : W)
      → t ≤ time w
      → Back time t (if_unsubscribed s p r w)
  unfolding if_unsubscribed
  if_unsubscribed-Back t p (good u) w h = h
  if_unsubscribed-Back t p (bad e) w h = release-raise-Back t op_timeout p e w h

  link-Back : (t : ℕ) (a : A) (p : P) (w : W) → t ≤ time w → Back time t (link s a p w)
  unfolding link
  link-Back t a p w h =
      op_then-Back time t "events" (s.events op_timeout a) _ w
        (omega (arith, clock.watched op_timeout a w))
        (λ u v le.
          let v' = s.sleep settle_time v in
          caught-Back time t (if_refused s p) (op "connect" (s.connect connect_timeout p) v')
            (op-Back time t "connect" (s.connect connect_timeout p) v'
              (omega (arith, clock.slept settle_time v, clock.connected connect_timeout p v')))
            (if_refused-Back t p))

  opened_name-Back :
      (n t : ℕ) (p : P) (name : Bytes) (advertised : Option Bytes) (w : W)
      → t ≤ time w
      → Back time t (opened_name s (suc n) p name advertised w)
  unfolding opened_name
  opened_name-Back n t p name (some a) w h = h
  opened_name-Back n t p name none w h =
      and_then-Back time t _ (read_advertised_name s (suc n) p 0 w)
        (Back-earlier time t (time w) (read_advertised_name s (suc n) p 0 w) h
          (read_advertised_name-Back s time clock _ n p 0 w (omega arith)))
        (λ read v le. le)

  open_transport-Back :
      (n t : ℕ) (a : A) (found : Found P) (w : W)
      → t ≤ time w
      → Back time t (open_transport s (suc n) a found w)
  unfolding open_transport finish
  open_transport-Back n t a found w h =
      caught-Back time t _ (subscribe s found.peripheral w) (subscribe-Back t found.peripheral w h)
        (λ r v le.
          and_then-Back time t _ (if_unsubscribed s found.peripheral r v)
            (if_unsubscribed-Back t found.peripheral r v le)
            (λ u v' le'.
              and_then-Back time t _
                (opened_name s (suc n) found.peripheral found.name (advertised_name found.name) v')
                (opened_name-Back n t found.peripheral found.name (advertised_name found.name) v'
                  le')
                (λ name v'' le''. le'')))

  after_link-Back :
      (n t : ℕ) (a : A) (found : Found P) (r : Result Error (Unit {0})) (w : W)
      → t ≤ time w
      → Back time t (after_link s (suc n) a found r w)
  unfolding after_link
  after_link-Back n t a found (bad e) w h = h
  after_link-Back n t a found (good u) w h =
      caught-Back time t _ (open_transport s (suc n) a found w)
        (open_transport-Back n t a found w h) (λ r v le. le)

  after_find-Back :
      (n t : ℕ) (a : A) (r : Result ScanFailure (Found P)) (w : W)
      → t ≤ time w
      → Back time t (after_find s (suc n) a r w)
  unfolding after_find
  after_find-Back n t a (bad failure) w h = h
  after_find-Back n t a (good found) w h =
      caught-Back time t _ (link s a found.peripheral w) (link-Back t a found.peripheral w h)
        (after_link-Back n t a found)

  pub attempt-Back :
      (n : ℕ) (a : A) (pin : Option Bytes) (w : W)
      → 50 ≤ n
      → Back time (time w) (attempt s (suc n) a pin w)
  unfolding attempt
  attempt-Back n a pin w h =
      caught-Back time (time w) (after_find s (suc n) a) (find s (suc n) a pin w)
        (find-Back n a pin w h) (after_find-Back n (time w) a)
