-- ===== src/Transport/Bluez/Ending.antt =====
-- The loops of src/bluez.rs end, by a clock that moves on with every sleep.
pub mod Connects
use allsquare.Base.{
  ℕ, zero, suc, ◌+◌, ◌*◌, ◌≤◌, ◌<◌, Bool, true, false, ◌&&◌, not, Bool-cases, List, [], ◌∷◌, Option,
  some, none, ◌≡◌, refl, arith, inl, inr, Bytes, leb, ltb, if◌then◌else◌,
}
use allsquare.Error.{Error}
use allsquare.Protocol.Uuid
use allsquare.Text.{is_some}
use allsquare.Transport.Bluez.{Managed, Hit, look, path_of, BluezTransport}
use allsquare.Transport.Bluez.Dbus.{
  Dbus, Interface, scan_limit, resolve_timeout, settle_pause, adapter_interface, char_interface,
  properties_interface, mapped, checked, managed, characteristics, prop_set, prop_bool,
  manufacturer_payload, payload_after, backend_error,
}
use allsquare.Transport.Bluez.Connect.{
  look_now, set_scan, look_loop, hit_or, search, hit_or_search, find_device, resolved, resolve_loop,
  bring_up, required, listen_to, connect_to, connect_bluez,
}
use allsquare.Transport.Tasks.{from_millis, Result, good, bad, Task, give, and_then}
use allsquare.Transport.Tasks.Back.{Back, Back-earlier, and_then-Back}
use Prim.Native.String.{String}

-- A clock of the bus: `now` reads it, a sleep lasts as long as it is asked to, and no call turns it
-- back.
pub record IsClock {S : Type 0} (b : Dbus S) (time : S → ℕ) : Type 0 where
  pub slept : (d : ℕ) (w : S) → time w + d ≤ time (b.sleep d w)
  pub read_after : (w : S) → time w ≤ (b.now w).1
  pub read_before : (w : S) → (b.now w).1 ≤ time (b.now w).0
  pub opened : (w : S) → time w ≤ time (b.system w).0
  pub proxied : (path : Bytes) (i : Interface) (w : S) → time w ≤ time (b.proxy path i w).0
  pub scanned : (on : Bool) (path : Bytes) (w : S) → time w ≤ time (b.discovery on path w).0
  pub listed : (w : S) → time w ≤ time (b.managed_objects w).0
  pub trusted : (path : Bytes) (w : S) → time w ≤ time (b.set_trusted path w).0
  pub got : (path : Bytes) (name : String) (w : S) → time w ≤ time (b.get_bool path name w).0
  pub advertised : (path : Bytes) (w : S) → time w ≤ time (b.manufacturer_data path w).0
  pub sent : (path : Bytes) (w : S) → time w ≤ time (b.send_connect path w).0
  pub listened : (path : Bytes) (w : S) → time w ≤ time (b.listen path w).0
  pub notified : (path : Bytes) (w : S) → time w ≤ time (b.start_notify path w).0
  pub spawned : (w : S) → time w ≤ time (b.spawn w).0

module _ {S : Type 0} (b : Dbus S) (time : S → ℕ) (clock : IsClock b time) where
  pub mapped_then-Back :
      {A B : Type 0} (t : ℕ) (f : S → S × Result String A) (k : A → Task S Error B) (w : S)
      → t ≤ time (f w).0
      → ((a : A) (v : S) → t ≤ time v → Back time t (k a v))
      → Back time t (and_then k (mapped f w))
  unfolding mapped
  mapped_then-Back t f k w h r =
      let (v, x) = f w in and_then-Back time t k (some (v, backend_error x)) h r

  pub mapped-Back :
      {A : Type 0} (t : ℕ) (f : S → S × Result String A) (w : S)
      → t ≤ time (f w).0
      → Back time t (mapped f w)
  unfolding mapped
  mapped-Back t f w h = h

  pub checked-Back :
      {A B : Type 0} (t : ℕ) (r : Result String A) (k : A → Task S Error B) (w : S)
      → t ≤ time w
      → ((a : A) (v : S) → t ≤ time v → Back time t (k a v))
      → Back time t (and_then k (checked r w))
  unfolding checked
  checked-Back t r k w h f = and_then-Back time t k (some (w, backend_error r)) h f

  look_now-Back : (t : ℕ) (pin : Option Bytes) (w : S) → t ≤ time w → Back time t (look_now b pin w)
  unfolding look_now managed
  look_now-Back t pin w h =
      and_then-Back time t _ _
        (mapped_then-Back t _ _ w (omega (arith, clock.proxied _ _ w))
          (λ u v le. mapped-Back t b.managed_objects v (omega (arith, clock.listed v))))
        (λ objects v le. le)

  set_scan-Back :
      (t : ℕ) (path : Bytes) (on : Bool) (w : S) → t ≤ time w → Back time t (set_scan b path on w)
  unfolding set_scan
  set_scan-Back t path on w h =
      mapped_then-Back t _ _ w (omega (arith, clock.proxied path adapter_interface w))
        (λ u v le. omega (arith, clock.scanned on path v))

  -- A turn of the search's loop.
  look_turn-Back :
      (deadline : ℕ) (pin : Option Bytes) (hit : Option Hit)
      (again : Option Hit → Task S Error (Option Hit)) (w : S)
      → ((h : Option Hit) (v : S)
          → time w < deadline
          → time w + from_millis 250 ≤ time v
          → Back time (time v) (again h v))
      → Back time (time w) (
          (if ltb (b.now w).1 deadline && not (is_some hit)
              then (λ w1. and_then again (look_now b pin (b.sleep (from_millis 250) w1)))
              else give hit)
            (b.now w).0)
  look_turn-Back deadline pin hit again w f =
      let (v, t) = b.now w in
      let u = b.sleep (from_millis 250) v in
      elim (Bool-cases (ltb t deadline && not (is_some hit))) [
        | inr e ↦ rw e (omega (arith, clock.read_after w, clock.read_before w))
        | inl e ↦
            let before : time w < deadline = ground (arith, e, clock.read_after w) in
            let slept : time w + from_millis 250 ≤ time u =
              omega
                (arith, clock.read_after w, clock.read_before w, clock.slept (from_millis 250) v) in
            rw e (
              Back-earlier time (time w) (time u) (and_then again (look_now b pin u)) (omega arith)
                (and_then-Back time (time u) again (look_now b pin u)
                  (look_now-Back (time u) pin u (omega arith))
                  (λ hit' x le.
                    Back-earlier time (time u) (time x) (again hit' x) le
                      (f hit' x before (omega arith)))))
      ]

  look_loop-Back :
      (n deadline : ℕ) (pin : Option Bytes) (hit : Option Hit) (w : S)
      → deadline ≤ time w + n * from_millis 250
      → Back time (time w) (look_loop b (suc n) deadline pin hit w)
  unfolding look_loop
  look_loop-Back zero deadline pin hit w h =
      look_turn-Back deadline pin hit (look_loop b zero deadline pin) w
        (λ hit' v lt le. absurd (omega arith))
  look_loop-Back (suc n) deadline pin hit w h =
      look_turn-Back deadline pin hit (look_loop b (suc n) deadline pin) w
        (λ hit' v lt le. look_loop-Back n deadline pin hit' v (omega arith))

  hit_or-Back : (t : ℕ) (hit : Option Hit) (w : S) → t ≤ time w → Back time t (hit_or b hit w)
  unfolding hit_or
  hit_or-Back t (some hit) w h = h
  hit_or-Back t none w h = h

  search-Back :
      (n t : ℕ) (path : Bytes) (pin : Option Bytes) (w : S)
      → 80 ≤ n
      → t ≤ time w
      → Back time t (search b (suc n) path pin w)
  unfolding search
  search-Back n t path pin w h k =
      and_then-Back time t _ (set_scan b path true w) (set_scan-Back t path true w k) (λ u v le.
        let (x, now) = b.now v in
        let o = look_loop b (suc n) (now + scan_limit) pin none x in
        and_then-Back time t _ o
          (Back-earlier time t (time x) o (omega (arith, clock.read_after v, clock.read_before v))
            (look_loop-Back n (now + scan_limit) pin none x (omega (arith, clock.read_before v))))
          (λ hit y le'.
            and_then-Back time t _ (set_scan b path false y) (set_scan-Back t path false y le')
              (λ u z le''.
                hit_or-Back t hit (b.sleep settle_pause z)
                  (omega (arith, clock.slept settle_pause z)))))

  pub find_device-Back :
      (n t : ℕ) (path : Bytes) (pin : Option Bytes) (w : S)
      → 80 ≤ n
      → t ≤ time w
      → Back time t (find_device b (suc n) path pin w)
  unfolding find_device hit_or_search
  find_device-Back n t path pin w h k =
      and_then-Back time t (hit_or_search b (suc n) path pin) (look_now b pin w)
        (look_now-Back t pin w k) (λ hit v le. looked hit v le)
    where
      looked :
          (hit : Option Hit) (v : S)
          → t ≤ time v
          → Back time t (hit_or_search b (suc n) path pin hit v)
      looked (some hit) v le = le
      looked none v le = search-Back n t path pin v h le
