-- ===== src/Transport/Bluez/Ending/Connects.antt =====
-- `connect` of src/bluez.rs.
use allsquare.Base.{
  ℕ, zero, suc, ◌+◌, ◌*◌, ◌≤◌, ◌<◌, Bool, true, false, Bool-cases, Option, some, none, ◌≡◌, refl,
  arith, inl, inr, Bytes, ltb,
}
use allsquare.Error.{Error}
use allsquare.Protocol.Uuid
use allsquare.Transport.Bluez.{Hit, path_of, BluezTransport}
use allsquare.Transport.Bluez.Dbus.{
  Dbus, resolve_timeout, char_interface, properties_interface, managed, characteristics, prop_set,
  prop_bool, manufacturer_payload, payload_after,
}
use allsquare.Transport.Bluez.Connect.{
  find_device, resolved, resolve_loop, bring_up, required, listen_to, connect_to, connect_bluez,
}
use allsquare.Transport.Tasks.{from_millis, Result, good, bad, Task, and_then}
use allsquare.Transport.Tasks.Back.{Back, Back-earlier, and_then-Back}
use Prim.Native.String.{String}
use allsquare.Transport.Bluez.Ending.{
  IsClock, mapped_then-Back, mapped-Back, checked-Back, find_device-Back,
}

module _ {S : Type 0} (b : Dbus S) (time : S → ℕ) (clock : IsClock b time) where
  prop_bool-Back :
      (t : ℕ) (path : Bytes) (name : String) (w : S)
      → t ≤ time w
      → Back time t (prop_bool b path name w)
  unfolding prop_bool
  prop_bool-Back t path name w h =
      mapped_then-Back b time clock t _ _ w
        (omega (arith, clock.proxied path properties_interface w))
        (λ u v le.
          mapped_then-Back b time clock t (b.get_bool path name) _ v
            (omega (arith, clock.got path name v)) (λ x y le'. le'))

  resolved-Back :
      (t deadline : ℕ) (up : Bool) (rest : Task S Error (Unit {0})) (w : S)
      → t ≤ time w
      → ((v : S) → time w ≤ deadline → time w + from_millis 100 ≤ time v → Back time t (rest v))
      → Back time t (resolved b deadline up rest w)
  unfolding resolved
  resolved-Back t deadline true rest w h k = h
  resolved-Back t deadline false rest w h k =
      let (v, now) = b.now w in
      elim (Bool-cases (ltb deadline now)) [
        | inl e ↦ rw e (omega (arith, clock.read_after w, clock.read_before w))
        | inr e ↦ rw e (
            k (b.sleep (from_millis 100) v) (ground (arith, e, clock.read_after w)) (
              omega
                (arith, clock.read_after w, clock.read_before w, clock.slept (from_millis 100) v)))
      ]

  resolve_round-Back :
      (deadline : ℕ) (path : Bytes) (rest : Task S Error (Unit {0})) (w : S)
      → ((v : S)
          → time w ≤ deadline
          → time w + from_millis 100 ≤ time v
          → Back time (time w) (rest v))
      → Back time
          (time w)
          (and_then (λ up. resolved b deadline up rest) (prop_bool b path "ServicesResolved" w))
  resolve_round-Back deadline path rest w k =
      and_then-Back time (time w) (λ up. resolved b deadline up rest)
        (prop_bool b path "ServicesResolved" w)
        (prop_bool-Back (time w) path "ServicesResolved" w (omega arith))
        (λ up v le.
          resolved-Back (time w) deadline up rest v le
            (λ x before after. k x (omega arith) (omega arith)))

  resolve_loop-Back :
      (n deadline : ℕ) (path : Bytes) (w : S)
      → deadline < time w + n * from_millis 100
      → Back time (time w) (resolve_loop b (suc n) deadline path w)
  unfolding resolve_loop
  resolve_loop-Back zero deadline path w h =
      resolve_round-Back deadline path (resolve_loop b zero deadline path) w
        (λ v before after. absurd (omega arith))
  resolve_loop-Back (suc n) deadline path w h =
      resolve_round-Back deadline path (resolve_loop b (suc n) deadline path) w (λ v before after.
        Back-earlier time (time w) (time v) (resolve_loop b (suc n) deadline path v) (omega arith)
          (resolve_loop-Back n deadline path v (omega arith)))

  payload_after-Back :
      (t : ℕ) (path : Bytes) (made : Result String (Unit {0})) (w : S)
      → t ≤ time w
      → Back time t (payload_after b path made w)
  unfolding payload_after
  payload_after-Back t path (good u) w h = omega (arith, clock.advertised path w)
  payload_after-Back t path (bad e) w h = h

  manufacturer_payload-Back :
      (t : ℕ) (path : Bytes) (w : S) → t ≤ time w → Back time t (manufacturer_payload b path w)
  unfolding manufacturer_payload
  manufacturer_payload-Back t path w h =
      let (v, made) = b.proxy path properties_interface w in
      payload_after-Back t path made v (omega (arith, clock.proxied path properties_interface w))

  prop_set-Back : (t : ℕ) (path : Bytes) (w : S) → t ≤ time w → Back time t (prop_set b path w)
  unfolding prop_set
  prop_set-Back t path w h =
      mapped_then-Back b time clock t _ _ w
        (omega (arith, clock.proxied path properties_interface w))
        (λ u v le.
          mapped-Back b time clock t (b.set_trusted path) v (omega (arith, clock.trusted path v)))

  characteristics-Back :
      (t : ℕ) (path : Bytes) (w : S) → t ≤ time w → Back time t (characteristics b path w)
  unfolding characteristics managed
  characteristics-Back t path w h =
      and_then-Back time t _ _
        (mapped_then-Back b time clock t _ _ w (omega (arith, clock.proxied _ _ w)) (λ u v le.
          mapped-Back b time clock t b.managed_objects v (omega (arith, clock.listed v))))
        (λ objects v le. le)

  bring_up-Back :
      (n t : ℕ) (path : Bytes) (w : S)
      → 201 ≤ n
      → t ≤ time w
      → Back time t (bring_up b (suc n) path w)
  unfolding bring_up
  bring_up-Back n t path w h k =
      and_then-Back time t _ (prop_set b path w) (prop_set-Back t path w k) (λ u v le.
        checked-Back b time clock t (b.connect_message path) _ v le (λ u v1 le1.
          mapped_then-Back b time clock t (b.send_connect path) _ v1
            (omega (arith, clock.sent path v1))
            (λ u v2 le2.
              let (x, now) = b.now v2 in
              Back-earlier time t (time x) (resolve_loop b (suc n) (now + resolve_timeout) path x)
                (omega (arith, clock.read_after v2, clock.read_before v2))
                (resolve_loop-Back n (now + resolve_timeout) path x
                  (omega (arith, clock.read_before v2))))))

  required-Back :
      (t : ℕ) (name : String) (found : Option Bytes) (w : S)
      → t ≤ time w
      → Back time t (required b name found w)
  unfolding required
  required-Back t name (some path) w h = h
  required-Back t name none w h = h

  listen_to-Back : (t : ℕ) (path : Bytes) (w : S) → t ≤ time w → Back time t (listen_to b path w)
  unfolding listen_to
  listen_to-Back t path w h = checked-Back b time clock t (b.match_rule path) _ w h (λ u v le.
      mapped_then-Back b time clock t (b.listen path) _ v (omega (arith, clock.listened path v))
        (λ u v1 le1.
          mapped_then-Back b time clock t (b.proxy path char_interface) _ v1
            (omega (arith, clock.proxied path char_interface v1))
            (λ u v2 le2.
              mapped_then-Back b time clock t (b.start_notify path) _ v2
                (omega (arith, clock.notified path v2))
                (λ u v3 le3.
                  mapped-Back b time clock t b.spawn v3 (omega (arith, clock.spawned v3))))))

  connect_to-Back :
      (n t : ℕ) (hit : Hit) (w : S)
      → 201 ≤ n
      → t ≤ time w
      → Back time t (connect_to b (suc n) hit w)
  unfolding connect_to
  connect_to-Back n t hit w h k =
      and_then-Back time t _ (manufacturer_payload b hit.path w)
        (manufacturer_payload-Back t hit.path w k)
        (λ hint v le.
          and_then-Back time t _ (bring_up b (suc n) hit.path v) (bring_up-Back n t hit.path v h le)
            (λ u v1 le1.
              and_then-Back time t _ (characteristics b hit.path v1)
                (characteristics-Back t hit.path v1 le1)
                (λ chars v2 le2.
                  and_then-Back time t _ _ (required-Back t _ (path_of Uuid.cmd chars) v2 le2)
                    (λ cmd v3 le3.
                      and_then-Back time t _ _ (required-Back t _ (path_of Uuid.evt chars) v3 le3)
                        (λ evt v4 le4.
                          and_then-Back time t _ (listen_to b evt v4) (listen_to-Back t evt v4 le4)
                            (λ u v5 le5. le5))))))

  connect_bluez-Back :
      (n t : ℕ) (pin : Option Bytes) (adapter : Bytes) (w : S)
      → 201 ≤ n
      → t ≤ time w
      → Back time t (connect_bluez b (suc n) pin adapter w)
  unfolding connect_bluez
  connect_bluez-Back n t pin adapter w h k =
      mapped_then-Back b time clock t b.system _ w (omega (arith, clock.opened w)) (λ u v le.
        checked-Back b time clock t _ _ v le (λ path v1 le1.
          and_then-Back time t (connect_to b (suc n)) (find_device b (suc n) path pin v1)
            (find_device-Back b time clock n t path pin v1 (omega arith) le1)
            (λ hit v2 le2. connect_to-Back n t hit v2 h le2)))

  Back-result :
      {A : Type 0} (t : ℕ) (o : Option (S × Result Error A))
      → Back time t o
      → (r : S × Result Error A) × (o ≡ some r) × (t ≤ time r.0)
  Back-result t none h = absurd h
  Back-result t (some r) h = (r, refl, h)

  -- An attempt to connect over the bus ends, with a transport or an error: 202 rounds are enough for
  -- the search and for the wait for the device's services, whatever objects the bus lists, whatever
  -- calls fail, and though the call that connects is never answered, on a clock that no call turns
  -- back.
  pub connect_bluez-Returns :
      (n : ℕ) (pin : Option Bytes) (adapter : Bytes) (w : S)
      → 201 ≤ n
      → (r : S × Result Error (BluezTransport S)) × (connect_bluez b (suc n) pin adapter w ≡ some r)
        × (time w ≤ time r.0)
  connect_bluez-Returns n pin adapter w h =
      Back-result (time w) (connect_bluez b (suc n) pin adapter w)
        (connect_bluez-Back n (time w) pin adapter w h (omega arith))
