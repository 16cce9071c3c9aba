-- ===== src/Transport/Bluez/Order.antt =====
-- The order in which `connect` of src/bluez.rs sets a device up: the workarounds that its header
-- asks for.
use Prim.Native.String.{String}
use allsquare.Base.{
  ℕ, ◌+◌, List, [], ◌∷◌, ◌++◌, take, Option, some, none, ◌≡◌, refl, sym, ◌∙◌, subst, append_assoc,
  append-nil, Bytes,
}
use allsquare.Error.{Error}
use allsquare.Protocol.Uuid
use allsquare.Text.{codes}
use allsquare.Transport.Bluez.{Hit, path_of, BluezTransport}
use allsquare.Transport.Bluez.Dbus.{
  Dbus, char_interface, properties_interface, resolve_timeout, mapped, characteristics, prop_set,
  manufacturer_payload,
}
use allsquare.Transport.Bluez.Connect.{
  find_device, resolve_loop, bring_up, required, listen_to, connect_to, connect_bluez,
}
use allsquare.Transport.Bluez.Keeping.{
  Keeps, Kept, mapped_then-Ends, checked_then-Ends, mapped-Ends, find_device-Kept,
  resolve_loop-Kept, characteristics-Kept, manufacturer_payload-Kept,
}
use allsquare.Transport.Tasks.{Result, good, bad}
use allsquare.Transport.Tasks.Ends.{Ends, and_then-Ends}

-- The calls that set a device or a characteristic up, and the path that each is for.
pub data SetUp : Type 0 where
  trusts connects listens notifies : Bytes → SetUp

-- `log` has the calls that were made to set something up, the last of them last.
pub record Logs {S : Type 0} (b : Dbus S) (log : S → List SetUp) : Type 0 where
  pub kept : (l : List SetUp) → Keeps b (λ w. log w ≡ l)
  pub trusted : (path : Bytes) (w : S) → log (b.set_trusted path w).0 ≡ log w ++ trusts path ∷ []
  pub connected :
      (path : Bytes) (w : S) → log (b.send_connect path w).0 ≡ log w ++ connects path ∷ []
  pub listened : (path : Bytes) (w : S) → log (b.listen path w).0 ≡ log w ++ listens path ∷ []
  pub notified :
      (path : Bytes) (w : S) → log (b.start_notify path w).0 ≡ log w ++ notifies path ∷ []

-- The calls for a device and its characteristic EVT.
abbrev pub set_up : Bytes → Bytes → List SetUp
set_up device evt = trusts device ∷ connects device ∷ listens evt ∷ notifies evt ∷ []

-- A transport that was set up: each call was made once, for one device and the characteristic EVT of
-- its table, from which the path of CMD was taken too.
pub record IsSetUp {S : Type 0} (log : S → List SetUp) (before : List SetUp) (t : BluezTransport S)
    (w : S) : Type 0 where
  pub device : Bytes
  pub evt : Bytes
  pub calls : log w ≡ before ++ set_up device evt
  pub evt_known : path_of Uuid.evt t.chars ≡ some evt
  pub cmd_known : path_of Uuid.cmd t.chars ≡ some t.cmd_path

-- A failure: the first of the calls were made, if any.
abbrev pub BrokeOff : {S : Type 0} → (S → List SetUp) → List SetUp → S → Type 0
BrokeOff log before w =
    (k : ℕ) × (device : Bytes) × (evt : Bytes) × (log w ≡ before ++ take k (set_up device evt))

module _ {S : Type 0} (b : Dbus S) (log : S → List SetUp) (logs : Logs b log)
    (before : List SetUp) where
  -- The first `k` calls were made.
  abbrev At : ℕ → Bytes → Bytes → S → Type 0
  At k device evt w = log w ≡ before ++ take k (set_up device evt)

  abbrev Broke : S → Type 0
  Broke = BrokeOff log before

  At-Keeps : (k : ℕ) (d e : Bytes) → Keeps b (At k d e)
  At-Keeps k d e = logs.kept (before ++ take k (set_up d e))

  broke : (k : ℕ) (d e : Bytes) (w : S) → At k d e w → Broke w
  broke k d e w h = (k, d, e, h)

  -- The next call.
  next_At :
      (xs ys : List SetUp) (x : SetUp) (w v : S)
      → log v ≡ log w ++ x ∷ []
      → log w ≡ before ++ xs
      → ys ≡ xs ++ x ∷ []
      → log v ≡ before ++ ys
  next_At xs ys x w v h k e = rw (h, k, e) (append_assoc before xs (x ∷ []))

  -- What keeps the log, and fails with what was called so far.
  loose :
      {A : Type 0} (k : ℕ) (d e : Bytes) (o : Option (S × Result Error A))
      → Kept (At k d e) o
      → Ends (λ a. At k d e) (λ x. Broke) o
  loose k d e none h = tt
  loose k d e (some (w, good a)) h = h
  loose k d e (some (w, bad x)) h = broke k d e w h

  prop_set-Ends :
      (d e : Bytes) (w : S) → At 0 d e w → Ends (λ u. At 1 d e) (λ x. Broke) (prop_set b d w)
  unfolding prop_set
  prop_set-Ends d e w h =
      mapped_then-Ends (At 0 d e) Broke (λ u. At 1 d e) (b.proxy d properties_interface) _ w
        ((At-Keeps 0 d e).proxied d properties_interface w h) (broke 0 d e)
        (λ u v k. loose 1 d e (mapped (b.set_trusted d) v) (
          mapped-Ends (At 1 d e) (b.set_trusted d) v (
            next_At [] (trusts d ∷ []) (trusts d) v (b.set_trusted d v).0 (logs.trusted d v) k
              refl)))

  bring_up-Ends :
      (n : ℕ) (d e : Bytes) (w : S)
      → At 0 d e w
      → Ends (λ u. At 2 d e) (λ x. Broke) (bring_up b n d w)
  unfolding bring_up
  bring_up-Ends n d e w h =
      and_then-Ends (λ u. At 1 d e) (λ u. At 2 d e) (λ x. Broke) _ (prop_set b d w)
        (prop_set-Ends d e w h)
        (λ u v k.
          checked_then-Ends (At 1 d e) Broke (λ u. At 2 d e) (b.connect_message d) _ v k
            (broke 1 d e)
            (λ u v1 k1.
              let sent : At 2 d e (b.send_connect d v1).0 =
                next_At (trusts d ∷ []) (trusts d ∷ connects d ∷ []) (connects d) v1
                  (b.send_connect d v1).0 (logs.connected d v1) k1 refl in
              mapped_then-Ends (At 2 d e) Broke (λ u. At 2 d e) (b.send_connect d) _ v1 sent
                (broke 2 d e)
                (λ u v2 k2.
                  let (x, t) = b.now v2 in
                  loose 2 d e (resolve_loop b n (t + resolve_timeout) d x) (
                    resolve_loop-Kept b (At 2 d e) (At-Keeps 2 d e) n (t + resolve_timeout) d x
                      ((At-Keeps 2 d e).read v2 k2)))))

  listen_to-Ends :
      (d e : Bytes) (w : S) → At 2 d e w → Ends (λ u. At 4 d e) (λ x. Broke) (listen_to b e w)
  unfolding listen_to
  listen_to-Ends d e w h =
      checked_then-Ends (At 2 d e) Broke (λ u. At 4 d e) (b.match_rule e) _ w h (broke 2 d e)
        (λ u v k.
          mapped_then-Ends (At 3 d e) Broke (λ u. At 4 d e) (b.listen e) _ v
            (next_At (take 2 (set_up d e)) (take 3 (set_up d e)) (listens e) v (b.listen e v).0
              (logs.listened e v) k refl)
            (broke 3 d e)
            (λ u v1 k1.
              mapped_then-Ends (At 3 d e) Broke (λ u. At 4 d e) (b.proxy e char_interface) _ v1
                ((At-Keeps 3 d e).proxied e char_interface v1 k1) (broke 3 d e)
                (λ u v2 k2.
                  mapped_then-Ends (At 4 d e) Broke (λ u. At 4 d e) (b.start_notify e) _ v2
                    (next_At (take 3 (set_up d e)) (take 4 (set_up d e)) (notifies e) v2
                      (b.start_notify e v2).0 (logs.notified e v2) k2 refl)
                    (broke 4 d e)
                    (λ u v3 k3.
                      loose 4 d e (mapped b.spawn v3)
                        (mapped-Ends (At 4 d e) b.spawn v3 ((At-Keeps 4 d e).spawned v3 k3))))))

  required-Ends :
      (d e : Bytes) (name : String) (found : Option Bytes) (w : S)
      → At 2 d e w
      → Ends (λ path v. (found ≡ some path) × At 2 d e v) (λ x. Broke) (required b name found w)
  unfolding required
  required-Ends d e name (some path) w h = (refl, h)
  required-Ends d e name none w h = broke 2 d e w h

  connect_to-Ends :
      (n : ℕ) (hit : Hit) (w : S)
      → At 0 hit.path [] w
      → Ends (IsSetUp log before) (λ x. Broke) (connect_to b n hit w)
  unfolding connect_to
  connect_to-Ends n hit w h =
      let d = hit.path in
      and_then-Ends (λ x. At 0 d []) (IsSetUp log before) (λ x. Broke) _
        (manufacturer_payload b d w)
        (loose 0 d [] (manufacturer_payload b d w)
          (manufacturer_payload-Kept b (At 0 d []) (At-Keeps 0 d []) d w h))
        (λ hint v k.
          and_then-Ends (λ x. At 2 d []) (IsSetUp log before) (λ x. Broke) _ (bring_up b n d v)
            (bring_up-Ends n d [] v k)
            (λ u v1 k1.
              and_then-Ends (λ x. At 2 d []) (IsSetUp log before) (λ x. Broke) _
                (characteristics b d v1)
                (loose 2 d [] (characteristics b d v1)
                  (characteristics-Kept b (At 2 d []) (At-Keeps 2 d []) d v1 k1))
                (λ chars v2 k2.
                  and_then-Ends (λ path x. (path_of Uuid.cmd chars ≡ some path) × At 2 d [] x)
                    (IsSetUp log before) (λ x. Broke) _ _
                    (required-Ends d [] _ (path_of Uuid.cmd chars) v2 k2)
                    (λ cmd v3 (c, k3).
                      and_then-Ends (λ path x. (path_of Uuid.evt chars ≡ some path) × At 2 d [] x)
                        (IsSetUp log before) (λ x. Broke) _ _
                        (required-Ends d [] _ (path_of Uuid.evt chars) v3 k3)
                        (λ evt v4 (e, k4).
                          and_then-Ends (λ x. At 4 d evt) (IsSetUp log before) (λ x. Broke) _
                            (listen_to b evt v4) (listen_to-Ends d evt v4 k4)
                            (λ u v5 k5. record {
                              device = d;
                              evt = evt;
                              calls = k5;
                              evt_known = e;
                              cmd_known = c;
                            }))))))

  connect_bluez-Ends :
      (n : ℕ) (pin : Option Bytes) (adapter : Bytes) (w : S)
      → log w ≡ before
      → Ends (IsSetUp log before) (λ x. Broke) (connect_bluez b n pin adapter w)
  unfolding connect_bluez
  connect_bluez-Ends n pin adapter w h =
      let start : At 0 [] [] w = h ∙ sym (append-nil before) in
      mapped_then-Ends (At 0 [] []) Broke (IsSetUp log before) b.system _ w
        ((At-Keeps 0 [] []).opened w start) (broke 0 [] [])
        (λ u v k.
          checked_then-Ends (At 0 [] []) Broke (IsSetUp log before)
            (b.object_path (codes "/org/bluez/" ++ adapter)) _ v k (broke 0 [] [])
            (λ path v1 k1.
              and_then-Ends (λ x. At 0 [] []) (IsSetUp log before) (λ x. Broke) (connect_to b n)
                (find_device b n path pin v1)
                (loose 0 [] [] (find_device b n path pin v1)
                  (find_device-Kept b (At 0 [] []) (At-Keeps 0 [] []) n path pin v1 k1))
                (connect_to-Ends n)))

-- How an attempt over the bus has ended: with a transport that is set up, or broken off.
abbrev pub EndsSetUp :
    {S : Type 0} → (S → List SetUp) → S → S → Result Error (BluezTransport S) → Type 0
EndsSetUp log w v (good t) = IsSetUp log (log w) t v
EndsSetUp log w v (bad e) = BrokeOff log (log w) v

abbrev EndsAs :
    {S : Type 0} → (S → List SetUp) → S → Option (S × Result Error (BluezTransport S)) → Type 0
EndsAs log w none = Unit {0}
EndsAs log w (some (v, r)) = EndsSetUp log w v r

module _ {S : Type 0} (b : Dbus S) (log : S → List SetUp) (logs : Logs b log) where
  Ends-EndsAs :
      (w : S) (o : Option (S × Result Error (BluezTransport S)))
      → Ends (IsSetUp log (log w)) (λ x. BrokeOff log (log w)) o
      → EndsAs log w o
  Ends-EndsAs w none h = tt
  Ends-EndsAs w (some (v, good t)) h = h
  Ends-EndsAs w (some (v, bad e)) h = h

  -- An attempt that returns a transport has made each of these calls once and in this order: it has
  -- marked the device as trusted, asked it to connect, begun to listen to the signals of EVT, and
  -- only then told EVT to notify, so that no notification is missed; the transport has EVT and the
  -- path of CMD in its table. An attempt that fails has made the first of them, or none.
  pub connect_bluez-order :
      (n : ℕ) (pin : Option Bytes) (adapter : Bytes) (w v : S) (r : Result Error (BluezTransport S))
      → connect_bluez b n pin adapter w ≡ some (v, r)
      → EndsSetUp log w v r
  connect_bluez-order n pin adapter w v r e = subst (EndsAs log w) e (
      Ends-EndsAs w (connect_bluez b n pin adapter w)
        (connect_bluez-Ends b log logs (log w) n pin adapter w refl))
