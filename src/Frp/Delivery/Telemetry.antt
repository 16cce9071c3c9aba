-- ===== src/Frp/Delivery/Telemetry.antt =====
-- The telemetry of src/frp/mod.rs: what a new controller is sent, and what is not sent again.
use allsquare.Base.{
  Bool, true, false, List, [], ◌∷◌, Option, some, none, ◌≡◌, refl, sym, ◌∙◌, arith, append-nil,
  if◌then◌else◌,
}
use allsquare.Build.{Build}
use allsquare.Client.State.{Event}
use allsquare.Protocol.Types.{DeviceState}
use allsquare.Text.{is_some}
use allsquare.Frp.Types.{FrpEnvelope, FrpResult, ok, err, closed, other}
use allsquare.Frp.Device.{
  Relay, FrpDevice, proceed, request_connection, drop_connection, after_send, send_on,
  send_envelope, resend, adopt, poll_connection,
}
use allsquare.Frp.Events.{
  send_telemetry, handle_event, noted, repeats, telemetry_envelope, is_ready,
}
use allsquare.Frp.Delivery.{Records, Sends}
use allsquare.Frp.Delivery.Single.{Sent, delivered, gone, refused, send_envelope-Sent}

abbrev pub cached : {F : Type 0} → Option (FrpEnvelope F) → List (FrpEnvelope F)
cached none = []
cached (some env) = env ∷ []

module _ {Conn F : Type 0} where
  -- The cached envelope, for a connection that arrives at a device without one.
  abbrev pub due : Option Conn → Option Conn → Option (FrpEnvelope F) → List (FrpEnvelope F)
  due (some c) arrived env = []
  due none none env = []
  due none (some c) env = cached env

module _ {V Conn F : Type 0} (r : Relay V Conn F) where
  -- A send leaves what the device last said of the ball.
  after_send-last_ready :
      (res : FrpResult (Unit {0})) (d : FrpDevice V Conn F)
      → (after_send r res d).0.last_ready ≡ d.last_ready
  unfolding after_send drop_connection request_connection
  after_send-last_ready (ok u) d = refl
  after_send-last_ready (err closed) d = ground arith
  after_send-last_ready (err (other n)) d = refl

  send_on-last_ready :
      (c : Option Conn) (env : FrpEnvelope F) (d : FrpDevice V Conn F)
      → (send_on r c env d).0.last_ready ≡ d.last_ready
  unfolding send_on
  send_on-last_ready none env d = refl
  send_on-last_ready (some c) env d =
      let (w, res) = r.send d.world c env in after_send-last_ready res (record d { world = w })

  repeats_refl : (x : Bool) → repeats (some x) (some x) ≡ true
  repeats_refl true = refl
  repeats_refl false = refl

  -- The two branches of `send_telemetry`.
  if_told-last_ready :
      (x told : Bool) (d : FrpDevice V Conn F) (e : FrpDevice V Conn F × FrpResult (Unit {0}))
      → repeats (some x) d.last_ready ≡ told
      → e.0.last_ready ≡ some x
      → repeats (some x) (if told then (d, ok tt) else e).0.last_ready ≡ true
  if_told-last_ready x true d e h k = h
  if_told-last_ready x false d e h k = rw k (repeats_refl x)

  send_telemetry-repeats :
      (x : Bool) (d : FrpDevice V Conn F)
      → repeats (some x) (send_telemetry r (some x) none d).0.last_ready ≡ true
  unfolding send_telemetry send_envelope
  send_telemetry-repeats x d = if_told-last_ready x (repeats (some x) d.last_ready) d _ refl (
      send_on-last_ready d.conn (telemetry_envelope (noted (some x) d) none)
        (record (noted (some x) d) {
          telemetry = some (telemetry_envelope (noted (some x) d) none);
        }))

  send_telemetry-idle :
      (x : Bool) (e : FrpDevice V Conn F)
      → repeats (some x) e.last_ready ≡ true
      → send_telemetry r (some x) none e ≡ (e, ok tt)
  unfolding send_telemetry
  send_telemetry-idle x e h = rw h

  -- A state change right after one that says the same of the ball, whether the first reached the
  -- controller or not, sends nothing and changes nothing.
  pub handle_event-repeated :
      (b : Build F) (s t : DeviceState) (d : FrpDevice V Conn F)
      → is_ready s ≡ is_ready t
      → let e = (handle_event r b (Event.state_changed s) d).0 in
        handle_event r b (Event.state_changed t) e ≡ (e, ok tt)
  unfolding handle_event
  handle_event-repeated b s t d h = rw (← h) (
      send_telemetry-idle (is_ready s) (send_telemetry r (some (is_ready s)) none d).0
        (send_telemetry-repeats (is_ready s) d))

module _ {V Conn F : Type 0} (r : Relay V Conn F) (log : V → List (FrpEnvelope F))
    (rec : Records r log) where
  -- A result of another type that keeps the device, if the first is not an error.
  answer : Bool → FrpDevice V Conn F × FrpResult (Unit {0}) → FrpDevice V Conn F × FrpResult Bool
  answer x s = proceed s (λ _ e. (e, ok x))

  Sent-Sends :
      (x : Bool) (d : FrpDevice V Conn F) (env : FrpEnvelope F)
      (s : FrpDevice V Conn F × FrpResult (Unit {0}))
      → Sent r log rec d env s
      → Sends log (log d.world) (env ∷ []) (answer x s)
  unfolding answer
  Sent-Sends x d env _ (delivered l v c) = record { count = 1; received = l; whole = λ a y z. l }
  Sent-Sends x d env _ (gone l v n) = record {
    count = 0;
    received = l ∙ sym (append-nil (log d.world));
    whole = λ a y z. cc;
  }
  Sent-Sends x d env _ (refused l) = record {
    count = 0;
    received = l ∙ sym (append-nil (log d.world));
    whole = λ a y z. cc y;
  }

  -- Nothing is sent, and nothing was to be sent.
  still-Sends :
      (x : Bool) (before : List (FrpEnvelope F)) (d : FrpDevice V Conn F)
      → log d.world ≡ before
      → Sends {A = Bool} log before [] (d, ok x)
  still-Sends x before d l = record {
    count = 0;
    received = l ∙ sym (append-nil before);
    whole = λ a y z. l ∙ sym (append-nil before);
  }

  resend-Sends :
      (env : Option (FrpEnvelope F)) (d : FrpDevice V Conn F)
      → Sends log (log d.world) (cached env) (answer true (resend r env d))
  unfolding answer resend
  resend-Sends none d = still-Sends true (log d.world) d refl
  resend-Sends (some env) d =
      Sent-Sends true d env (send_envelope r env d) (send_envelope-Sent r log rec env d)

  adopt-Sends :
      (arrived : Option Conn) (d : FrpDevice V Conn F)
      → Sends log (log d.world) (due none arrived d.telemetry) (adopt r arrived d)
  unfolding adopt answer
  adopt-Sends none d = still-Sends false (log d.world) d refl
  adopt-Sends (some c) d = resend-Sends d.telemetry (record d { pending = false; conn = some c })

  if_connected-Sends :
      (conn arrived : Option Conn) (d : FrpDevice V Conn F)
      (s : FrpDevice V Conn F × FrpResult Bool)
      → Sends log (log d.world) (due none arrived d.telemetry) s
      → Sends log
          (log d.world)
          (due conn arrived d.telemetry)
          (if is_some conn then (d, ok false) else s)
  if_connected-Sends none arrived d s v = v
  if_connected-Sends (some c) arrived d s v = still-Sends false (log d.world) d refl

  -- A poll for a connection sends a newly arrived controller the cached telemetry, if there is any,
  -- and sends nothing else.
  pub poll_connection-Sends :
      (d : FrpDevice V Conn F)
      → Sends log
          (log d.world)
          (due d.conn (r.incoming d.world).1 d.telemetry)
          (poll_connection r d)
  unfolding poll_connection
  poll_connection-Sends d =
      let (w, arrived) = r.incoming d.world in
      if_connected-Sends d.conn arrived d (adopt r arrived (record d { world = w }))
        (rw (← rec.arrives d.world) (adopt-Sends arrived (record d { world = w })))
