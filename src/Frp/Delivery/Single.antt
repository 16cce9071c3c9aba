-- ===== src/Frp/Delivery/Single.antt =====
-- One send of src/frp/mod.rs, and the sends of a list of events.
use allsquare.Base.{
  suc, Bytes, true, List, [], ◌∷◌, ◌++◌, Option, some, none, ◌≡◌, refl, arith, take, append_assoc,
  append-nil, if◌then◌else◌, sym, ◌∙◌, ap,
}
use allsquare.Text.{is_some}
use allsquare.Frp.Types.{FrpEvent, FrpEnvelope, FrpResult, ok, err, FrpError, closed, other}
use allsquare.Frp.Device.{
  Relay, FrpDevice, D, proceed, request_connection, drop_connection, after_send, send_on,
  send_envelope,
}
use allsquare.Frp.Events.{send_events}
use allsquare.Frp.Delivery.{Records, Sends, envelopes, Follows}

module _ {V Conn F : Type 0} (r : Relay V Conn F) (log : V → List (FrpEnvelope F))
    (rec : Records r log) where
  -- What one send comes to: the controller has the envelope, or is gone, or the send fails.
  pub data Sent (d : FrpDevice V Conn F) (env : FrpEnvelope F)
      : FrpDevice V Conn F × FrpResult (Unit {0}) → Type 0 where
    delivered :
        {e : FrpDevice V Conn F} {u : Unit {0}}
        → log e.world ≡ log d.world ++ env ∷ []
        → Follows d e
        → is_some e.conn ≡ true
        → Sent d env (e, ok u)
    gone :
        {e : FrpDevice V Conn F} {u : Unit {0}}
        → log e.world ≡ log d.world
        → Follows d e
        → e.conn ≡ none
        → Sent d env (e, ok u)
    refused :
        {e : FrpDevice V Conn F} {x : FrpError} → log e.world ≡ log d.world → Sent d env (e, err x)

  drop_connection-log :
      (d : FrpDevice V Conn F)
      → (log (drop_connection r d).world ≡ log d.world)
        × ((drop_connection r d).conn ≡ none)
        × Follows d (drop_connection r d)
  unfolding drop_connection request_connection
  drop_connection-log d = ground (arith, rec.asked d.world)

  -- The device after the send, whose world is `w`.
  after_send-Sent :
      (d : FrpDevice V Conn F) (env : FrpEnvelope F) (c : Conn) (w : V) (res : FrpResult (Unit {0}))
      → d.conn ≡ some c
      → ((u : Unit {0}) → res ≡ ok u → log w ≡ log d.world ++ env ∷ [])
      → ((x : FrpError) → res ≡ err x → log w ≡ log d.world)
      → Sent d env (after_send r res (record d { world = w }))
  unfolding after_send
  after_send-Sent d env c w (ok u) h s f = delivered (s u refl) (refl, refl) (rw h)
  after_send-Sent d env c w (err closed) h s f =
      let (l, n, v) = drop_connection-log (record d { world = w }) in gone (l ∙ f closed refl) v n
  after_send-Sent d env c w (err (other k)) h s f = refused (f (other k) refl)

  send_on-Sent :
      (conn : Option Conn) (env : FrpEnvelope F) (d : FrpDevice V Conn F)
      → d.conn ≡ conn
      → Sent d env (send_on r conn env d)
  unfolding send_on
  send_on-Sent none env d h = gone refl (refl, refl) h
  send_on-Sent (some c) env d h =
      let (w, res) = r.send d.world c env in
      after_send-Sent d env c w res h (rec.sent d.world c env) (rec.failed d.world c env)

  pub send_envelope-Sent :
      (env : FrpEnvelope F) (d : FrpDevice V Conn F) → Sent d env (send_envelope r env d)
  unfolding send_envelope
  send_envelope-Sent env d = send_on-Sent d.conn env d refl

  -- Sends on a device whose connection is gone.
  gone-Sends :
      (before : List (FrpEnvelope F)) (envs : List (FrpEnvelope F)) (e : FrpDevice V Conn F)
      → log e.world ≡ before
      → e.conn ≡ none
      → Sends {A = Unit {0}} log before envs (e, ok tt)
  gone-Sends before envs e l n = record {
    count = 0;
    received = l ∙ sym (append-nil before);
    whole = λ a x h. cc;
  }

  -- A send, and the sends after it.
  pub proceed-Sends :
      (d : FrpDevice V Conn F) (env : FrpEnvelope F) (envs : List (FrpEnvelope F))
      (s : FrpDevice V Conn F × FrpResult (Unit {0})) (k : D V Conn F (Unit {0}))
      → Sent d env s
      → (Follows d s.0 → Sends log (log s.0.world) envs (k s.0))
      → (s.0.conn ≡ none → ((k s.0).0.conn ≡ none) × (log (k s.0).0.world ≡ log s.0.world))
      → Sends log (log d.world) (env ∷ envs) (proceed s (λ _. k))
  proceed-Sends d env envs _ k (delivered {e} l v c) h g =
      let s = h v in
      record {
        count = suc s.count;
        received = s.received ∙ ap (λ x. x ++ take s.count envs) l ∙ append_assoc (log d.world) _ _;
        whole = λ a x y. s.whole a x y ∙ ap (λ z. z ++ envs) l ∙ append_assoc (log d.world) _ _;
      }
  proceed-Sends d env envs _ k (gone {e} l v n) h g =
      let (m, q) = g n in
      record {
        count = 0;
        received = q ∙ l ∙ sym (append-nil (log d.world));
        whole = λ a x y. cc (m, y);
      }
  proceed-Sends d env envs _ k (refused l) h g = record {
    count = 0;
    received = l ∙ sym (append-nil (log d.world));
    whole = λ a x y. cc x;
  }

  -- A device without a connection sends nothing and stays so.
  pub send_events-gone :
      (events : List (FrpEvent F)) (e : FrpDevice V Conn F)
      → e.conn ≡ none
      → send_events r events e ≡ (e, ok tt)
  unfolding send_events
  send_events-gone [] e n = refl
  send_events-gone (event ∷ rest) e n = rw n

  -- Sends on a device whose connection may be gone.
  if_connected-Sends :
      (conn : Option Conn) (envs : List (FrpEnvelope F)) (d : FrpDevice V Conn F)
      (s : FrpDevice V Conn F × FrpResult (Unit {0}))
      → d.conn ≡ conn
      → Sends log (log d.world) envs s
      → Sends log (log d.world) envs (if is_some conn then s else (d, ok tt))
  if_connected-Sends none envs d s h v = gone-Sends (log d.world) envs d refl h
  if_connected-Sends (some c) envs d s h v = v

  pub send_events-Sends :
      (name : Bytes) (events : List (FrpEvent F)) (d : FrpDevice V Conn F)
      → d.device ≡ name
      → Sends log (log d.world) (envelopes name events) (send_events r events d)
  unfolding send_events
  send_events-Sends name [] d h = record {
    count = 0;
    received = sym (append-nil (log d.world));
    whole = λ a x y. sym (append-nil (log d.world));
  }
  send_events-Sends name (event ∷ rest) d h =
      let env : FrpEnvelope F = record { device = d.device; event = event } in
      if_connected-Sends d.conn (envelopes name (event ∷ rest)) d _ refl (
        rw (← h) (
          proceed-Sends d env (envelopes name rest) (send_envelope r env d) (send_events r rest)
            (send_envelope-Sent env d)
            (λ v. send_events-Sends name rest (send_envelope r env d).0 (v.0 ∙ h))
            (λ n. rw (send_events-gone rest (send_envelope r env d).0 n) (n, refl))))
