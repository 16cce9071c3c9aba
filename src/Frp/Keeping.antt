-- ===== src/Frp/Keeping.antt =====
-- What the steps of a device of src/frp/mod.rs keep, its methods keep.
use allsquare.Base.{
  ℕ, ◌^◌, Bool, false, not, ◌&&◌, ◌==◌, ◌+◌, ◌%◌, refl, inl, inr, Bool-cases, length, List, [], ◌∷◌,
  Option, some, none, ◌≡◌, Bytes,
}
use allsquare.Build.{Build}
use allsquare.Client.State.{Event}
use allsquare.Protocol.Types.{BallMetrics, ClubMetrics}
use allsquare.Text.{is_some}
use allsquare.Frp.Types.{FrpEvent, FrpEnvelope, FrpResult, ok, err, closed, other}
use allsquare.Frp.Device.{
  Received, Relay, FrpDevice, D, proceed, spawn, drop_connection, after_send, send_on,
  send_envelope, resend, adopt, poll_connection, set_device_name, set_firmware, set_model,
  on_received, check_on, check_controller,
}
use allsquare.Frp.Events.{
  send_telemetry, send_device_info, send_events, next_key, handle_shot, handle_event, shot_events,
  noted, telemetry_envelope, repeats,
}

-- `I` is kept by the steps of which the methods consist: a call of the surroundings, a field that is
-- set, a connection that is adopted and one that is dropped.
pub record Stable {V Conn F : Type 0} (r : Relay V Conn F) (I : FrpDevice V Conn F → Type 0)
    : Type 0 where
  pub sent :
      (d : FrpDevice V Conn F) (c : Conn) (env : FrpEnvelope F)
      → I d
      → I (record d { world = (r.send d.world c env).0 })
  pub received :
      (d : FrpDevice V Conn F) (c : Conn) → I d → I (record d { world = (r.try_recv d.world c).0 })
  pub waited :
      (d : FrpDevice V Conn F)
      → (r.incoming d.world).1 ≡ none
      → I d
      → I (record d { world = (r.incoming d.world).0 })
  pub adopted :
      (d : FrpDevice V Conn F) (c : Conn)
      → (r.incoming d.world).1 ≡ some c
      → I d
      → I (record d { world = (r.incoming d.world).0; pending = false; conn = some c })
  pub dropped : (d : FrpDevice V Conn F) → I d → I (drop_connection r d)
  pub keyed :
      (d : FrpDevice V Conn F)
      → I d
      → I (record d { world = (r.nanos d.world).0; shot_number = (d.shot_number + 1) % 2 ^ 32 })
  pub cached :
      (d : FrpDevice V Conn F) (env : Option (FrpEnvelope F))
      → I d
      → I (record d { telemetry = env })
  pub told : (d : FrpDevice V Conn F) (x : Option Bool) → I d → I (record d { last_ready = x })
  pub named : (d : FrpDevice V Conn F) (s : Bytes) → I d → I (record d { device = s })
  pub versioned : (d : FrpDevice V Conn F) (s : Option Bytes) → I d → I (record d { firmware = s })
  pub modelled : (d : FrpDevice V Conn F) (s : Option Bytes) → I d → I (record d { model = s })

module _ {V Conn F : Type 0} (r : Relay V Conn F) (I : FrpDevice V Conn F → Type 0)
    (stable : Stable r I) where
  -- A method keeps `I`, however it ends.
  abbrev pub Keeps : {A : Type 0} → D V Conn F A → Type 0
  Keeps m = (d : FrpDevice V Conn F) → I d → I (m d).0

  proceed-Keeps :
      {A B : Type 0} (e : FrpDevice V Conn F × FrpResult A) (f : A → D V Conn F B)
      → I e.0
      → ((a : A) → Keeps (f a))
      → I (proceed e f).0
  proceed-Keeps (d, ok a) f v k = k a d v
  proceed-Keeps (d, err e) f v k = v

  after_send-Keeps : (e : FrpResult (Unit {0})) → Keeps (after_send r e)
  unfolding after_send
  after_send-Keeps (ok u) d v = v
  after_send-Keeps (err closed) d v = stable.dropped d v
  after_send-Keeps (err (other n)) d v = v

  send_on-Keeps : (c : Option Conn) (env : FrpEnvelope F) → Keeps (send_on r c env)
  unfolding send_on
  send_on-Keeps none env d v = v
  send_on-Keeps (some c) env d v =
      let (w, sent) = r.send d.world c env in
      after_send-Keeps sent (record d { world = w }) (stable.sent d c env v)

  send_envelope-Keeps : (env : FrpEnvelope F) → Keeps (send_envelope r env)
  unfolding send_envelope
  send_envelope-Keeps env d v = send_on-Keeps d.conn env d v

  resend-Keeps : (env : Option (FrpEnvelope F)) → Keeps (resend r env)
  unfolding resend
  resend-Keeps none d v = v
  resend-Keeps (some env) d v = send_envelope-Keeps env d v

  adopt-Keeps :
      (c : Option Conn) (d : FrpDevice V Conn F)
      → (r.incoming d.world).1 ≡ c
      → I d
      → I (adopt r c (record d { world = (r.incoming d.world).0 })).0
  unfolding adopt
  adopt-Keeps none d e v = stable.waited d e v
  adopt-Keeps (some c) d e v =
      let d' = record d { world = (r.incoming d.world).0; pending = false; conn = some c } in
      proceed-Keeps (resend r d.telemetry d') _
        (resend-Keeps d.telemetry d' (stable.adopted d c e v)) (λ _ e u. u)

  pub poll_connection-Keeps : Keeps (poll_connection r)
  unfolding poll_connection
  poll_connection-Keeps d v = elim (Bool-cases (is_some d.conn)) [
    | inl e ↦ rw e v
    | inr e ↦ rw e (adopt-Keeps (r.incoming d.world).1 d refl v)
  ]

  on_received-Keeps : (got : Received) (d : FrpDevice V Conn F) → I d → I (on_received r got d).0
  unfolding on_received
  on_received-Keeps (Received.message m) d v = v
  on_received-Keeps Received.lost d v = stable.dropped d v
  on_received-Keeps Received.nothing d v = v

  pub check_on-Keeps : (c : Option Conn) (d : FrpDevice V Conn F) → I d → I (check_on r c d).0
  unfolding check_on
  check_on-Keeps none d v = v
  check_on-Keeps (some c) d v =
      let (w, got) = r.try_recv d.world c in
      on_received-Keeps got (record d { world = w }) (stable.received d c v)

  noted-Keeps : (now : Option Bool) (d : FrpDevice V Conn F) → I d → I (noted now d)
  noted-Keeps none d v = v
  noted-Keeps (some x) d v = stable.told d (some x) v

  pub send_telemetry-Keeps :
      (now : Option Bool) (battery : Option ℕ) → Keeps (send_telemetry r now battery)
  unfolding send_telemetry
  send_telemetry-Keeps now battery d v =
      let d' = noted now d in
      let env = telemetry_envelope d' battery in
      elim (Bool-cases (not (is_some battery) && repeats now d.last_ready)) [
        | inl e ↦ rw e v
        | inr e ↦ rw e (
            send_envelope-Keeps env (record d' { telemetry = some env })
              (stable.cached d' (some env) (noted-Keeps now d v)))
      ]

  send_events-Keeps : (events : List (FrpEvent F)) → Keeps (send_events r events)
  unfolding send_events
  send_events-Keeps [] d v = v
  send_events-Keeps (event ∷ rest) d v =
      let env : FrpEnvelope F = record { device = d.device; event = event } in
      elim (Bool-cases (is_some d.conn)) [
        | inl e ↦ rw e (
            proceed-Keeps (send_envelope r env d) (λ _. send_events r rest)
              (send_envelope-Keeps env d v) (λ _. send_events-Keeps rest))
        | inr e ↦ rw e v
      ]

  next_key-Keeps : Keeps (next_key r)
  unfolding next_key
  next_key-Keeps d v = stable.keyed d v

  handle_shot-Keeps :
      (b : Build F) (ball : BallMetrics F) (club : Option (ClubMetrics F))
      → Keeps (handle_shot r b ball club)
  unfolding handle_shot
  handle_shot-Keeps b ball club d v =
      proceed-Keeps (send_telemetry r (some false) none d) _
        (send_telemetry-Keeps (some false) none d v)
        (λ _ e u.
          proceed-Keeps (next_key r e) _ (next_key-Keeps e u)
            (λ key. send_events-Keeps (shot_events b key ball club)))

  pub handle_event-Keeps : (b : Build F) (e : Event F) → Keeps (handle_event r b e)
  unfolding handle_event
  handle_event-Keeps b (Event.state_changed s) = send_telemetry-Keeps _ none
  handle_event-Keeps b (Event.battery percent s) = send_telemetry-Keeps none (some percent)
  handle_event-Keeps b (Event.shot ball club) = handle_shot-Keeps b ball club
  handle_event-Keeps b _ = λ d v. v

-- What a caller may do with a device.
pub data Call (F : Type 0) : Type 0 where
  polls checks informs : Call F
  handles : Event F → Call F
  names firmwares models : Bytes → Call F

module _ {V Conn F : Type 0} (b : Build F) (r : Relay V Conn F) where
  -- The device after a call, whether or not the call failed.
  pub after_call : Call F → FrpDevice V Conn F → FrpDevice V Conn F
  after_call Call.polls d = (poll_connection r d).0
  after_call Call.checks d = (check_controller r d).0
  after_call Call.informs d = (send_device_info r d).0
  after_call (Call.handles e) d = (handle_event r b e d).0
  after_call (Call.names name) d = set_device_name name d
  after_call (Call.firmwares fw) d = set_firmware fw d
  after_call (Call.models model) d = set_model model d

  -- The devices that calls lead to from a spawned one.
  pub data Live : FrpDevice V Conn F → Type 0 where
    spawned : (w : V) → Live (spawn r w)
    called : {d : FrpDevice V Conn F} (k : Call F) → Live d → Live (after_call k d)

module _ {V Conn F : Type 0} (b : Build F) (r : Relay V Conn F) (I : FrpDevice V Conn F → Type 0)
    (stable : Stable r I) where
  pub call-Keeps : (k : Call F) (d : FrpDevice V Conn F) → I d → I (after_call b r k d)
  unfolding after_call check_controller send_device_info set_device_name set_firmware set_model
  call-Keeps Call.polls d v = poll_connection-Keeps r I stable d v
  call-Keeps Call.checks d v = check_on-Keeps r I stable d.conn d v
  call-Keeps Call.informs d v = send_telemetry-Keeps r I stable none none d v
  call-Keeps (Call.handles e) d v = handle_event-Keeps r I stable b e d v
  call-Keeps (Call.names name) d v = stable.named d name v
  call-Keeps (Call.firmwares fw) d v = stable.versioned d (some fw) v
  call-Keeps (Call.models model) d v = elim (Bool-cases (length model == 0)) [
    | inl e ↦ rw e v
    | inr e ↦ rw e (stable.modelled d (some model) v)
  ]
