-- ===== src/Frp/Delivery.antt =====
-- What a controller receives of the envelopes that src/frp/mod.rs sends.
pub mod Single
pub mod Shots
pub mod Telemetry
use allsquare.Base.{
  ℕ, zero, suc, ◌+◌, ◌%◌, ◌^◌, Bytes, Bool, true, false, List, [], ◌∷◌, ◌++◌, Option, some, none,
  ◌≡◌, refl, arith, take, map, append_assoc, append-nil, Option-cases, Bool-cases, inl, inr,
  if◌then◌else◌, sym, ◌∙◌, ap,
}
use allsquare.Build.{Build}
use allsquare.Client.State.{Event}
use allsquare.Protocol.Types.{BallMetrics, ClubMetrics}
use allsquare.Text.{is_some}
use allsquare.Frp.Types.{
  FrpEvent, FrpEnvelope, FrpResult, ok, err, FrpError, closed, other, ShotKey,
}
use allsquare.Frp.Uuid.{uuid_v4}
use allsquare.Frp.Device.{
  Relay, FrpDevice, D, proceed, ◌>>=◌, request_connection, drop_connection, after_send, send_on,
  send_envelope,
}
use allsquare.Frp.Events.{
  send_telemetry, send_events, next_key, handle_shot, handle_event, shot_events, noted,
  telemetry_envelope, repeats,
}

-- `log` lists what the controllers have received: a send that succeeds adds its envelope, and
-- nothing else adds any.
pub record Records {V Conn F : Type 0} (r : Relay V Conn F) (log : V → List (FrpEnvelope F))
    : Type 0 where
  pub sent :
      (w : V) (c : Conn) (e : FrpEnvelope F) (u : Unit {0})
      → (r.send w c e).1 ≡ ok u
      → log (r.send w c e).0 ≡ log w ++ e ∷ []
  pub failed :
      (w : V) (c : Conn) (e : FrpEnvelope F) (x : FrpError)
      → (r.send w c e).1 ≡ err x
      → log (r.send w c e).0 ≡ log w
  pub asked : (w : V) → log (r.request w).0 ≡ log w
  pub timed : (w : V) → log (r.nanos w).0 ≡ log w
  pub arrives : (w : V) → log (r.incoming w).0 ≡ log w

-- A call that sends `envs` in order sends the first of them up to some point, and all of them if it
-- ends well with its connection in place.
pub record Sends {V Conn F A : Type 0} (log : V → List (FrpEnvelope F))
    (before : List (FrpEnvelope F)) (envs : List (FrpEnvelope F))
    (e : FrpDevice V Conn F × FrpResult A) : Type 0 where
  pub count : ℕ
  pub received : log e.0.world ≡ before ++ take count envs
  pub whole : (a : A) → e.1 ≡ ok a → is_some e.0.conn ≡ true → log e.0.world ≡ before ++ envs

abbrev pub envelopes : {F : Type 0} → Bytes → List (FrpEvent F) → List (FrpEnvelope F)
envelopes name = map (λ event. record { device = name; event = event })

-- What a device shows of one before it.
abbrev pub Follows : {V Conn F : Type 0} → FrpDevice V Conn F → FrpDevice V Conn F → Type 0
Follows d e = (e.device ≡ d.device) × (e.shot_number ≡ d.shot_number)
