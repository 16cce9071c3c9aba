-- ===== src/Frp/Delivery/Shots.antt =====
-- The envelopes of src/frp/mod.rs that one shot sends.
use allsquare.Base.{
  subst, Option-cases, inl, inr, ℕ, ◌+◌, ◌%◌, ◌^◌, Bool, true, false, List, [], ◌∷◌, ◌++◌, Option,
  some, none, ◌≡◌, refl, if◌then◌else◌,
}
use allsquare.Build.{Build}
use allsquare.Frp.Convert.{ball_flight, club_data, impact_location}
use allsquare.Client.State.{Event}
use allsquare.Protocol.Types.{BallMetrics, ClubMetrics}
use allsquare.Frp.Types.{FaceImpact, FrpEvent, FrpEnvelope, FrpResult, ok, ShotKey}
use allsquare.Frp.Uuid.{uuid_v4}
use allsquare.Frp.Device.{Relay, FrpDevice, D, proceed, ◌>>=◌, send_envelope}
use allsquare.Frp.Events.{
  send_telemetry, send_events, next_key, handle_shot, handle_event, shot_events, noted,
  telemetry_envelope, repeats,
}
use allsquare.Frp.Delivery.{Records, Sends, envelopes, Follows}
use allsquare.Frp.Delivery.Single.{
  send_envelope-Sent, proceed-Sends, send_events-gone, send_events-Sends,
}

-- The key of the shot after `n` others.
abbrev pub shot_key : ℕ → ℕ → ShotKey
shot_key nanos n = record { shot_id = uuid_v4 nanos; shot_number = (n + 1) % 2 ^ 32 }

-- The story of a shot: the trigger, the flight of the ball, what was measured of the club and of the
-- impact, and the end.
module _ {F : Type 0} (b : Build F) where
  abbrev pub impact_story : ShotKey → Option (FaceImpact F) → List (FrpEvent F)
  impact_story key none = FrpEvent.shot_finished key ∷ []
  impact_story key (some impact) = FrpEvent.face_impact key impact ∷ FrpEvent.shot_finished key ∷ []

  abbrev pub club_story : ShotKey → Option (ClubMetrics F) → List (FrpEvent F)
  club_story key none = FrpEvent.shot_finished key ∷ []
  club_story key (some club) =
      FrpEvent.club_path key (club_data b club) ∷ impact_story key (impact_location b club)

  abbrev pub shot_story : ShotKey → BallMetrics F → Option (ClubMetrics F) → List (FrpEvent F)
  shot_story key ball club =
      FrpEvent.shot_trigger key
      ∷ FrpEvent.ball_flight key (ball_flight b ball)
      ∷ club_story key club

  shot_events-eq :
      (key : ShotKey) (ball : BallMetrics F) (club : Option (ClubMetrics F))
      → shot_events b key ball club ≡ shot_story key ball club
  unfolding shot_events
  shot_events-eq key ball none = refl
  shot_events-eq key ball (some club) = elim (Option-cases (impact_location b club)) [
    | inl e ↦ rw e refl
    | inr (i, e) ↦ rw e refl
  ]

module _ {V Conn F : Type 0} where
  -- The telemetry that goes before a shot: that the ball is gone, unless that was the last to say.
  abbrev pub shot_telemetry : FrpDevice V Conn F → List (FrpEnvelope F)
  shot_telemetry d =
      if repeats (some false) d.last_ready
      then []
      else telemetry_envelope (noted (some false) d) none ∷ []

  abbrev pub ShotSends :
      (V → List (FrpEnvelope F))
      → Build F
      → BallMetrics F
      → Option (ClubMetrics F)
      → FrpDevice V Conn F
      → ℕ
      → FrpDevice V Conn F × FrpResult (Unit {0})
      → Type 0
  ShotSends log b ball club d t s =
      Sends log (log d.world)
        (shot_telemetry d ++ envelopes d.device (shot_story b (shot_key t d.shot_number) ball club))
        s

module _ {V Conn F : Type 0} (r : Relay V Conn F) (log : V → List (FrpEnvelope F))
    (rec : Records r log) where
  -- The identifiers and the events of a shot, after the telemetry.
  abbrev shot_rest : Build F → BallMetrics F → Option (ClubMetrics F) → D V Conn F (Unit {0})
  shot_rest b ball club = do key ← next_key r; send_events r (shot_events b key ball club)

  shot_rest-Sends :
      (b : Build F) (ball : BallMetrics F) (club : Option (ClubMetrics F))
      (d e : FrpDevice V Conn F)
      → Follows d e
      → Sends log
          (log e.world)
          (envelopes d.device
            (shot_events b (shot_key (r.nanos e.world).1 d.shot_number) ball club))
          (shot_rest b ball club e)
  unfolding next_key
  shot_rest-Sends b ball club d e v =
      rw (← rec.timed e.world, ← v.1) (send_events-Sends r log rec d.device _ _ v.0)

  shot_rest-gone :
      (b : Build F) (ball : BallMetrics F) (club : Option (ClubMetrics F)) (d : FrpDevice V Conn F)
      → d.conn ≡ none
      → ((shot_rest b ball club d).0.conn ≡ none)
        × (log (shot_rest b ball club d).0.world ≡ log d.world)
  unfolding next_key
  shot_rest-gone b ball club d n =
      let (w, t) = r.nanos d.world in
      let e : FrpDevice V Conn F = record d {
        world = w;
        shot_number = (d.shot_number + 1) % 2 ^ 32;
      } in
      rw (send_events-gone r log rec (shot_events b (shot_key t d.shot_number) ball club) e n)
        (n, rec.timed d.world)

  -- The device after the telemetry of a shot, which is sent if it does not repeat.
  told : Bool → FrpDevice V Conn F → FrpDevice V Conn F × FrpResult (Unit {0})
  told repeated d =
      let env = telemetry_envelope (noted (some false) d) none in
      if repeated
      then (d, ok tt)
      else send_envelope r env (record (noted (some false) d) { telemetry = some env })

  -- The reading of the clock after that.
  abbrev told_at : Bool → FrpDevice V Conn F → ℕ
  told_at repeated d = (r.nanos (told repeated d).0.world).1

  told-Sends :
      (repeated : Bool) (b : Build F) (ball : BallMetrics F) (club : Option (ClubMetrics F))
      (d : FrpDevice V Conn F)
      → Sends log
          (log d.world)
          ((if repeated then [] else telemetry_envelope (noted (some false) d) none ∷ [])
            ++ envelopes d.device
                (shot_events b (shot_key (told_at repeated d) d.shot_number) ball club))
          (proceed (told repeated d) (λ _. shot_rest b ball club))
  unfolding told
  told-Sends true b ball club d = shot_rest-Sends b ball club d d (refl, refl)
  told-Sends false b ball club d =
      let env = telemetry_envelope (noted (some false) d) none in
      let d1 : FrpDevice V Conn F = record (noted (some false) d) { telemetry = some env } in
      let s = send_envelope r env d1 in
      let t = (r.nanos s.0.world).1 in
      proceed-Sends r log rec d1 env
        (envelopes d.device (shot_events b (shot_key t d.shot_number) ball club)) s
        (shot_rest b ball club) (send_envelope-Sent r log rec env d1)
        (shot_rest-Sends b ball club d1 s.0) (shot_rest-gone b ball club s.0)

  -- The controller receives of a shot, in this order and of the one key, the telemetry unless it
  -- repeats, the trigger, the ball flight, the club path and the impact that were measured, and the
  -- end of the shot, up to the point where its connection or a send fails, and all of them if the
  -- call succeeds and leaves a connection. The key has the next number, and the identifier of the
  -- clock as it is read after the telemetry.
  pub handle_event-Sends :
      (b : Build F) (ball : BallMetrics F) (club : Option (ClubMetrics F)) (d : FrpDevice V Conn F)
      → let t = (r.nanos (send_telemetry r (some false) none d).0.world).1 in
        ShotSends log b ball club d t (handle_event r b (Event.shot ball club) d)
  unfolding handle_event handle_shot send_telemetry told
  handle_event-Sends b ball club d =
      let t = (r.nanos (send_telemetry r (some false) none d).0.world).1 in
      let sent = handle_event r b (Event.shot ball club) d in
      subst (λ x. Sends log (log d.world) (shot_telemetry d ++ envelopes d.device x) sent)
        (shot_events-eq b (shot_key t d.shot_number) ball club)
        (told-Sends (repeats (some false) d.last_ready) b ball club d)
