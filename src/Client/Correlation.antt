-- ===== src/Client/Correlation.antt =====
-- Shots of src/client.rs: a ball packet is held, club metrics are asked for, and the club packet that
-- comes ends the shot.
use allsquare.Base.{
  ◌+◌, ◌%◌, true, false, List, [], ◌∷◌, Option, some, none, ◌≡◌, refl, arith, ap, ◌∙◌,
}
use allsquare.Build.{Build}
use allsquare.Club.{Club}
use allsquare.Impact.{ImpactCalibration}
use allsquare.Error.{Io, done, failed, Error, Outcome, ok, err}
use allsquare.Protocol.Command.{encode}
use allsquare.Protocol.Types.{BallMetrics, ClubMetrics, Notification, request_club_metrics}
use allsquare.Client.Handle.{handle, handle_club, handle_state, finish_shot, reported_club}
use allsquare.Client.Methods.{send}
use allsquare.Client.State.{Host, Event, Client, from_io, continue, pure}

-- What handling a ball packet comes to, from the write of the request.
abbrev pub after_request : {F : Type 0} → Io (Unit {0}) → Outcome (Option (Event F))
after_request (done u) = ok none
after_request (failed e) = err (Error.transport e)

module _ {W F : Type 0} (b : Build F) (h : Host W) where
  -- A packet that is neither a ball's nor a club's.
  abbrev pub IsOther : Notification F → Type 0
  IsOther (Notification.ball ball) = ⊥
  IsOther (Notification.club club) = ⊥
  IsOther _ = Unit {0}

  abbrev pub AllOther : List (Notification F) → Type 0
  AllOther [] = Unit {0}
  AllOther (note ∷ notes) = IsOther note × AllOther notes

  -- The client after packets, one after the other.
  abbrev pub handle_all : List (Notification F) → Client W F → Client W F
  handle_all [] c = c
  handle_all (note ∷ notes) c = handle_all notes (handle b h note c).0

  -- What a client has of a shot under way, and of the transport, as another has it.
  record Holds (c d : Client W F) : Type 0 where
    written : d.transport ≡ c.transport
    pending : d.pending_shot ≡ c.pending_shot
    awaiting : d.awaiting_club ≡ c.awaiting_club
    playing : d.active_club ≡ c.active_club
    calibrated : d.impact_calibration ≡ c.impact_calibration

  other-Holds :
      (note : Notification F) (c : Client W F) → IsOther note → Holds c (handle b h note c).0
  unfolding handle handle_state
  other-Holds (Notification.ball ball) c v = absurd v
  other-Holds (Notification.club club) c v = absurd v
  other-Holds (Notification.heartbeat_ack s) c v = ground arith
  other-Holds _ c v = ground arith

  handle_all-Holds :
      (notes : List (Notification F)) (c : Client W F)
      → AllOther notes
      → Holds c (handle_all notes c)
  handle_all-Holds [] c v = ground arith
  handle_all-Holds (note ∷ notes) c (v, vs) =
      let k = other-Holds note c v in
      let m = handle_all-Holds notes (handle b h note c).0 vs in
      record {
        written = m.written ∙ k.written;
        pending = m.pending ∙ k.pending;
        awaiting = m.awaiting ∙ k.awaiting;
        playing = m.playing ∙ k.playing;
        calibrated = m.calibrated ∙ k.calibrated;
      }

  continue-Requested :
      (d : Client W F) (r : Io (Unit {0}))
      → let s = continue (d, from_io r) (λ u. pure {A = Option (Event F)} none) in
        (s.0 ≡ d) × (s.1 ≡ after_request r)
  continue-Requested d (done u) = (refl, refl)
  continue-Requested d (failed e) = (refl, refl)

  ball-Asks :
      (ball : BallMetrics F) (c : Client W F)
      → let d = (handle b h (Notification.ball ball) c).0 in
        let w = h.write c.transport (encode request_club_metrics ((c.seq + 1) % 256)) in
        (d.transport ≡ w.0)
        × ((handle b h (Notification.ball ball) c).1 ≡ after_request w.1)
        × (d.pending_shot ≡ some ball)
        × (d.awaiting_club ≡ true)
        × (d.active_club ≡ c.active_club)
        × (d.impact_calibration ≡ c.impact_calibration)
  unfolding handle send
  ball-Asks ball c =
      let (e, k) =
        continue-Requested
          (record c {
            pending_shot = some ball;
            awaiting_club = true;
            seq = (c.seq + 1) % 256;
            transport = (h.write c.transport (encode request_club_metrics ((c.seq + 1) % 256))).0;
          })
          (h.write c.transport (encode request_club_metrics ((c.seq + 1) % 256))).1 in
      (
        ap (λ (d : Client W F). d.transport) e,
        k,
        ap (λ (d : Client W F). d.pending_shot) e,
        ap (λ (d : Client W F). d.awaiting_club) e,
        ap (λ (d : Client W F). d.active_club) e,
        ap (λ (d : Client W F). d.impact_calibration) e,
      )

  club-Ends :
      (ball : BallMetrics F) (club : ClubMetrics F) (c : Client W F)
      → c.pending_shot ≡ some ball
      → c.awaiting_club ≡ true
      → let r = handle b h (Notification.club club) c in
        (r.1
          ≡ ok (some (Event.shot ball (reported_club b club c.active_club c.impact_calibration))))
        × (r.0.transport ≡ c.transport)
        × (r.0.awaiting_club ≡ false)
  unfolding handle handle_club finish_shot
  club-Ends ball club c p a = rw (a, p) (refl, refl, refl)

  club-Ignored :
      (club : ClubMetrics F) (c : Client W F)
      → c.awaiting_club ≡ false
      → (handle b h (Notification.club club) c).1 ≡ ok none
  unfolding handle handle_club
  club-Ignored club c a = rw a refl

  -- A ball packet is answered by one request for club metrics, whose failure is the outcome, and no
  -- event. The next club packet, whatever packets but ball packets come in between and whatever
  -- became of the request, reports the shot: that ball, and the club as the calibration corrects it
  -- for the club in play. It writes nothing, nor do the packets in between, and another club packet
  -- right after it reports nothing.
  pub handle-shot :
      (ball : BallMetrics F) (notes : List (Notification F)) (club late : ClubMetrics F)
      (c : Client W F)
      → AllOther notes
      → let asked = handle b h (Notification.ball ball) c in
        let w = h.write c.transport (encode request_club_metrics ((c.seq + 1) % 256)) in
        let shot = handle b h (Notification.club club) (handle_all notes asked.0) in
        let corrected = reported_club b club c.active_club c.impact_calibration in
        (asked.1 ≡ after_request w.1)
        × (shot.1 ≡ ok (some (Event.shot ball corrected)))
        × (shot.0.transport ≡ w.0)
        × ((handle b h (Notification.club late) shot.0).1 ≡ ok none)
  handle-shot ball notes club late c others =
      let (w, r, p, a, k, i) = ball-Asks ball c in
      let d = (handle b h (Notification.ball ball) c).0 in
      let m = handle_all-Holds notes d others in
      let e = handle_all notes d in
      let shown : Option Club → ImpactCalibration F → Outcome (Option (Event F)) =
        λ played cal. ok (some (Event.shot ball (reported_club b club played cal))) in
      let (s, t, q) = club-Ends ball club e (m.pending ∙ p) (m.awaiting ∙ a) in
      (
        r,
        s
            ∙ ap (λ played. shown played e.impact_calibration) (m.playing ∙ k)
            ∙ ap (shown c.active_club) (m.calibrated ∙ i),
        t ∙ m.written ∙ w,
        club-Ignored late (handle b h (Notification.club club) e).0 q,
      )
