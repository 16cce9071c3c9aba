-- ===== src/Client/Replay/Steps.antt =====
-- A poll of src/client.rs over a transport that delivers frames takes one frame, and reports what
-- the description says of it.
use allsquare.Base.{
  ◌-◌, ◌≤◌, ◌<◌, true, false, List, [], ◌∷◌, Option, some, none, ◌≡◌, refl, ap, ◌∙◌, arith, Bytes,
  bytes_eq, bytes_eq_iff, length, take, drop, replicate, ◌==◌, if◌then◌else◌, Bool-cases, inl, inr,
  Option-cases,
}
use allsquare.Build.{Build}
use allsquare.Club.{Club}
use allsquare.Error.{done, Error, Outcome, ok, err, panic, IsAnswer, slice, slice-eq-ok}
use allsquare.Impact.{ImpactCalibration}
use allsquare.Protocol.Parse.{parse}
use allsquare.Protocol.Safety.{parse-IsAnswer}
use allsquare.Protocol.Types.{BallMetrics, DeviceState, Notification, request_club_metrics}
use allsquare.Client.Handle.{same_state, is_state, handle, handle_club, handle_state, finish_shot}
use allsquare.Client.Poll.{
  heartbeat_if_due, respond, receive, on_read, poll_read, poll_active, poll_phase, poll_queue, poll,
}
use allsquare.Client.State.{Host, Event, Client, now}
use allsquare.Client.Replay.Script.{
  Delivers, Fits, AllFit, Shows, send-Shows, now-Shows, heartbeat_if_due-Shows,
}
use allsquare.Client.Replay.{
  dedup, maybe, note_of, notes, next_state, next_pending, event_of, events, collect, drain,
}

pub same_state-eq : (a b : DeviceState) → same_state a b ≡ true → a ≡ b
unfolding same_state
same_state-eq DeviceState.none b e = ground arith
same_state-eq _ b e = ground arith

is_state-eq : (s : Option DeviceState) (t : DeviceState) → is_state s t ≡ true → s ≡ some t
unfolding is_state
is_state-eq none t e = cc
is_state-eq (some old) t e = cc (same_state-eq old t e)

module _ {W F : Type 0} (b : Build F) (h : Host W) (script : W → List Bytes)
    (del : Delivers h script) (club : Option Club) (cal : ImpactCalibration F) where
  -- `handle` reports what the description says of the notification.
  handle-Shows :
      (n : Notification F) (c : Client W F) (fs : List Bytes) (last : Bytes)
      (s : Option DeviceState) (p : Option (BallMetrics F))
      → Shows script c fs last s p club cal
      → ((handle b h n c).1 ≡ ok (event_of b club cal s p n))
        × Shows script (handle b h n c).0 fs last (next_state s n) (next_pending p n) club cal
  unfolding handle handle_club handle_state finish_shot
  handle-Shows (Notification.ball m) c fs last s p v =
      let d = record c { pending_shot = some m; awaiting_club = true } in
      ground (
        arith,
        send-Shows h script del fs last s (some m) club cal request_club_metrics d (ground arith),
      )
  handle-Shows (Notification.club k) c fs last s none v = ground arith
  handle-Shows (Notification.club k) c fs last s (some m) v = ground arith
  handle-Shows (Notification.heartbeat_ack t) c fs last s p v = ground (arith, is_state-eq s t)
  handle-Shows _ c fs last s p v = ground arith

  -- What a frame's parse says, if it says anything.
  abbrev reported :
      Option DeviceState → Option (BallMetrics F) → Option (Notification F) → Option (Event F)
  reported s p none = none
  reported s p (some n) = event_of b club cal s p n

  abbrev state_after : Option DeviceState → Option (Notification F) → Option DeviceState
  state_after s none = s
  state_after s (some n) = next_state s n

  abbrev pending_after : Option (BallMetrics F) → Option (Notification F) → Option (BallMetrics F)
  pending_after p none = p
  pending_after p (some n) = next_pending p n

  -- The call reported this, and left the client so.
  abbrev Answers :
      Client W F × Outcome (Option (Event F))
      → List Bytes
      → Bytes
      → Option DeviceState
      → Option (BallMetrics F)
      → Option (Notification F)
      → Type 0
  Answers r fs last s p o =
      (r.1 ≡ ok (reported s p o))
      × Shows script r.0 fs last (state_after s o) (pending_after p o) club cal

  respond-Shows :
      (r : Outcome (Notification F)) (c : Client W F) (fs : List Bytes) (last : Bytes)
      (s : Option DeviceState) (p : Option (BallMetrics F))
      → IsAnswer r
      → Shows script c fs last s p club cal
      → Answers (respond b h r c) fs last s p (note_of r)
  unfolding respond
  respond-Shows (ok n) c fs last s p a v = handle-Shows n c fs last s p v
  respond-Shows (err Error.disconnected) c fs last s p a v = absurd a
  respond-Shows (err _) c fs last s p a v = (refl, v)
  respond-Shows panic c fs last s p a v = absurd a

  -- What a frame says after the frame `last`: nothing, if it repeats that.
  abbrev said : Bytes → Bytes → Option (Notification F)
  said f last = if bytes_eq f last then none else note_of (parse b f)

  receive-Shows :
      (f : Bytes) (c : Client W F) (fs : List Bytes) (last : Bytes) (s : Option DeviceState)
      (p : Option (BallMetrics F))
      → 0 < length f
      → Shows script c fs last s p club cal
      → Answers (receive b h f c) fs f s p (said f last)
  unfolding receive now
  receive-Shows f c fs last s p pos v =
      let u = now-Shows h script del fs last s p club cal c v in
      let timed = record c {
        transport = (h.now c.transport).0;
        last_data = (h.now c.transport).1;
        unanswered = 0;
      } in
      let parsed =
        respond-Shows (parse b f) (record timed { last_rx = f }) fs f s p (parse-IsAnswer b f pos)
          (ground arith) in
      elim (Bool-cases (bytes_eq f last)) [
        | inl same ↦ ground (arith, u, same, bytes_eq_iff f last)
        | inr fresh ↦ ground (arith, u, fresh, parsed)
      ]

  on_read-Shows :
      (buf f : Bytes) (c : Client W F) (fs : List Bytes) (last : Bytes) (s : Option DeviceState)
      (p : Option (BallMetrics F))
      → Fits f
      → length f ≤ length buf
      → take (length f) buf ≡ f
      → Shows script c fs last s p club cal
      → Answers (on_read b h buf (done (length f)) c) fs f s p (said f last)
  unfolding on_read
  on_read-Shows buf f c fs last s p fits within same v =
      let whole : length f - 0 ≡ length f = omega arith in
      let cut : slice buf 0 (length f) ≡ ok f =
        slice-eq-ok buf 0 (length f) (omega arith) within ∙ ap ok (rw (whole, drop) same) in
      let some_read : (length f == 0) ≡ false = ground arith in
      rw (some_read, cut, on_read) (receive-Shows f c fs last s p fits.0 v)

  poll_read-Shows :
      (f : Bytes) (c : Client W F) (fs : List Bytes) (last : Bytes) (s : Option DeviceState)
      (p : Option (BallMetrics F))
      → Fits f
      → Shows script c (f ∷ fs) last s p club cal
      → Answers (poll_read b h c) fs f s p (said f last)
  unfolding poll_read
  poll_read-Shows f c fs last s p fits v =
      let (counted, filled, sized, left) =
        del.reads c.transport (replicate 64 0) f fs v.frames_left fits.1 in
      let r = h.read c.transport (replicate 64 0) in
      rw counted (
        on_read-Shows r.1 f (record c { transport = r.0 }) fs last s p fits (rw sized fits.1) filled
          (ground arith))

  -- With a frame to come, a running client's poll takes it and says what it says.
  poll-Shows :
      (f : Bytes) (c : Client W F) (fs : List Bytes) (last : Bytes) (s : Option DeviceState)
      (p : Option (BallMetrics F))
      → Fits f
      → Shows script c (f ∷ fs) last s p club cal
      → Answers (poll b h c) fs f s p (said f last)
  unfolding poll poll_queue poll_phase poll_active
  poll-Shows f c fs last s p fits v =
      let (beaten, u) = heartbeat_if_due-Shows h script del (f ∷ fs) last s p club cal b c v in
      let read = poll_read-Shows f (heartbeat_if_due b h c).0 fs last s p fits u in
      ground (arith, beaten, read)

  collect-ok :
      (r : Client W F × Outcome (Option (Event F))) (o : Option (Event F))
      (k : Client W F → List (Event F))
      → r.1 ≡ ok o
      → collect b h r k ≡ maybe o (k r.0)
  collect-ok r none k e = rw (e, collect)
  collect-ok r (some x) k e = rw (e, collect)

  -- What a frame says comes before what the frames behind it say.
  events-said :
      (f last : Bytes) (fs : List Bytes) (s : Option DeviceState) (p : Option (BallMetrics F))
      (rest : List (Event F))
      → rest
        ≡ events b club cal
            (state_after s (said f last))
            (pending_after p (said f last))
            (notes b (dedup f fs))
      → maybe (reported s p (said f last)) rest
        ≡ events b club cal s p (notes b (dedup last (f ∷ fs)))
  unfolding events notes dedup
  events-said f last fs s p rest e = elim (Bool-cases (bytes_eq f last)) [
    | inl same ↦ ground (arith, same, bytes_eq_iff f last)
    | inr fresh ↦ elim (Option-cases (note_of (parse b f))) [
      | inl mute ↦ ground (arith, fresh, mute)
      | inr (n, says) ↦ ground (arith, fresh, says)
    ]
  ]

  -- A running client over a transport that delivers frames reports, one poll to a frame, what the
  -- description says of them: repeated frames dropped, frames that do not parse dropped, each
  -- state change once, and each shot the pair of a ball and the club packet that follows it.
  pub drain-events :
      (frames : List Bytes) (c : Client W F) (last : Bytes) (s : Option DeviceState)
      (p : Option (BallMetrics F))
      → AllFit frames
      → Shows script c frames last s p club cal
      → drain b h (length frames) c ≡ events b club cal s p (notes b (dedup last frames))
  unfolding drain
  drain-events [] c last s p fit v = unfold events notes dedup in refl
  drain-events (f ∷ fs) c last s p fit v =
      let (e, u) = poll-Shows f c fs last s p fit.0 v in
      collect-ok (poll b h c) _ (drain b h (length fs)) e
      ∙ events-said f last fs s p _ (drain-events fs (poll b h c).0 f _ _ fit.1 u)
