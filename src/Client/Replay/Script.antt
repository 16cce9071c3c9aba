-- ===== src/Client/Replay/Script.antt =====
-- A transport that delivers a list of frames, and the client that follows it.
use allsquare.Base.{◌+◌, ◌≤◌, ◌<◌, ◌%◌, List, [], ◌∷◌, Option, ◌≡◌, arith, Bytes, length, take}
use allsquare.Build.{Build}
use allsquare.Club.{Club}
use allsquare.Error.{done, ok}
use allsquare.Impact.{ImpactCalibration}
use allsquare.Protocol.Types.{BallMetrics, DeviceState, Command, heartbeat}
use allsquare.Protocol.Command.{encode}
use allsquare.Text.{is_some}
use allsquare.Client.Methods.{send}
use allsquare.Client.Poll.{beat, heartbeat_if_due}
use allsquare.Client.State.{Host, active, Client, now}

-- The transport holds the frames `script w` and hands them out in order; writes succeed, and
-- neither they nor the clock touch the frames.
pub record Delivers {W : Type 0} (h : Host W) (script : W → List Bytes) : Type 0 where
  pub writes : (w : W) (frame : Bytes) → (h.write w frame).1 ≡ done tt
  pub write_keeps : (w : W) (frame : Bytes) → script (h.write w frame).0 ≡ script w
  pub now_keeps : (w : W) → script (h.now w).0 ≡ script w
  pub reads :
      (w : W) (buf f : Bytes) (fs : List Bytes)
      → script w ≡ f ∷ fs
      → length f ≤ length buf
      → ((h.read w buf).2 ≡ done (length f))
        × (take (length f) (h.read w buf).1 ≡ f)
        × (length (h.read w buf).1 ≡ length buf)
        × (script (h.read w buf).0 ≡ fs)

-- A frame that a notification can be: not empty, and within the client's buffer.
abbrev pub Fits : Bytes → Type 0
Fits f = (0 < length f) × (length f ≤ 64)

abbrev pub AllFit : List Bytes → Type 0
AllFit [] = Unit {0}
AllFit (f ∷ fs) = Fits f × AllFit fs

-- The client is running, with these frames to come, and shows this of itself.
pub record Shows {W F : Type 0} (script : W → List Bytes) (c : Client W F) (frames : List Bytes)
    (last : Bytes) (s : Option DeviceState) (p : Option (BallMetrics F)) (club : Option Club)
    (cal : ImpactCalibration F) : Type 0 where
  pub running : c.phase ≡ active
  pub nothing_queued : c.queue ≡ []
  pub correlated : c.awaiting_club ≡ is_some p
  pub frames_left : script c.transport ≡ frames
  pub last_is : c.last_rx ≡ last
  pub state_is : c.state ≡ s
  pub pending_is : c.pending_shot ≡ p
  pub club_is : c.active_club ≡ club
  pub calibration_is : c.impact_calibration ≡ cal

module _ {W F : Type 0} (h : Host W) (script : W → List Bytes) (del : Delivers h script)
    (frames : List Bytes) (last : Bytes) (s : Option DeviceState) (p : Option (BallMetrics F))
    (club : Option Club) (cal : ImpactCalibration F) where
  abbrev Here : Client W F → Type 0
  Here c = Shows script c frames last s p club cal

  pub send-Shows :
      (cmd : Command) (c : Client W F) → Here c → ((send h cmd c).1 ≡ ok tt) × Here (send h cmd c).0
  unfolding send
  send-Shows cmd c v =
      let frame = encode cmd ((c.seq + 1) % 256) in
      ground (arith, del.writes c.transport frame, del.write_keeps c.transport frame)

  pub now-Shows : (c : Client W F) → Here c → Here (now h c).0
  unfolding now
  now-Shows c v = ground (arith, del.now_keeps c.transport)

  pub beat-Shows :
      (b : Build F) (c : Client W F) → Here c → ((beat b h c).1 ≡ ok tt) × Here (beat b h c).0
  unfolding beat now
  beat-Shows b c v =
      let (sent, u) = send-Shows heartbeat c v in
      let d = (send h heartbeat c).0 in ground (arith, sent, u, now-Shows d u)

  pub heartbeat_if_due-Shows :
      (b : Build F) (c : Client W F)
      → Here c
      → ((heartbeat_if_due b h c).1 ≡ ok tt) × Here (heartbeat_if_due b h c).0
  unfolding heartbeat_if_due now
  heartbeat_if_due-Shows b c v =
      let u = now-Shows c v in
      ground (arith, u, beat-Shows b (record c { transport = (h.now c.transport).0 }) u)
