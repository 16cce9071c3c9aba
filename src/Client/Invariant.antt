-- ===== src/Client/Invariant.antt =====
-- An invariant of every client of src/client.rs, whatever its transport does.
use allsquare.Base.{ℕ, ◌-◌, ◌^◌, ◌<◌, [], ◌≡◌, arith, take, drop, replicate, Bytes}
use allsquare.Build.{Build}
use allsquare.Club.{Club, Handed}
use allsquare.Error.{Io, done, failed, Error, Outcome, ok, err, panic, slice}
use allsquare.Impact.{ImpactCalibration}
use allsquare.Protocol.Parse.{parse}
use allsquare.Protocol.Types.{
  Command, Notification, SpinMode, SpeedUnit, DistanceUnit, DeviceState, ClubMetrics,
}
use allsquare.Text.{is_some}
use allsquare.Client.Handle.{handle, handle_club, handle_state}
use allsquare.Client.Methods.{
  set_impact_calibration, set_handed, send, arm, disarm, choose_club, show_units, green_speed,
  carry_adjustment,
}
use allsquare.Client.Poll.{
  read_identity, poll_connecting, beat, heartbeat_if_due, on_empty, respond, receive, on_read,
  poll_read, poll_active, poll_phase, poll_queue, poll,
}
use allsquare.Client.State.{
  Host, Phase, connecting, active, Client, M, continue, ◌>>=◌, now, read_characteristic, new_client,
}

-- The sequence number is a byte and the heartbeat count a `u32`; a club packet is awaited exactly
-- while ball metrics are held; and nothing is ever queued.
pub record IsSound {W F : Type 0} (c : Client W F) : Type 0 where
  pub seq_byte : c.seq < 256
  pub unanswered_u32 : c.unanswered < 2 ^ 32
  pub correlated : c.awaiting_club ≡ is_some c.pending_shot
  pub nothing_queued : c.queue ≡ []

-- A method keeps the invariant, however it ends.
abbrev pub Keeps : {W F A : Type 0} → M W F A → Type 0
Keeps {W} {F} m = (c : Client W F) → IsSound c → IsSound (m c).0

module _ {W F A B : Type 0} where
  continue-IsSound :
      (r : Client W F × Outcome A) (f : A → M W F B)
      → IsSound r.0
      → ((a : A) → Keeps (f a))
      → IsSound (continue r f).0
  continue-IsSound (c, ok a) f v k = k a c v
  continue-IsSound (c, err e) f v k = v
  continue-IsSound (c, panic) f v k = v

  pub bind-Keeps :
      (m : M W F A) (f : A → M W F B) → Keeps m → ((a : A) → Keeps (f a)) → Keeps (m >>= f)
  bind-Keeps m f h k c v = continue-IsSound (m c) f (h c v) k

module _ {W F : Type 0} (h : Host W) where
  now-Keeps : Keeps {F = F} (now h)
  unfolding now
  now-Keeps c v = ground arith

  read_characteristic-Keeps : (uuid : ℕ) → Keeps {F = F} (read_characteristic h uuid)
  unfolding read_characteristic
  read_characteristic-Keeps uuid c v = ground arith

  send-Keeps : (cmd : Command) → Keeps {F = F} (send h cmd)
  unfolding send
  send-Keeps cmd c v = ground arith

  pub choose_club-Keeps : (club : Club) → Keeps {F = F} (choose_club h club)
  unfolding choose_club send
  choose_club-Keeps club c v = ground arith

  pub arm-Keeps : (club : Club) (spin : SpinMode) → Keeps {F = F} (arm h club spin)
  unfolding arm send
  arm-Keeps club spin c v = ground arith

module _ {W F : Type 0} (b : Build F) (h : Host W) where
  handle_club-Keeps : (club : ClubMetrics F) → Keeps (handle_club b h club)
  unfolding handle_club
  handle_club-Keeps club c v = ground arith

  handle_state-Keeps : (s : DeviceState) → Keeps (handle_state b h s)
  unfolding handle_state
  handle_state-Keeps s c v = ground arith

  handle-Keeps : (note : Notification F) → Keeps (handle b h note)
  unfolding handle send
  handle-Keeps (Notification.ball ball) = λ c v. ground arith
  handle-Keeps (Notification.club club) = handle_club-Keeps club
  handle-Keeps (Notification.heartbeat_ack s) = handle_state-Keeps s
  handle-Keeps _ = λ c v. v

  beat-Keeps : Keeps (beat b h)
  unfolding beat send now
  beat-Keeps c v = ground arith

  heartbeat_if_due-Keeps : Keeps (heartbeat_if_due b h)
  unfolding heartbeat_if_due now
  heartbeat_if_due-Keeps c v =
      ground (arith, beat-Keeps (record c { transport = (h.now c.transport).0 }))

  on_empty-Keeps : Keeps (on_empty b h)
  unfolding on_empty now
  on_empty-Keeps c v = ground arith

  respond-Keeps : (r : Outcome (Notification F)) → Keeps (respond b h r)
  unfolding respond
  respond-Keeps (ok note) = handle-Keeps note
  respond-Keeps (err Error.disconnected) = λ c v. v
  respond-Keeps _ = λ c v. v

  receive-Keeps : (bytes : Bytes) → Keeps (receive b h bytes)
  unfolding receive now
  receive-Keeps bytes c v = ground (
    arith,
    respond-Keeps (parse b bytes) (record c {
      transport = (h.now c.transport).0;
      last_data = (h.now c.transport).1;
      unanswered = 0;
      last_rx = bytes;
    }),
  )

  on_read-Keeps : (buf : Bytes) (r : Io ℕ) → Keeps (on_read b h buf r)
  unfolding on_read slice
  on_read-Keeps buf (done n) c v = ground (arith, receive-Keeps (take (n - 0) (drop 0 buf)) c)
  on_read-Keeps buf (failed e) c v = ground (arith, on_empty-Keeps c)

  poll_read-Keeps : Keeps (poll_read b h)
  unfolding poll_read
  poll_read-Keeps c v =
      let (w, buf, r) = h.read c.transport (replicate 64 0) in
      on_read-Keeps buf r (record c { transport = w }) (ground arith)

  poll_active-Keeps : Keeps (poll_active b h)
  unfolding poll_active
  poll_active-Keeps c v =
      continue-IsSound (heartbeat_if_due b h c) (λ _. poll_read b h) (heartbeat_if_due-Keeps c v)
        (λ _. poll_read-Keeps)

  read_identity-Keeps : Keeps (read_identity b h)
  unfolding read_identity send now read_characteristic
  read_identity-Keeps c v = ground arith

  poll_connecting-Keeps : Keeps (poll_connecting b h)
  unfolding poll_connecting
  poll_connecting-Keeps c v =
      continue-IsSound (read_identity b h c) _ (read_identity-Keeps c v) (λ _ d u. ground arith)

  poll_phase-Keeps : (p : Phase) → Keeps (poll_phase b h p)
  unfolding poll_phase
  poll_phase-Keeps connecting = poll_connecting-Keeps
  poll_phase-Keeps active = poll_active-Keeps

  -- With nothing queued, `poll` is the poll of the phase.
  pub poll-Keeps : Keeps (poll b h)
  unfolding poll poll_queue
  poll-Keeps c v = ground (arith, poll_phase-Keeps c.phase c)

-- What a caller may do with a client.
pub data Call (F : Type 0) : Type 0 where
  polls : Call F
  arms : Club → SpinMode → Call F
  disarms : Call F
  selects : Club → Call F
  sets_units : SpeedUnit → DistanceUnit → Call F
  sets_green_speed : ℕ → Call F
  sets_carry : ℕ → Call F
  sets_handed : Handed → Call F
  sets_calibration : ImpactCalibration F → Call F

module _ {W F : Type 0} (b : Build F) (h : Host W) where
  -- The client after a call, whether or not the call failed.
  pub after_call : Call F → Client W F → Client W F
  after_call polls c = (poll b h c).0
  after_call (arms club spin) c = (arm h club spin c).0
  after_call disarms c = (disarm h c).0
  after_call (selects club) c = (choose_club h club c).0
  after_call (sets_units speed distance) c = (show_units h speed distance c).0
  after_call (sets_green_speed i) c = (green_speed h i c).0
  after_call (sets_carry p) c = (carry_adjustment h p c).0
  after_call (sets_handed hand) c = set_handed c hand
  after_call (sets_calibration cal) c = set_impact_calibration c cal

  -- The clients that calls lead to from a new one.
  pub data Reachable : Client W F → Type 0 where
    made : (w : W) → Reachable (new_client h b w)
    called : {c : Client W F} (k : Call F) → Reachable c → Reachable (after_call k c)

  call-IsSound : (k : Call F) (c : Client W F) → IsSound c → IsSound (after_call k c)
  unfolding after_call disarm show_units green_speed carry_adjustment set_handed
      set_impact_calibration
  call-IsSound polls c v = poll-Keeps b h c v
  call-IsSound (arms club spin) c v = arm-Keeps h club spin c v
  call-IsSound (selects club) c v = choose_club-Keeps h club c v
  call-IsSound disarms c v = send-Keeps h _ c v
  call-IsSound (sets_units speed distance) c v = send-Keeps h _ c v
  call-IsSound (sets_green_speed i) c v = send-Keeps h _ c v
  call-IsSound (sets_carry p) c v = send-Keeps h _ c v
  call-IsSound (sets_handed hand) c v = ground arith
  call-IsSound (sets_calibration cal) c v = ground arith

  -- Every client that is reached from a new one by any calls, with any transport, is sound: the
  -- sequence number stays a byte, the heartbeat count a `u32`, a club packet is awaited exactly
  -- while ball metrics are held, and the event queue is empty.
  pub Reachable-IsSound : {c : Client W F} → Reachable c → IsSound c
  unfolding new_client
  Reachable-IsSound (made w) = ground arith
  Reachable-IsSound (called {c} k r) = call-IsSound k c (Reachable-IsSound r)
