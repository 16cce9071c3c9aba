-- ===== src/Client/Link.antt =====
-- When a client of src/client.rs reports a new link: once, with the poll that makes it active.
use allsquare.Base.{ℕ, ◌-◌, [], Option, none, some, ◌≡◌, refl, arith, take, drop, replicate, Bytes}
use allsquare.Build.{Build}
use allsquare.Error.{Io, done, failed, Error, Outcome, ok, err, panic, slice}
use allsquare.Protocol.Parse.{parse}
use allsquare.Protocol.Types.{Notification, DeviceState, ClubMetrics}
use allsquare.Client.Handle.{handle, handle_club, handle_state, finish_shot}
use allsquare.Client.Methods.{send}
use allsquare.Client.Poll.{
  read_identity, poll_connecting, beat, heartbeat_if_due, on_empty, respond, receive, on_read,
  poll_read, poll_active, poll_phase, poll_queue, poll,
}
use allsquare.Client.Poll.{poll, poll_phase, poll_queue}
use allsquare.Client.State.{Host, Event, active, Client, M, continue, now, read_characteristic}

-- Nothing, or an event other than that of a new link.
abbrev pub IsLater : {F : Type 0} → Outcome (Option (Event F)) → Type 0
IsLater (ok (some (Event.connected firmware hardware id model))) = ⊥
IsLater _ = Unit {0}

-- The call leaves an active client active and reports no new link.
abbrev pub Stays : {W F : Type 0} → M W F (Option (Event F)) → Type 0
Stays {W} {F} m = (c : Client W F) → c.phase ≡ active → ((m c).0.phase ≡ active) × IsLater (m c).1

module _ {W F : Type 0} (b : Build F) (h : Host W) where
  handle_club-Stays : (club : ClubMetrics F) → Stays (handle_club b h club)
  unfolding handle_club finish_shot
  handle_club-Stays club c v = ground arith

  handle_state-Stays : (s : DeviceState) → Stays (handle_state b h s)
  unfolding handle_state
  handle_state-Stays s c v = ground arith

  handle-Stays : (note : Notification F) → Stays (handle b h note)
  unfolding handle send
  handle-Stays (Notification.ball ball) = λ c v. ground arith
  handle-Stays (Notification.club club) = handle_club-Stays club
  handle-Stays (Notification.heartbeat_ack s) = handle_state-Stays s
  handle-Stays _ = λ c v. (v, tt)

  on_empty-Stays : Stays (on_empty b h)
  unfolding on_empty now
  on_empty-Stays c v = ground arith

  respond-Stays : (r : Outcome (Notification F)) → Stays (respond b h r)
  unfolding respond
  respond-Stays (ok note) = handle-Stays note
  respond-Stays (err Error.disconnected) = λ c v. (v, tt)
  respond-Stays _ = λ c v. (v, tt)

  receive-Stays : (bytes : Bytes) → Stays (receive b h bytes)
  unfolding receive now
  receive-Stays bytes c v = ground (
    arith,
    respond-Stays (parse b bytes) (record c {
      transport = (h.now c.transport).0;
      last_data = (h.now c.transport).1;
      unanswered = 0;
      last_rx = bytes;
    }),
  )

  on_read-Stays : (buf : Bytes) (r : Io ℕ) → Stays (on_read b h buf r)
  unfolding on_read slice
  on_read-Stays buf (done n) c v = ground (arith, receive-Stays (take (n - 0) (drop 0 buf)) c)
  on_read-Stays buf (failed e) c v = ground (arith, on_empty-Stays c)

  poll_read-Stays : Stays (poll_read b h)
  unfolding poll_read
  poll_read-Stays c v =
      let (w, buf, r) = h.read c.transport (replicate 64 0) in
      on_read-Stays buf r (record c { transport = w }) v

  heartbeat_if_due-phase : (c : Client W F) → (heartbeat_if_due b h c).0.phase ≡ c.phase
  unfolding heartbeat_if_due beat send now
  heartbeat_if_due-phase c = ground arith

  continue-Stays :
      (r : Client W F × Outcome (Unit {0})) (m : M W F (Option (Event F)))
      → r.0.phase ≡ active
      → Stays m
      → ((continue r (λ _. m)).0.phase ≡ active) × IsLater (continue r (λ _. m)).1
  continue-Stays (c, ok u) m v k = k c v
  continue-Stays (c, err e) m v k = (v, tt)
  continue-Stays (c, panic) m v k = (v, tt)

  -- The poll of an active client.
  pub poll_active-Stays : Stays (poll_active b h)
  unfolding poll_active
  poll_active-Stays c v =
      continue-Stays (heartbeat_if_due b h c) (poll_read b h) (rw (heartbeat_if_due-phase c) v)
        poll_read-Stays

  -- What a poll comes to that makes the link: its event, and an active client; or an error.
  abbrev pub Links : Client W F × Outcome (Option (Event F)) → Type 0
  Links (c, ok none) = ⊥
  Links (c, ok (some (Event.connected firmware hardware id model))) = c.phase ≡ active
  Links (c, ok (some e)) = ⊥
  Links (c, err e) = Unit {0}
  Links (c, panic) = Unit {0}

  pub poll_connecting-Links : (c : Client W F) → Links (poll_connecting b h c)
  unfolding poll_connecting read_identity send now read_characteristic
  poll_connecting-Links c = ground arith

  -- With nothing queued, a poll is that of the phase.
  pub poll-eq-phase : (c : Client W F) → c.queue ≡ [] → poll b h c ≡ poll_phase b h c.phase c
  unfolding poll poll_queue
  poll-eq-phase c e = rw e refl
