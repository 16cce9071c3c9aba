-- ===== src/Client/Watchdog/Patience.antt =====
-- The watchdog of src/client.rs gives a link its time.
use allsquare.Base.{ℕ, ◌-◌, ◌≤◌, [], ◌≡◌, arith, replicate}
use allsquare.Build.{Build}
use allsquare.Error.{Error, err}
use allsquare.Client.Poll.{heartbeat_if_due, on_empty, on_read, poll_read, poll_active, poll}
use allsquare.Client.State.{Host, active, Client, now}
use allsquare.Client.Watchdog.{IsSilent, heartbeat_if_due-silent, poll-eq-active}

module _ {W F : Type 0} (b : Build F) (h : Host W) (clock : W → ℕ) (silent : IsSilent h clock) where
  on_empty-patient :
      (c : Client W F)
      → (on_empty b h c).1 ≡ err Error.disconnected
      → (2 ≤ (on_empty b h c).0.unanswered)
        × (c.link_timeout ≤ clock (on_empty b h c).0.transport - c.last_data)
  unfolding on_empty now
  on_empty-patient c k = ground (arith, silent.tells c.transport, silent.tells_later c.transport)

  poll_read-patient :
      (c : Client W F)
      → (poll_read b h c).1 ≡ err Error.disconnected
      → (2 ≤ (poll_read b h c).0.unanswered)
        × (c.link_timeout ≤ clock (poll_read b h c).0.transport - c.last_data)
  unfolding poll_read on_read
  poll_read-patient c =
      let (w, buf, r) = h.read c.transport (replicate 64 0) in
      let (x, k, m) = silent.reads_nothing c.transport (replicate 64 0) in
      rw (k, m) (on_empty-patient (record c { transport = w }))

  poll_active-patient :
      (c : Client W F)
      → (poll_active b h c).1 ≡ err Error.disconnected
      → (2 ≤ (poll_active b h c).0.unanswered)
        × (c.link_timeout ≤ clock (poll_active b h c).0.transport - c.last_data)
  unfolding poll_active
  poll_active-patient c k =
      let (d, o) = heartbeat_if_due b h c in
      ground (arith, heartbeat_if_due-silent b h clock silent c, poll_read-patient d)

  -- A silent link is reported only when two heartbeats have gone unanswered and the time that a link
  -- may be silent has passed.
  pub poll-patient :
      (c : Client W F)
      → c.phase ≡ active
      → c.queue ≡ []
      → (poll b h c).1 ≡ err Error.disconnected
      → (2 ≤ (poll b h c).0.unanswered)
        × (c.link_timeout ≤ clock (poll b h c).0.transport - c.last_data)
  poll-patient c p q = rw (poll-eq-active b h clock silent c p q) (poll_active-patient c)
