-- ===== src/Client/Safety.antt =====
-- `Client::poll` of src/client.rs does not panic.
use allsquare.Club.{Club}
use allsquare.Protocol.Types.{SpinMode}
use allsquare.Client.Methods.{arm, send}
use allsquare.Base.{ℕ, ◌≤◌, ◌-◌, ◌≡◌, refl, arith, length, replicate, take, drop, Bytes}
use allsquare.Build.{Build}
use allsquare.Error.{Io, done, failed, Error, Outcome, ok, err, panic, NoPanic, slice-eq-ok}
use allsquare.Protocol.Parse.{parse}
use allsquare.Protocol.Safety.{parse-NoPanic}
use allsquare.Protocol.Types.{Notification}
use allsquare.Client.Handle.{handle, handle_club, handle_state}
use allsquare.Client.Methods.{send}
use allsquare.Client.Poll.{
  read_identity, poll_connecting, beat, heartbeat_if_due, on_empty, respond, receive, on_read,
  poll_read, poll_active, poll_phase, poll_queue, poll,
}
use allsquare.Client.State.{
  Host, Phase, connecting, active, Client, M, continue, now, read_characteristic,
}

-- A read leaves the buffer as long as it was, and the count that it returns within the buffer.
abbrev pub ReadsWithin : {W : Type 0} → Host W → Type 0
ReadsWithin {W} h =
    (w : W) (buf : Bytes)
    → (length (h.read w buf).1 ≡ length buf)
      × ((n : ℕ) → (h.read w buf).2 ≡ done n → n ≤ length buf)

module _ {W F A B : Type 0} where
  continue-NoPanic :
      (r : Client W F × Outcome A) (f : A → M W F B)
      → NoPanic r.1
      → ((a : A) (c : Client W F) → NoPanic (f a c).1)
      → NoPanic (continue r f).1
  continue-NoPanic (c, ok a) f v k = k a c
  continue-NoPanic (c, err e) f v k = tt
  continue-NoPanic (c, panic) f v k = v

module _ {W F : Type 0} (b : Build F) (h : Host W) where
  handle-NoPanic : (note : Notification F) (c : Client W F) → NoPanic (handle b h note c).1
  unfolding handle handle_club handle_state send
  handle-NoPanic (Notification.ball ball) c = ground arith
  handle-NoPanic _ c = ground arith

  respond-NoPanic :
      (r : Outcome (Notification F)) (c : Client W F) → NoPanic r → NoPanic (respond b h r c).1
  unfolding respond
  respond-NoPanic (ok note) c p = handle-NoPanic note c
  respond-NoPanic (err Error.disconnected) c p = tt
  respond-NoPanic (err _) c p = tt
  respond-NoPanic panic c p = p

  receive-NoPanic : (bytes : Bytes) (c : Client W F) → NoPanic (receive b h bytes c).1
  unfolding receive now
  receive-NoPanic bytes c = ground (
    arith,
    respond-NoPanic (parse b bytes)
        (record c {
          transport = (h.now c.transport).0;
          last_data = (h.now c.transport).1;
          unanswered = 0;
          last_rx = bytes;
        })
        (parse-NoPanic b bytes),
  )

  on_empty-NoPanic : (c : Client W F) → NoPanic (on_empty b h c).1
  unfolding on_empty now
  on_empty-NoPanic c = ground arith

  on_read-NoPanic :
      (buf : Bytes) (r : Io ℕ) (c : Client W F)
      → ((n : ℕ) → r ≡ done n → n ≤ length buf)
      → NoPanic (on_read b h buf r c).1
  unfolding on_read
  on_read-NoPanic buf (done n) c within =
      let e = slice-eq-ok buf 0 n (omega arith) (within n refl) in
      ground (arith, e, receive-NoPanic (take (n - 0) (drop 0 buf)) c)
  on_read-NoPanic buf (failed e) c within = ground (arith, on_empty-NoPanic c)

  poll_read-NoPanic : (c : Client W F) → ReadsWithin h → NoPanic (poll_read b h c).1
  unfolding poll_read
  poll_read-NoPanic c within =
      let (same, most) = within c.transport (replicate 64 0) in
      let (w, buf, r) = h.read c.transport (replicate 64 0) in
      on_read-NoPanic buf r (record c { transport = w }) (λ n e. rw same (most n e))

  heartbeat_if_due-NoPanic : (c : Client W F) → NoPanic (heartbeat_if_due b h c).1
  unfolding heartbeat_if_due beat send now
  heartbeat_if_due-NoPanic c = ground arith

  read_identity-NoPanic : (c : Client W F) → NoPanic (read_identity b h c).1
  unfolding read_identity send now read_characteristic
  read_identity-NoPanic c = ground arith

  poll_phase-NoPanic : (p : Phase) (c : Client W F) → ReadsWithin h → NoPanic (poll_phase b h p c).1
  unfolding poll_phase poll_connecting poll_active
  poll_phase-NoPanic connecting c within =
      continue-NoPanic (read_identity b h c) _ (read_identity-NoPanic c) (λ _ d. tt)
  poll_phase-NoPanic active c within =
      continue-NoPanic (heartbeat_if_due b h c) _ (heartbeat_if_due-NoPanic c)
        (λ _ d. poll_read-NoPanic d within)

  -- Over a transport whose reads stay within the buffer, a poll never panics, whatever bytes the
  -- device sends and whatever state the client is in.
  pub poll-NoPanic : (c : Client W F) → ReadsWithin h → NoPanic (poll b h c).1
  unfolding poll poll_queue
  poll-NoPanic c within = ground (arith, poll_phase-NoPanic c.phase c within)

module _ {W F : Type 0} (h : Host W) where
  pub arm-NoPanic : (club : Club) (spin : SpinMode) (c : Client W F) → NoPanic (arm h club spin c).1
  unfolding arm send
  arm-NoPanic club spin c = ground arith
