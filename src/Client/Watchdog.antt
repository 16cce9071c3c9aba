-- ===== src/Client/Watchdog.antt =====
-- The watchdog of src/client.rs: a link that has gone silent is reported after a bounded number of
-- polls.
pub mod Patience
use allsquare.Base.{
  ap, ℕ, zero, suc, ◌+◌, ◌-◌, ◌^◌, ◌%◌, ◌≤◌, ◌<◌, min, true, [], Option, none, some, ◌≡◌, refl, ◌⊎◌,
  inl, inr, arith, Bytes, replicate, ◌∙◌,
}
use allsquare.Build.{Build}
use allsquare.Error.{Io, done, failed, IoError, Error, Outcome, ok, err}
use allsquare.Protocol.Command.{encode}
use allsquare.Protocol.Types.{heartbeat}
use allsquare.Client.Link.{poll-eq-phase}
use allsquare.Client.Methods.{send}
use allsquare.Client.Poll.{
  beat, heartbeat_if_due, is_would_block, on_empty, on_read, poll_read, poll_active, poll_phase,
  poll,
}
use allsquare.Client.State.{Host, Event, active, Client, now}

-- A link on which nothing arrives and every write is taken, with a clock that never goes back and
-- moves on with every read.
pub record IsSilent {W : Type 0} (h : Host W) (clock : W → ℕ) : Type 0 where
  pub reads_nothing :
      (w : W) (buf : Bytes)
      → (e : IoError) × ((h.read w buf).2 ≡ failed e) × (is_would_block e.kind ≡ true)
  pub reads_later : (w : W) (buf : Bytes) → clock w < clock (h.read w buf).0
  pub writes : (w : W) (frame : Bytes) → (h.write w frame).1 ≡ done tt
  pub writes_later : (w : W) (frame : Bytes) → clock w ≤ clock (h.write w frame).0
  pub tells : (w : W) → (h.now w).1 ≡ clock w
  pub tells_later : (w : W) → clock w ≤ clock (h.now w).0

abbrev pub first_outcome :
    {W F : Type 0}
    → Client W F × Outcome (Option (Event F))
    → (Client W F → Option (Outcome (Option (Event F))))
    → Option (Outcome (Option (Event F)))
first_outcome (c, ok none) k = k c
first_outcome (c, o) k = some o

-- What comes of up to `n` polls: of the first that does not give `ok none`, if there is one.
unfoldable pub watch :
    {W F : Type 0} → Build F → Host W → ℕ → Client W F → Option (Outcome (Option (Event F)))
watch b h zero c = none
watch b h (suc n) c = first_outcome (poll b h c) (watch b h n)

-- How long it is until a heartbeat is due.
abbrev pub until_beat : ℕ → ℕ → ℕ → ℕ
until_beat last interval t = last + interval - t

-- How long it is, at most, until two heartbeats have gone unanswered.
abbrev pub until_unanswered : ℕ → ℕ → ℕ → ℕ → ℕ
until_unanswered zero last interval t = until_beat last interval t + interval + 2
until_unanswered (suc zero) last interval t = until_beat last interval t + 1
until_unanswered (suc (suc n)) last interval t = 0

module _ {W F : Type 0} (b : Build F) (h : Host W) (clock : W → ℕ) (silent : IsSilent h clock) where
  -- A bound, in nanoseconds, on the time until a silent link is reported.
  abbrev pub patience : Client W F → ℕ
  patience c =
      let t = clock c.transport in
      until_unanswered c.unanswered c.last_heartbeat c.heartbeat_interval t
      + (c.last_data + c.link_timeout - t)

  -- The client after the heartbeat that may be due.
  abbrev pub Beaten : Client W F → Client W F → Type 0
  Beaten c d =
      (d.phase ≡ c.phase)
      × (d.queue ≡ c.queue)
      × (d.last_data ≡ c.last_data)
      × (d.link_timeout ≡ c.link_timeout)
      × (d.heartbeat_interval ≡ c.heartbeat_interval)
      × (clock c.transport ≤ clock d.transport)

  pub heartbeat_if_due-silent :
      (c : Client W F)
      → let r = heartbeat_if_due b h c in
        (r.1 ≡ ok tt)
        × Beaten c r.0
        × (((r.0.unanswered ≡ min (c.unanswered + 1) (2 ^ 32 - 1))
              × (c.heartbeat_interval ≤ clock c.transport - c.last_heartbeat)
              × (r.0.last_heartbeat ≤ clock r.0.transport))
            ⊎ ((r.0.unanswered ≡ c.unanswered)
                × (r.0.last_heartbeat ≡ c.last_heartbeat)
                × (clock c.transport - c.last_heartbeat < c.heartbeat_interval)))
  unfolding heartbeat_if_due beat send now
  heartbeat_if_due-silent c =
      let (w, t) = h.now c.transport in
      let frame = encode heartbeat ((c.seq + 1) % 256) in
      let v = (h.write w frame).0 in
      ground (
        arith,
        silent.tells c.transport,
        silent.tells_later c.transport,
        silent.writes w frame,
        silent.writes_later w frame,
        silent.tells v,
        silent.tells_later v,
      )

  -- A read that finds nothing: the link is reported, or it is not yet time.
  abbrev Waits : Client W F → Client W F × Outcome (Option (Event F)) → Type 0
  Waits d r =
      (r.1 ≡ err Error.disconnected)
      ⊎ ((r.1 ≡ ok none)
          × (r.0.unanswered ≡ d.unanswered)
          × (r.0.last_heartbeat ≡ d.last_heartbeat)
          × Beaten d r.0
          × (clock d.transport < clock r.0.transport)
          × ((d.unanswered < 2) ⊎ (clock d.transport < d.last_data + d.link_timeout)))

  on_empty-silent :
      (d e : Client W F)
      → Beaten d e
      → e.unanswered ≡ d.unanswered
      → e.last_heartbeat ≡ d.last_heartbeat
      → clock d.transport < clock e.transport
      → Waits d (on_empty b h e)
  unfolding on_empty now
  on_empty-silent d e v u l k =
      ground (arith, silent.tells e.transport, silent.tells_later e.transport)

  on_read-silent :
      (d e : Client W F) (buf : Bytes) (r : Io ℕ) (x : IoError)
      → r ≡ failed x
      → is_would_block x.kind ≡ true
      → Waits d (on_empty b h e)
      → Waits d (on_read b h buf r e)
  unfolding on_read
  on_read-silent d e buf r x k m v = rw (k, m) v

  poll_read-silent : (d : Client W F) → Waits d (poll_read b h d)
  unfolding poll_read
  poll_read-silent d =
      let (w, buf, r) = h.read d.transport (replicate 64 0) in
      let e : Client W F = record d { transport = w } in
      let (x, k, m) = silent.reads_nothing d.transport (replicate 64 0) in
      let later = silent.reads_later d.transport (replicate 64 0) in
      on_read-silent d e buf r x k m
        (on_empty-silent d e (refl, refl, refl, refl, refl, omega arith) refl refl later)

  -- A poll of a silent link reports it, or brings the report nearer.
  abbrev Nearer : Client W F → Client W F × Outcome (Option (Event F)) → Type 0
  Nearer c r =
      (r.1 ≡ err Error.disconnected)
      ⊎ ((r.1 ≡ ok none)
          × (r.0.phase ≡ c.phase)
          × (r.0.queue ≡ c.queue)
          × (patience r.0 < patience c))

  poll_active-silent : (c : Client W F) → Nearer c (poll_active b h c)
  unfolding poll_active
  poll_active-silent c =
      let (d, o) = heartbeat_if_due b h c in
      ground (arith, heartbeat_if_due-silent c, poll_read-silent d)

  pub poll-eq-active :
      (c : Client W F) → c.phase ≡ active → c.queue ≡ [] → poll b h c ≡ poll_active b h c
  unfolding poll_phase
  poll-eq-active c p q = poll-eq-phase b h c q ∙ ap (λ x. poll_phase b h x c) p

  poll-silent : (c : Client W F) → c.phase ≡ active → c.queue ≡ [] → Nearer c (poll b h c)
  poll-silent c p q = rw (poll-eq-active c p q) (poll_active-silent c)

  first_outcome-none :
      (r : Client W F × Outcome (Option (Event F)))
      (k : Client W F → Option (Outcome (Option (Event F))))
      → r.1 ≡ ok none
      → first_outcome r k ≡ k r.0
  first_outcome-none (d, o) k e = rw e refl

  first_outcome-err :
      (r : Client W F × Outcome (Option (Event F)))
      (k : Client W F → Option (Outcome (Option (Event F)))) (x : Error)
      → r.1 ≡ err x
      → first_outcome r k ≡ some (err x)
  first_outcome-err (d, o) k x e = rw e refl

  -- On a link that has gone silent, with a clock that moves on with every read, polling an active
  -- client with nothing queued reports a lost link, and nothing before it, within as many polls as
  -- its bound on the wait has nanoseconds, and one more: the client does not wait for ever.
  pub watch-disconnected :
      (n : ℕ) (c : Client W F)
      → c.phase ≡ active
      → c.queue ≡ []
      → patience c < n
      → watch b h n c ≡ some (err Error.disconnected)
  unfolding watch
  watch-disconnected zero c p q l = absurd (omega arith)
  watch-disconnected (suc n) c p q l = elim (poll-silent c p q) [
    | inl k ↦ first_outcome-err (poll b h c) (watch b h n) Error.disconnected k
    | inr (k, p', q', m) ↦
        first_outcome-none (poll b h c) (watch b h n) k
        ∙ watch-disconnected n (poll b h c).0 (p' ∙ p) (q' ∙ q) (omega arith)
  ]
