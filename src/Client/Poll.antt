-- ===== src/Client/Poll.antt =====
-- src/client.rs: `Client::poll` and `Client::read_identity`.
use allsquare.Base.{
  ℕ, ◌+◌, ◌-◌, ◌^◌, min, Bool, true, false, List, [], ◌∷◌, Option, some, none, leb, ◌==◌,
  if◌then◌else◌, replicate, Bytes, bytes_eq,
}
use allsquare.Build.{Build}
use allsquare.Error.{
  ErrorKind, would_block, Io, done, failed, Error, Outcome, ok, err, panic, slice,
}
use allsquare.Protocol.Parse.{parse}
use allsquare.Protocol.Types.{Notification, heartbeat, query}
use allsquare.Protocol.Uuid
use allsquare.Text.Utf8.{from_utf8_lossy}
use allsquare.Client.Firmware.{parse_firmware}
use allsquare.Client.Handle.{handle}
use allsquare.Client.Methods.{send}
use allsquare.Client.State.{
  Host, Event, Phase, connecting, active, Client, M, ◌>>=◌, ◌>>◌, pure, fail, lift, update, now,
  read_characteristic, unanswered_heartbeats,
}

unfoldable pub is_would_block : ErrorKind → Bool
is_would_block would_block = true
is_would_block _ = false

-- The model: the GAP name where it was read and is not empty, or the transport's hint, or nothing.
unfoldable pub model_name : Outcome Bytes → Option Bytes → Bytes
model_name (ok v) hint = elim (from_utf8_lossy v) [
  | [] ↦ elim hint [ some m ↦ m | none ↦ [] ]
  | x ∷ s ↦ x ∷ s
]
model_name (err e) hint = elim hint [ some m ↦ m | none ↦ [] ]
model_name panic hint = elim hint [ some m ↦ m | none ↦ [] ]

module _ {W F : Type 0} (b : Build F) (h : Host W) where
  -- A call whose failure is looked at, not passed on.
  abbrev attempt : {A : Type 0} → M W F A → M W F (Outcome A)
  attempt m c = ((m c).0, ok (m c).1)

  unfoldable pub read_identity : M W F (Event F)
  read_identity = do
    fw ← read_characteristic h Uuid.fw_version
    hw ← read_characteristic h Uuid.hw_version
    id ← read_characteristic h Uuid.device_id
    gap ← attempt (read_characteristic h Uuid.gap_name)
    model ← (λ (c : Client W F). (c, ok (model_name gap (h.model_hint c.transport))))
    send h query
    t ← now h
    update (λ (c : Client W F). record c { last_heartbeat = t })
    send h heartbeat
    t' ← now h
    update (λ (c : Client W F). record c { last_data = t'; unanswered = 1 })
    pure (
        Event.connected (parse_firmware (from_utf8_lossy fw)) (from_utf8_lossy hw)
          (from_utf8_lossy id) model)

  unfoldable pub poll_connecting : M W F (Option (Event F))
  poll_connecting = do
    ev ← read_identity
    update (λ (c : Client W F). record c { phase = active })
    pure (some ev)

  -- `unanswered.saturating_add(1)` on a `u32`.
  abbrev pub saturating_suc : ℕ → ℕ
  saturating_suc n = min (n + 1) (2 ^ 32 - 1)

  unfoldable pub beat : M W F (Unit {0})
  beat = do
    send h heartbeat
    t ← now h
    update (λ (c : Client W F). record c {
      last_heartbeat = t;
      unanswered = saturating_suc c.unanswered;
    })

  unfoldable pub heartbeat_if_due : M W F (Unit {0})
  heartbeat_if_due c =
      (do t ← now h; if leb c.heartbeat_interval (t - c.last_heartbeat) then beat else pure tt) c

  -- The transport has nothing: the watchdog.
  unfoldable pub on_empty : M W F (Option (Event F))
  on_empty c =
      if leb unanswered_heartbeats c.unanswered
      then (do
        t ← now h
        if leb c.link_timeout (t - c.last_data) then fail Error.disconnected else pure none)
          c
      else pure none c

  -- The last `match` of `poll`.
  unfoldable pub respond : Outcome (Notification F) → M W F (Option (Event F))
  respond (ok note) = handle b h note
  respond (err Error.disconnected) = fail Error.disconnected
  respond (err _) = pure none
  respond panic = lift panic

  unfoldable pub receive : Bytes → M W F (Option (Event F))
  receive bytes = do
    t ← now h
    update (λ (c : Client W F). record c { last_data = t; unanswered = 0 })
    (λ (c : Client W F).
        if bytes_eq bytes c.last_rx
        then pure none c
        else respond (parse b bytes) (record c { last_rx = bytes }))

  -- What `transport.read` came to, with the buffer that it left.
  unfoldable pub on_read : Bytes → Io ℕ → M W F (Option (Event F))
  on_read buf (done n) =
      if n == 0 then fail Error.disconnected else (do bytes ← lift (slice buf 0 n); receive bytes)
  on_read buf (failed e) = if is_would_block e.kind then on_empty else fail (Error.transport e)

  unfoldable pub poll_read : M W F (Option (Event F))
  poll_read c =
      let (w, buf, r) = h.read c.transport (replicate 64 0) in
      on_read buf r (record c { transport = w })

  unfoldable pub poll_active : M W F (Option (Event F))
  poll_active = do heartbeat_if_due; poll_read

  unfoldable pub poll_phase : Phase → M W F (Option (Event F))
  poll_phase connecting = poll_connecting
  poll_phase active = poll_active

  unfoldable pub poll_queue : List (Event F) → M W F (Option (Event F))
  poll_queue [] c = poll_phase c.phase c
  poll_queue (ev ∷ rest) c = (record c { queue = rest }, ok (some ev))

  unfoldable pub poll : M W F (Option (Event F))
  poll c = poll_queue c.queue c
