-- ===== src/Client/Replay.antt =====
-- What a client of src/client.rs reports of a sequence of frames, against a description of it: drop
-- each repeated frame and each frame that does not parse, and pair balls with clubs.
pub mod Script
pub mod Steps
use allsquare.Base.{
  ℕ, zero, suc, Bool, true, false, List, [], ◌∷◌, ◌++◌, Option, some, none, ◌==◌, if◌then◌else◌,
  Bytes, bytes_eq,
}
use allsquare.Build.{Build}
use allsquare.Club.{Club}
use allsquare.Error.{Outcome, ok, err, panic}
use allsquare.Impact.{ImpactCalibration}
use allsquare.Protocol.Parse.{parse}
use allsquare.Protocol.Types.{BallMetrics, ClubMetrics, DeviceState, Notification}
use allsquare.Client.Handle.{reported_club, is_state}
use allsquare.Client.Poll.{poll}
use allsquare.Client.State.{Host, Event, Client}

-- The frames without those that repeat the one before.
unfoldable pub dedup : Bytes → List Bytes → List Bytes
dedup last [] = []
dedup last (f ∷ fs) = elim (bytes_eq f last) [ true ↦ dedup last fs | false ↦ f ∷ dedup f fs ]

-- The last of the frames, or the one before them.
abbrev pub maybe {ℓ} : {A : Type ℓ} → Option A → List A → List A
maybe none xs = xs
maybe (some a) xs = a ∷ xs

abbrev pub note_of : {F : Type 0} → Outcome (Notification F) → Option (Notification F)
note_of (ok n) = some n
note_of (err e) = none
note_of panic = none

module _ {F : Type 0} (b : Build F) where
  -- The notifications of the frames that parse.
  unfoldable pub notes : List Bytes → List (Notification F)
  notes [] = []
  notes (f ∷ fs) = maybe (note_of (parse b f)) (notes fs)

-- The device state after a notification.
abbrev pub next_state : {F : Type 0} → Option DeviceState → Notification F → Option DeviceState
next_state s (Notification.heartbeat_ack t) = some t
next_state s (Notification.ball m) = s
next_state s _ = s

-- The ball whose club metrics are outstanding after a notification.
abbrev pub next_pending :
    {F : Type 0} → Option (BallMetrics F) → Notification F → Option (BallMetrics F)
next_pending p (Notification.ball m) = some m
next_pending p (Notification.club k) = none
next_pending p _ = p

module _ {F : Type 0} (b : Build F) (club : Option Club) (cal : ImpactCalibration F) where
  abbrev pub shot_event : Option (BallMetrics F) → ClubMetrics F → Option (Event F)
  shot_event none k = none
  shot_event (some m) k = some (Event.shot m (reported_club b k club cal))

  -- What one notification reports, with the state and the outstanding ball before it.
  abbrev pub event_of :
      Option DeviceState → Option (BallMetrics F) → Notification F → Option (Event F)
  event_of s p (Notification.ball m) = none
  event_of s p (Notification.club k) = shot_event p k
  event_of s p (Notification.heartbeat_ack t) =
      if is_state s t then none else some (Event.state_changed t)
  event_of s p (Notification.sensor x) = some (Event.sensor x)
  event_of s p (Notification.battery n x) = some (Event.battery n x)
  event_of s p (Notification.clock t) = some (Event.clock t)
  event_of s p (Notification.alignment a) = some (Event.alignment a)
  event_of s p (Notification.query_response x) = none

  unfoldable pub events :
      Option DeviceState → Option (BallMetrics F) → List (Notification F) → List (Event F)
  events s p [] = []
  events s p (n ∷ ns) = maybe (event_of s p n) (events (next_state s n) (next_pending p n) ns)

module _ {W F : Type 0} (b : Build F) (h : Host W) where
  abbrev pub collect :
      Client W F × Outcome (Option (Event F)) → (Client W F → List (Event F)) → List (Event F)
  collect (c, ok (some e)) k = e ∷ k c
  collect (c, ok none) k = k c
  collect (c, err e) k = []
  collect (c, panic) k = []

  -- The events of up to `n` polls, until one fails: `drain` of the tests of src/client.rs.
  unfoldable pub drain : ℕ → Client W F → List (Event F)
  drain zero c = []
  drain (suc n) c = collect (poll b h c) (drain n)
