-- ===== src/Client/Handle.antt =====
-- src/client.rs: `Client::handle`, the response to one notification.
use allsquare.Base.{Bool, true, false, not, Option, some, none, ◌==◌, if◌then◌else◌}
use allsquare.Build.{Build}
use allsquare.Club.{Club}
use allsquare.Impact.{ImpactCalibration, dot_bottom_to_face_center_mm}
use allsquare.Protocol.Types.{
  DeviceState, idle, init, detect, ready, finished, BallMetrics, ClubMetrics, is_empty,
  Notification, request_club_metrics,
}
use allsquare.Client.Methods.{send}
use allsquare.Client.State.{Host, Event, Client, M, ◌>>◌, pure, update}

-- `==` of the derived `PartialEq`.
unfoldable pub same_state : DeviceState → DeviceState → Bool
same_state DeviceState.none DeviceState.none = true
same_state idle idle = true
same_state init init = true
same_state detect detect = true
same_state ready ready = true
same_state DeviceState.shot DeviceState.shot = true
same_state finished finished = true
same_state (DeviceState.unknown a) (DeviceState.unknown b) = a == b
same_state _ _ = false

-- `self.state == Some(state)`.
unfoldable pub is_state : Option DeviceState → DeviceState → Bool
unfolding same_state
is_state none s = false
is_state (some old) s = same_state old s

module _ {F : Type 0} (b : Build F) where
  -- `active_club.and_then(|c| calibration.dot_bottom_to_face_center_mm(c))`.
  unfoldable pub offset_of : Option Club → ImpactCalibration F → Option F
  unfolding dot_bottom_to_face_center_mm
  offset_of none calibration = none
  offset_of (some c) calibration = dot_bottom_to_face_center_mm calibration c

  unfoldable pub shift_vertical : Option F → Option F → Option F
  shift_vertical none v = none
  shift_vertical (some offset) none = none
  shift_vertical (some offset) (some v) = some (b.add v offset)

  unfoldable pub apply_impact_vertical_offset :
      ClubMetrics F → Option Club → ImpactCalibration F → ClubMetrics F
  unfolding offset_of shift_vertical
  apply_impact_vertical_offset club active_club calibration = record club {
    impact_vertical = shift_vertical (offset_of active_club calibration) club.impact_vertical;
  }

  -- The club metrics of a shot event: corrected unless the feature leaves them raw, and left out
  -- where nothing was measured.
  unfoldable pub reported_club :
      ClubMetrics F → Option Club → ImpactCalibration F → Option (ClubMetrics F)
  reported_club club active_club calibration =
      let corrected =
        if b.raw_face_impact
        then club
        else apply_impact_vertical_offset club active_club calibration in
      if is_empty corrected then none else some corrected

module _ {W F : Type 0} (b : Build F) (h : Host W) where
  -- `self.pending_shot.take()`, and the event of the shot.
  unfoldable pub finish_shot :
      Option (BallMetrics F) → ClubMetrics F → Client W F → Option (Event F)
  finish_shot none club c = none
  finish_shot (some ball) club c =
      some (Event.shot ball (reported_club b club c.active_club c.impact_calibration))

  unfoldable pub handle_club : ClubMetrics F → M W F (Option (Event F))
  handle_club club c =
      if not c.awaiting_club
      then pure none c
      else (do
        update (λ (d : Client W F). record d { awaiting_club = false; pending_shot = none })
        pure (finish_shot c.pending_shot club c))
          c

  unfoldable pub handle_state : DeviceState → M W F (Option (Event F))
  handle_state s c =
      if is_state c.state s
      then pure none c
      else (do
        update (λ (d : Client W F). record d { state = some s })
        pure (some (Event.state_changed s)))
          c

  unfoldable pub handle : Notification F → M W F (Option (Event F))
  handle (Notification.ball ball) = do
    update (λ (d : Client W F). record d { pending_shot = some ball; awaiting_club = true })
    send h request_club_metrics
    pure none
  handle (Notification.club club) = handle_club club
  handle (Notification.heartbeat_ack s) = handle_state s
  handle (Notification.sensor s) = pure (some (Event.sensor s))
  handle (Notification.battery percent s) = pure (some (Event.battery percent s))
  handle (Notification.clock t) = pure (some (Event.clock t))
  handle (Notification.alignment a) = pure (some (Event.alignment a))
  handle (Notification.query_response payload) = pure none
