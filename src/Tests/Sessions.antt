-- ===== src/Tests/Sessions.antt =====
-- Sessions over the replaying transport, after the tests of src/client.rs.
use allsquare.Base.{
  List, [], ◌∷◌, true, false, some, none, ◌≡◌, refl, arith, Bytes, bytes_eq, ℤ, pos, length,
}
use allsquare.Club.{right, iron8}
use allsquare.Error.{NoPanic, ok, index, slice_from}
use allsquare.Impact.{default}
use allsquare.Protocol.Parse.{parse}
use allsquare.Protocol.Command.{encode}
use allsquare.Protocol.Types.{
  Notification, request_club_metrics, detect, ready, BallMetrics, ClubMetrics, advanced,
  device_state, is_empty,
}
use allsquare.Client.Correlation.{after_request, handle_all, handle-shot}
use allsquare.Client.Handle.{handle, reported_club, is_state, apply_impact_vertical_offset}
use allsquare.Client.Invariant.{IsSound, polls, arms, after_call, made, called, Reachable-IsSound}
use allsquare.Client.Poll.{poll}
use allsquare.Client.Replay.Script.{Shows}
use allsquare.Client.Replay.Steps.{drain-events}
use allsquare.Client.Replay.{drain, dedup, notes, events}
use allsquare.Client.Safety.{poll-NoPanic}
use allsquare.Client.State.{Event, Client, active, new_client}
use allsquare.Tests.Samples.{centi, Line, replay, replay-Delivers, replay-ReadsWithin}

abbrev ack_detect : Bytes
ack_detect = 0x11 ∷ 0x03 ∷ 0x16 ∷ 0x03 ∷ 0x03 ∷ 0 ∷ 0 ∷ 0 ∷ 0 ∷ []

abbrev ack_ready : Bytes
ack_ready = 0x11 ∷ 0x03 ∷ 0x85 ∷ 0x04 ∷ 0x04 ∷ 0x03 ∷ 0 ∷ 0 ∷ 0 ∷ []

abbrev ball_frame : Bytes
ball_frame =
    0x11 ∷ 0x02 ∷ 0x37 ∷ 0xa5 ∷ 0x00 ∷ 0x39 ∷ 0x00 ∷ 0x2e ∷ 0 ∷ 0 ∷ 0 ∷ 0 ∷ 0 ∷ 0 ∷ 0 ∷ 0 ∷ 0 ∷ []

abbrev no_club_frame : Bytes
no_club_frame = 0x11 ∷ 0x07 ∷ 0x00 ∷ []

abbrev session : List Bytes
session =
    ack_detect ∷ ack_detect ∷ ack_ready ∷ ball_frame ∷ ball_frame ∷ no_club_frame ∷ no_club_frame
    ∷ []

-- A running client at time 1000, with these frames to come.
abbrev pub running : List Bytes → Client Line ℤ
running frames = record {
  transport = record { frames = frames; written = []; clock = 1000 };
  phase = active;
  seq = 2;
  last_rx = [];
  queue = [];
  last_heartbeat = 900;
  heartbeat_interval = 5_000_000_000;
  last_data = 900;
  unanswered = 1;
  link_timeout = 15_000_000_000;
  state = none;
  pending_shot = none;
  awaiting_club = false;
  handed = right;
  active_club = some iron8;
  impact_calibration = default centi;
}

running-Shows :
    Shows (λ w. w.frames) (running session) session [] none none (some iron8) (default centi)
running-Shows = record {
  running = refl;
  nothing_queued = refl;
  correlated = refl;
  frames_left = refl;
  last_is = refl;
  state_is = refl;
  pending_is = refl;
  club_is = refl;
  calibration_is = refl;
}

drain-events_example :
    drain centi replay (length session) (running session)
    ≡ events centi (some iron8) (default centi) none none (notes centi (dedup [] session))
drain-events_example =
    drain-events centi replay (λ w. w.frames) replay-Delivers (some iron8) (default centi) session
      (running session) [] none none (omega arith) running-Shows

abbrev pub session_ball : BallMetrics ℤ
session_ball = record {
  shot_type = 0x37;
  speed = pos 165;
  launch_angle = pos 57;
  direction = pos 46;
  total_spin = pos 0;
  spin_axis = pos 0;
  back_spin = pos 0;
  side_spin = pos 0;
}

-- The session is one change to each state and one shot, with no club data.
events-session :
    events centi (some iron8) (default centi) none none (notes centi (dedup [] session))
    ≡ Event.state_changed detect ∷ Event.state_changed ready ∷ Event.shot session_ball none ∷ []
unfolding events notes dedup bytes_eq parse index slice_from device_state is_state reported_club
    is_empty apply_impact_vertical_offset default
events-session = refl

poll-NoPanic_example : NoPanic (poll centi replay (running session)).1
poll-NoPanic_example = poll-NoPanic centi replay (running session) replay-ReadsWithin

Reachable-IsSound_example : IsSound (
    after_call centi replay (arms iron8 advanced) (
      after_call centi replay polls
        (new_client replay centi (record { frames = session; written = []; clock = 0 }))))
Reachable-IsSound_example =
    Reachable-IsSound centi replay (called (arms iron8 advanced) (called polls (made _)))

abbrev pub no_club : ClubMetrics ℤ
no_club = record {
  mask = 0;
  path = none;
  face_angle = none;
  attack_angle = none;
  dynamic_loft = none;
  impact_horizontal = none;
  impact_vertical = none;
  club_speed = none;
  smash_factor = none;
}

abbrev holding : Client Line ℤ
holding = record (running []) { pending_shot = some session_ball; awaiting_club = true }

-- The state is acknowledged between the two packets of the shot.
abbrev between : List (Notification ℤ)
between = Notification.heartbeat_ack ready ∷ []

handle-shot_example :
    let asked = handle centi replay (Notification.ball session_ball) holding in
    let w = replay.write holding.transport (encode request_club_metrics 3) in
    let shot =
      handle centi replay (Notification.club no_club) (handle_all centi replay between asked.0) in
    let corrected = reported_club centi no_club (some iron8) (default centi) in
    (asked.1 ≡ after_request w.1)
    × (shot.1 ≡ ok (some (Event.shot session_ball corrected)))
    × (shot.0.transport ≡ w.0)
    × ((handle centi replay (Notification.club no_club) shot.0).1 ≡ ok none)
handle-shot_example = handle-shot centi replay session_ball between no_club no_club holding (tt, tt)
