-- ===== src/Tests/Controllers.antt =====
-- A device of src/frp/mod.rs with a controller that keeps what it receives, and the program of
-- src/bin/allsquare-frp.rs.
use allsquare.Base.{ℕ, Bool, true, false, List, [], ◌∷◌, ◌++◌, Option, some, none, ◌≡◌, refl, ℤ}
use allsquare.Club.{Club, left}
use allsquare.Protocol.Command.{encode}
use allsquare.Protocol.Types.{DeviceState, detect, select_club}
use allsquare.Text.{codes}
use allsquare.Client.State.{Event, new_client, now, read_characteristic}
use allsquare.Client.Methods.{send, arm}
use allsquare.Client.Poll.{poll, poll_queue, poll_phase, poll_connecting, read_identity}
use allsquare.Frp.Types.{FrpEnvelope, FrpClub, Handedness, ok}
use allsquare.Frp.Device.{
  Relay, FrpDevice, ControllerCommand, nothing, spawn, set_device_name, poll_connection,
}
use allsquare.Frp.Events.{handle_event, send_telemetry}
use allsquare.Frp.Asking.{IsAsking, Live-IsAsking}
use allsquare.Frp.Keeping.{Call, spawned, called, after_call}
use allsquare.Frp.Delivery.{Records, Sends}
use allsquare.Frp.Delivery.Shots.{ShotSends, handle_event-Sends}
use allsquare.Frp.Delivery.Telemetry.{due, handle_event-repeated, poll_connection-Sends}
use allsquare.Frp.Uuid.{uuid_v4}
use allsquare.Frp.Uuid.Shape.{matches, uuid_form, uuid_v4-matches}
use allsquare.Bridge.{
  App, apply_controller_command, iteration, Next, club_from_arg, on_poll, on_event, on_connected,
  after_arm, forward,
}
use allsquare.Bridge.Consistent.{IsConsistent}
use allsquare.Bridge.Arming.{started, iterated, Running-IsConsistent}
use allsquare.Bridge.Commands.{InForce, apply_controller_command-transport}
use allsquare.Tests.Samples.{centi, Line, replay}
use allsquare.Tests.Sessions.{running, session_ball, no_club}

-- Everything that was received, and the connections to come.
abbrev Post : Type 0
Post = List (FrpEnvelope ℤ) × List ℕ

abbrev next_of : Post → Post × Option ℕ
next_of (log, []) = ((log, []), none)
next_of (log, c ∷ cs) = ((log, cs), some c)

abbrev post : Relay Post ℕ ℤ
post = record {
  send = λ w c e. ((w.0 ++ e ∷ [], w.1), ok tt);
  try_recv = λ w c. (w, nothing);
  request = λ w. (w, true);
  incoming = next_of;
  nanos = λ w. (w, 1_700_000_000_123_456_789);
}

next_of-log : (w : Post) → (next_of w).0.0 ≡ w.0
next_of-log (log, []) = refl
next_of-log (log, c ∷ cs) = refl

post-Records : Records post (λ w. w.0)
post-Records = record {
  sent = λ w c e u k. refl;
  failed = λ w c e x k. cc k;
  asked = λ w. refl;
  timed = λ w. refl;
  arrives = next_of-log;
}

-- A device with a controller, after one that was not ready.
abbrev attached : FrpDevice Post ℕ ℤ
attached = record {
  world = ([], 5 ∷ []);
  conn = some 4;
  pending = false;
  telemetry = none;
  device = codes "SquareGolf(CD01)";
  firmware = some (codes "1.5.8");
  model = none;
  shot_number = 6;
  last_ready = some true;
}

handle_event-Sends_example :
    ShotSends
      (λ w. w.0)
      centi
      session_ball
      (some no_club)
      attached
      (post.nanos (send_telemetry post (some false) none attached).0.world).1
      (handle_event post centi (Event.shot session_ball (some no_club)) attached)
handle_event-Sends_example =
    handle_event-Sends post (λ w. w.0) post-Records centi session_ball (some no_club) attached

handle_event-repeated_example :
    handle_event post centi
      (Event.state_changed DeviceState.shot)
      (handle_event post centi (Event.state_changed detect) attached).0
    ≡ ((handle_event post centi (Event.state_changed detect) attached).0, ok tt)
handle_event-repeated_example =
    handle_event-repeated post centi detect DeviceState.shot attached refl

abbrev alone : FrpDevice Post ℕ ℤ
alone = record attached { conn = none; pending = true }

poll_connection-Sends_example :
    Sends {A = Bool}
      (λ (w : Post). w.0)
      []
      (due {Conn = ℕ} none (some 5) none)
      (poll_connection post alone)
poll_connection-Sends_example = poll_connection-Sends post (λ w. w.0) post-Records alone

Live-IsAsking_example : IsAsking (
    after_call centi post
      (Call.handles (Event.shot session_ball none))
      (after_call centi post Call.polls (spawn post ([], 5 ∷ []))))
Live-IsAsking_example =
    Live-IsAsking centi post (λ w. refl)
      (called (Call.handles (Event.shot session_ball none))
        (called Call.polls (spawned ([], 5 ∷ []))))

uuid_v4-matches_example : matches uuid_form (uuid_v4 1_700_000_000_123_456_789) ≡ true
uuid_v4-matches_example = uuid_v4-matches 1_700_000_000_123_456_789

-- The program with an armed device, and a command for another club.
abbrev program : App Line Post ℕ ℤ
program = record { client = running []; frp = attached; club = Club.driver; armed = true }

abbrev for_iron7 : ControllerCommand
for_iron7 = record { mode = none; handed = some Handedness.left; club = some FrpClub.iron7 }

apply_controller_command-transport_example :
    let b = apply_controller_command replay for_iron7 program in
    InForce (some FrpClub.iron7) Club.driver b.club
    × (b.client.handed ≡ left)
    × (b.client.transport
        ≡ (replay.write program.client.transport (encode (select_club b.club b.client.handed) 3)).0)
apply_controller_command-transport_example =
    apply_controller_command-transport replay for_iron7 program

-- The program at its start.
abbrev launch : App Line Post ℕ ℤ
launch = record {
  client = new_client replay centi (record { frames = []; written = []; clock = 0 });
  frp = set_device_name (codes "SquareGolf(CD01)") (spawn post ([], []));
  club = club_from_arg (some (codes "7i"));
  armed = false;
}

launch-again : (iteration centi replay post launch).1 ≡ Next.again
unfolding iteration new_client set_device_name spawn poll poll_queue poll_phase poll_connecting
    read_identity send now read_characteristic on_poll on_event on_connected arm after_arm forward
launch-again = refl

Running-IsConsistent_example : IsConsistent (iteration centi replay post launch).0
Running-IsConsistent_example =
    Running-IsConsistent centi replay post (λ w. refl) (iterated (started _ _ _ _) launch-again)
