-- ===== src/Tests/Programs.antt =====
-- The program of src/bin/allsquare-frp.rs and the acceptor thread at concrete inputs.
use allsquare.Base.{
  ℕ, ◌+◌, true, false, [], Option, some, none, ◌≡◌, refl, ℤ, Bytes, length, if◌then◌else◌,
}
use allsquare.Error.{Outcome}
use allsquare.Text.{codes, is_some}
use allsquare.Client.State.{new_client}
use allsquare.Frp.Acceptor.{
  Net, Channels, EndpointConfig, channel_relay, open_device, if_open, thread_step,
}
use allsquare.Frp.Acceptor.Supply.{Serving, Serving-supply}
use allsquare.Frp.Device.{FrpDevice, nothing, spawn, set_device_name}
use allsquare.Frp.Keeping.{Call, after_call}
use allsquare.Frp.Types.{ok}
use allsquare.Bridge.{App, club_from_arg}
use allsquare.Tests.Samples.{centi, Line, replay}

-- A network whose connections are numbered.
abbrev network : Net ℕ ℕ ℤ
network = record {
  open_endpoint = λ config u. (u, ok tt);
  establish = λ u. (u + 1, ok u);
  set_nonblocking = λ u conn. (u, ok tt);
  sleep = λ d u. u;
  send = λ u conn env. (u, ok tt);
  try_recv = λ u conn. (u, nothing);
  nanos = λ u. (u, 5);
}

abbrev at_start : FrpDevice (Channels ℕ ℕ) ℕ ℤ
at_start =
    spawn (channel_relay network) (record { world = 7; requests = 0; working = false; ready = [] })

abbrev on_port : EndpointConfig
on_port = record { listens = true; address = codes "0.0.0.0:5880"; name = none; versioned = false }

opens : (open_device network on_port 7).1 ≡ ok at_start
unfolding open_device if_open
opens = refl

-- The thread takes the request and connects, and the device adopts the connection.
abbrev served : FrpDevice (Channels ℕ ℕ) ℕ ℤ
served =
    let taken = record at_start { world = thread_step network at_start.world } in
    let established = record taken { world = thread_step network taken.world } in
    after_call centi (channel_relay network) Call.polls established

Serving-supply_example :
    served.world.requests + (if served.world.working then 1 else 0) + length served.world.ready
    ≡ (if is_some served.conn then 0 else 1)
Serving-supply_example =
    Serving-supply centi network (
      Serving.calls Call.polls
        (Serving.accepts (Serving.accepts (Serving.started on_port 7 opens))))

abbrev still : Line
still = record { frames = []; written = []; clock = 0 }

-- The scan finds the device at once.
abbrev scanned : Option Bytes → ℕ → ℕ × Outcome (Line × Bytes)
scanned pin k = (k, Outcome.ok (still, codes "SquareGolf(CD01)"))

abbrev entered : App Line (Channels ℕ ℕ) ℕ ℤ
entered = record {
  client = new_client replay centi still;
  frp = set_device_name (codes "SquareGolf(CD01)") at_start;
  club = club_from_arg (some (codes "7i"));
  armed = false;
}
