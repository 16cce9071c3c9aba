-- ===== src/Tests/Transports.antt =====
-- The transports and the names of devices at concrete inputs.
use allsquare.Base.{
  arith, ℕ, suc, true, false, List, [], ◌∷◌, ◌++◌, map, some, none, ◌≡◌, refl, Bytes,
}
use allsquare.Error.{Error, done, failed, not_connected, Outcome, NoPanic}
use allsquare.Text.{codes, rsplit_once, strip_prefix, strip_last}
use allsquare.Protocol.Names.{matches_pin}
use allsquare.Protocol.Pins.{cached_name, matches_pin-cached_name}
use allsquare.Client.Poll.{poll}
use allsquare.Client.State.{new_client}
use allsquare.Transport.Bluez.{Bus, BluezTransport, Managed, look}
use allsquare.Transport.Btleplug.{
  Stack, BtleplugTransport, data_of, link_closed, disconnect, drop_transport, write_command,
}
use allsquare.Transport.Lifecycle.{
  pumps, writes, disconnects, after_step, Used, fresh, used, closed-stack,
}
use allsquare.Transport.Reading.{bluez_host, btleplug_host, poll-host, reads, reads-sent}
use allsquare.Transport.Search.{Finds, look-Finds}
use allsquare.Tests.Samples.{centi}

-- A stack that counts the requests to disconnect, and refuses them.
abbrev counting : Stack ℕ
counting = record {
  disconnect = λ w. (suc w, Outcome.err (Error.backend "disconnect: refused"));
  is_connected = λ w. (w, true);
  has_characteristic = λ w uuid. true;
  write = λ w frame. (w, done tt);
  read = λ w uuid. (w, done (codes "3.1"));
}

abbrev linked : BtleplugTransport ℕ
linked = record {
  stack = 0;
  notifications = record { sent = []; sender = true };
  down = false;
  released = false;
  pumping = true;
  closed = false;
}

-- A frame arrives, a command is written, and the owner disconnects twice; the pump sees the stack
-- report the device gone while the first of these calls waits.
abbrev after_frame : BtleplugTransport ℕ
after_frame = after_step counting (pumps (data_of (codes "y"))) linked

abbrev finished : BtleplugTransport ℕ
finished = after_step counting (disconnects []) (
    after_step counting (disconnects (link_closed true ∷ []))
      (after_step counting (writes (codes "x")) after_frame))

abbrev life : Used counting linked finished
life = used (disconnects []) (
    used (disconnects (link_closed true ∷ []))
      (used (writes (codes "x")) (used (pumps (data_of (codes "y"))) fresh)))

closed-stack_example :
    let d = (disconnect counting (data_of (codes "y") ∷ []) linked).0 in
    let u = after_step counting (pumps (link_closed true)) d in
    (u.closed ≡ true)
    × (u.stack ≡ d.stack)
    × (drop_transport counting u ≡ u.stack)
    × ((write_command counting (codes "x") u).1
        ≡ failed (record { kind = not_connected; message = "device disconnected" }))
closed-stack_example =
    closed-stack counting (pumps (link_closed true)) (data_of (codes "y") ∷ []) linked (codes "x")

abbrev frames : List Bytes
frames = codes "first" ∷ codes "second" ∷ []

abbrev buffer : Bytes
buffer = codes "........"

reads-sent_example :
    reads 3 buffer (record { sent = frames; sender = false }) ≡ map done frames ++ done [] ∷ []
reads-sent_example = reads-sent frames buffer false (omega arith, (omega arith, tt))

abbrev system_bus : Bus ℕ
system_bus = record {
  write_value = λ w path frame. (w, done tt);
  read_value = λ w path. (w, done (codes "3.1"));
}

abbrev on_bus : BluezTransport ℕ
on_bus = record {
  conn = 0;
  cmd_path = codes "/dev/cmd";
  name = codes "SquareGolf(CD01)";
  address = codes "02:00:00:AB:CD:01";
  model_hint = some (codes "0300A");
  notifications = record { sent = frames; sender = true };
  chars = [];
}

abbrev ticking : ℕ → ℕ × ℕ
ticking w = (suc w, w)

poll-host_example :
    NoPanic
      (poll centi
        (bluez_host system_bus ticking)
        (new_client (bluez_host system_bus ticking) centi on_bus)).1
    × NoPanic
        (poll centi
          (btleplug_host counting ticking)
          (new_client (btleplug_host counting ticking) centi linked)).1
poll-host_example =
    poll-host centi system_bus counting ticking
      (new_client (bluez_host system_bus ticking) centi on_bus)
      (new_client (btleplug_host counting ticking) centi linked)

abbrev objects : List Managed
objects =
    record { path = codes "/hci0"; device = none; characteristic = none }
    ∷ record {
      path = codes "/hci0/dev_1";
      device = some (record {
        alias = some (some (codes "SquareGolf(CD01)"));
        name = none;
        address = some (codes "02:00:00:AB:CD:01");
      });
      characteristic = none;
    }
    ∷ []

look-Finds_example : Finds none objects (look none objects)
look-Finds_example = look-Finds none objects

abbrev square_name : Bytes
square_name = codes "SquareGolf(CD01)"

no_bracket : rsplit_once (codes " [") square_name ≡ none
unfolding rsplit_once strip_prefix
no_bracket = refl

no_end : strip_last b']' square_name ≡ none
unfolding strip_last
no_end = refl

matches_pin-cached_name_example :
    matches_pin (codes "squaregolf(cd01)") [] (cached_name (codes "SGO300A") square_name)
    ≡ matches_pin (codes "squaregolf(cd01)") [] square_name
matches_pin-cached_name_example =
    matches_pin-cached_name (codes "squaregolf(cd01)") [] (codes "SGO300A") square_name no_bracket
      no_end
