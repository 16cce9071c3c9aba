-- ===== src/Tests/Buses.antt =====
-- An attempt to connect over the bus at a concrete input.
use Prim.Native.String.{String}
use allsquare.Base.{ℕ, ◌+◌, ◌≤◌, Bool, true, List, [], ◌∷◌, ◌++◌, some, none, ◌≡◌, refl, arith}
use allsquare.Error.{Error}
use allsquare.Protocol.Uuid
use allsquare.Text.{codes, starts_with, strip_prefix}
use allsquare.Text.Utf8.{from_utf8}
use allsquare.Transport.Bluez.{Managed, BluezTransport, look, look_at, shown_name, matched, path_of}
use allsquare.Transport.Bluez.Dbus.{
  Dbus, mapped, checked, backend_error, managed, characteristics, chars_in, insert, uuid_of,
  from_str_radix, digits_from, push_digit, digit_of, without_dashes, prop_set, prop_bool,
  manufacturer_payload, payload_after, first_payload, non_empty,
}
use allsquare.Transport.Bluez.Connect.{
  connect_bluez, find_device, look_now, hit_or_search, connect_to, bring_up, resolve_loop, resolved,
  required, listen_to,
}
use allsquare.Transport.Bluez.Ending.{IsClock}
use allsquare.Transport.Bluez.Ending.Connects.{connect_bluez-Returns}
use allsquare.Transport.Bluez.Order.{
  SetUp, trusts, connects, listens, notifies, Logs, EndsSetUp, connect_bluez-order,
}
use allsquare.Transport.Tasks.{Result, good}

-- A bus with a clock and a log of the calls that set something up.
record Host : Type 0 where
  clock : ℕ
  log : List SetUp

abbrev on_hci0 : List Managed
on_hci0 =
    record {
      path = codes "/hci0/dev";
      device = some (record {
        alias = some (some (codes "SquareGolf(CD01)"));
        name = none;
        address = some (codes "02:00:00:AB:CD:01");
      });
      characteristic = none;
    }
    ∷ record {
      path = codes "/hci0/dev/cmd";
      device = none;
      characteristic = some (some (codes "86602101-6b7e-439a-bdd1-489a3213e9bb"));
    }
    ∷ record {
      path = codes "/hci0/dev/evt";
      device = none;
      characteristic = some (some (codes "86602102-6b7e-439a-bdd1-489a3213e9bb"));
    }
    ∷ []

abbrev fine : {A : Type 0} → A → Host → Host × Result String A
fine a w = (w, good a)

abbrev noted : SetUp → Host → Host × Result String (Unit {0})
noted x w = (record w { log = w.log ++ x ∷ [] }, good tt)

-- The services are resolved or not, and the bus has these objects.
abbrev host_bus : Bool → Dbus Host
host_bus up = record {
  system = fine tt;
  object_path = good;
  proxy = λ path i. fine tt;
  discovery = λ on path. fine tt;
  managed_objects = fine on_hci0;
  set_trusted = λ path. noted (trusts path);
  get_bool = λ path name. fine (some up);
  manufacturer_data = λ path. fine (some ((0xffff, some (codes "0300A")) ∷ []));
  connect_message = λ path. good tt;
  send_connect = λ path. noted (connects path);
  match_rule = λ path. good tt;
  listen = λ path. noted (listens path);
  start_notify = λ path. noted (notifies path);
  spawn = fine tt;
  disconnect = λ path. fine tt;
  now = λ w. (w, w.clock);
  sleep = λ d w. record w { clock = w.clock + d };
}

abbrev idle_host : Host
idle_host = record { clock = 3; log = [] }

host_bus-IsClock : (up : Bool) → IsClock (host_bus up) (λ w. w.clock)
host_bus-IsClock up = record {
  slept = λ d w. omega arith;
  read_after = λ w. omega arith;
  read_before = λ w. omega arith;
  opened = λ w. omega arith;
  proxied = λ path i w. omega arith;
  scanned = λ on path w. omega arith;
  listed = λ w. omega arith;
  trusted = λ path w. omega arith;
  got = λ path name w. omega arith;
  advertised = λ path w. omega arith;
  sent = λ path w. omega arith;
  listened = λ path w. omega arith;
  notified = λ path w. omega arith;
  spawned = λ w. omega arith;
}

connect_bluez-Returns_example :
    (r : Host × Result Error (BluezTransport Host)) × (connect_bluez
        (host_bus true)
        202
        none
        (codes "hci0")
        idle_host
      ≡ some r)
    × (3 ≤ r.0.clock)
connect_bluez-Returns_example =
    connect_bluez-Returns (host_bus true) (λ w. w.clock) (host_bus-IsClock true) 201 none
      (codes "hci0") idle_host (omega arith)

host_bus-Logs : (up : Bool) → Logs (host_bus up) (λ w. w.log)
host_bus-Logs up = record {
  kept = λ l. record {
    slept = λ d w h. h;
    read = λ w h. h;
    opened = λ w h. h;
    proxied = λ path i w h. h;
    scanned = λ on path w h. h;
    listed = λ w h. h;
    got = λ path name w h. h;
    advertised = λ path w h. h;
    spawned = λ w h. h;
  };
  trusted = λ path w. refl;
  connected = λ path w. refl;
  listened = λ path w. refl;
  notified = λ path w. refl;
}

abbrev set_up_host : Host
set_up_host = record {
  clock = 3;
  log =
      trusts (codes "/hci0/dev")
      ∷ connects (codes "/hci0/dev")
      ∷ listens (codes "/hci0/dev/evt")
      ∷ notifies (codes "/hci0/dev/evt")
      ∷ [];
}

abbrev on_host : BluezTransport Host
on_host = record {
  conn = set_up_host;
  cmd_path = codes "/hci0/dev/cmd";
  name = codes "SquareGolf(CD01)";
  address = codes "02:00:00:AB:CD:01";
  model_hint = some (codes "0300A");
  notifications = record { sent = []; sender = true };
  chars = (Uuid.evt, codes "/hci0/dev/evt") ∷ (Uuid.cmd, codes "/hci0/dev/cmd") ∷ [];
}

host_connects :
    connect_bluez (host_bus true) 202 none (codes "hci0") idle_host
    ≡ some (set_up_host, good on_host)
unfolding connect_bluez mapped checked backend_error find_device look_now managed look look_at
    matched shown_name starts_with strip_prefix hit_or_search connect_to manufacturer_payload
    payload_after first_payload non_empty bring_up prop_set resolve_loop prop_bool resolved
    characteristics chars_in insert uuid_of from_str_radix digits_from push_digit digit_of
    without_dashes required path_of listen_to from_utf8
host_connects = refl

connect_bluez-order_example : EndsSetUp (λ w. w.log) idle_host set_up_host (good on_host)
connect_bluez-order_example =
    connect_bluez-order (host_bus true) (λ w. w.log) (host_bus-Logs true) 202 none (codes "hci0")
      idle_host set_up_host (good on_host) host_connects
