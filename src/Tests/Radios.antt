-- ===== src/Tests/Radios.antt =====
-- Attempts to connect at concrete inputs.
use allsquare.Transport.Tasks.{Result, good, bad}
use allsquare.Base.{ℕ, suc, ◌+◌, ◌≤◌, true, false, [], ◌∷◌, some, none, ◌≡◌, refl, arith}
use allsquare.Error.{Error, backend}
use allsquare.Protocol.Uuid
use allsquare.Protocol.Names.{advertised_name, bracketed, is_square_golf}
use allsquare.Text.{codes, starts_with, strip_last, rsplit_once, strip_prefix}
use allsquare.Transport.Btleplug.Calls.{
  Answer, ended, elapsed, powered_on, System, Properties, op, op_result,
}
use allsquare.Transport.Btleplug.Scan.{
  Found, find, search, wait_powered, wait_loop, powered, scan, scan_loop, scan_round, scan_listed,
  scan_list, consider, found_at, match_name, shown_address, accepts, found_or,
}
use allsquare.Transport.Btleplug.{BtleplugTransport, link_closed}
use allsquare.Transport.Lifecycle.{after_step, disconnects}
use allsquare.Transport.Btleplug.Connect.{
  Process, Opened, connect, runtime, built, take_scanner, cached_or_new, open_session,
  first_adapter, attempt, settle, slot_after, result_of, park, after_find, link, if_refused,
  release, after_link, open_transport, subscribe, evt_of, has_uuid, if_unsubscribed, finish,
  opened_name, stack_of, fresh_transport,
}
use allsquare.Transport.Btleplug.Keeping.{Keeps}
use allsquare.Transport.Btleplug.Picks.{Reaches}
use allsquare.Transport.Btleplug.Picks.Scans.{Stops, find-picks}
use allsquare.Transport.Btleplug.Releases.{Counts}
use allsquare.Transport.Btleplug.Releases.Balance.{connect-links}
use allsquare.Transport.Btleplug.Ending.{IsClock}
use allsquare.Transport.Btleplug.Ending.Connects.{connect-Returns}

-- An operating system with one adapter, in the range of one device, which counts links.
pub record Radio : Type 0 where
  pub clock : ℕ
  pub asked : ℕ
  pub released : ℕ
  pub opened : ℕ

abbrev omni : Properties
omni = record { local_name = some (codes "SquareGolf(CD01)"); address = 0; manufacturer_data = [] }

abbrev ready : {A : Type 0} → A → Radio → Radio × Answer A
ready a w = (w, ended a)

-- The device answers on `linking`, and does not where it is `elapsed`.
abbrev pub radio : Answer (Unit {0}) → System Radio ℕ ℕ
radio linking = record {
  build_runtime = λ w. (w, none);
  now = λ w. (w, w.clock);
  sleep = λ d w. record w { clock = w.clock + d };
  new_manager = λ l. ready tt;
  adapters = λ l w. (record w { opened = suc w.opened }, ended (7 ∷ []));
  adapter_state = λ l a. ready powered_on;
  start_scan = λ l a. ready tt;
  stop_scan = λ l a. ready tt;
  peripherals = λ l a. ready (3 ∷ []);
  events = λ l a. ready tt;
  properties = λ l p. ready (some omni);
  connect = λ l p w. (record w { asked = suc w.asked }, linking);
  disconnect = λ l p w. (record w { released = suc w.released }, ended tt);
  is_connected = λ l p. ready true;
  discover_services = λ l p. ready tt;
  characteristics = λ p w. Uuid.cmd ∷ Uuid.evt ∷ [];
  notifications = λ l p. ready tt;
  subscribe = λ l p u. ready tt;
  write = λ l p frame. ready tt;
  read = λ l p uuid. ready (codes "3.1");
  id_text = λ p. codes "5f1a3c9e";
  address_text = λ n. codes "02:00:00:AB:CD:01";
}

abbrev pub started : Process Radio ℕ
started = record {
  world = record { clock = 5; asked = 0; released = 0; opened = 0 };
  runtime = false;
  scanner = none;
}

radio-IsClock : (linking : Answer (Unit {0})) → IsClock (radio linking) (λ w. w.clock)
radio-IsClock linking = record {
  slept = λ d w. omega arith;
  read_after = λ w. omega arith;
  read_before = λ w. omega arith;
  built = λ w. omega arith;
  managed = λ l w. omega arith;
  listed = λ l w. omega arith;
  state_read = λ l a w. omega arith;
  started = λ l a w. omega arith;
  stopped = λ l a w. omega arith;
  scanned = λ l a w. omega arith;
  watched = λ l a w. omega arith;
  described = λ l p w. omega arith;
  connected = λ l p w. omega arith;
  disconnected = λ l p w. omega arith;
  discovered = λ l p w. omega arith;
  notified = λ l p w. omega arith;
  subscribed = λ l p u w. omega arith;
}

connect-Returns_example :
    (r : Process Radio ℕ × Result Error (Opened ℕ ℕ)) × (connect (radio elapsed) 51 none started
      ≡ some r)
    × (5 ≤ r.0.world.clock)
connect-Returns_example =
    connect-Returns (radio elapsed) (λ w. w.clock) (radio-IsClock elapsed) 50 none started
      (omega arith)

abbrev omni_found : Found ℕ
omni_found = record { peripheral = 3; name = codes "SquareGolf(CD01)"; address = codes "5f1a3c9e" }

found_omni :
    find (radio elapsed) 51 7 none started.world
    ≡ some ((record { clock = 400_000_005; asked = 0; released = 0; opened = 0 }), good omni_found)
unfolding find search wait_powered wait_loop powered scan scan_loop scan_round scan_listed scan_list
    consider found_at match_name shown_address accepts found_or op op_result advertised_name
    bracketed starts_with strip_last rsplit_once strip_prefix is_square_golf
found_omni = refl

find-picks_example :
    Stops
      (radio elapsed)
      7
      none
      (Reaches (radio elapsed) started.world)
      omni_found
      (record { clock = 400_000_005; asked = 0; released = 0; opened = 0 })
find-picks_example =
    find-picks (radio elapsed) 51 7 none started.world
      (record { clock = 400_000_005; asked = 0; released = 0; opened = 0 }) omni_found found_omni

radio-Keeps :
    (linking : Answer (Unit {0})) (n m : ℕ)
    → Keeps (radio linking) (λ w. w.asked + m ≡ n + w.released)
radio-Keeps linking n m = record {
  searches = record {
    slept = λ d w h. h;
    read = λ w h. h;
    started = λ l a w h. h;
    stopped = λ l a w h. h;
    scanned = λ l a w h. h;
    described = λ l p w h. h;
  };
  sets_up = record {
    built = λ w h. h;
    managed = λ l w h. h;
    watched = λ l a w h. h;
    discovered = λ l p w h. h;
    notified = λ l p w h. h;
    subscribed = λ l p u w h. h;
  };
  listed = λ l w h. h;
  state_read = λ l a w h. h;
}

radio-Counts :
    (linking : Answer (Unit {0})) → Counts (radio linking) (λ w. w.asked) (λ w. w.released)
radio-Counts linking = record {
  kept = radio-Keeps linking;
  dialled = λ l p w. refl;
  unmoved = λ l p w. refl;
  hung_up = λ l p w. refl;
  unasked = λ l p w. refl;
  queried = λ l p w. refl;
  wrote = λ l p frame w. refl;
  got = λ l p uuid w. refl;
}

-- The device never answers: the attempt has its link released, and parks its session.
abbrev unlinked : Process Radio ℕ
unlinked = record {
  world = record { clock = 650_000_005; asked = 1; released = 1; opened = 1 };
  runtime = true;
  scanner = some 7;
}

no_link :
    connect (radio elapsed) 51 none started ≡ some (unlinked, bad (backend "connect: timed out"))
unfolding connect runtime built take_scanner cached_or_new open_session first_adapter attempt settle
    slot_after result_of park after_find link if_refused release after_link open_transport subscribe
    evt_of has_uuid if_unsubscribed finish opened_name find search wait_powered wait_loop powered
    scan scan_loop scan_round scan_listed scan_list consider found_at match_name shown_address
    accepts found_or op op_result advertised_name bracketed starts_with strip_last rsplit_once
    strip_prefix is_square_golf
no_link = refl

connect-links_example : unlinked.world.asked + 0 ≡ 0 + 0 + unlinked.world.released
connect-links_example =
    connect-links (radio elapsed) (λ w. w.asked) (λ w. w.released) (radio-Counts elapsed) 51 none
      started unlinked (bad (backend "connect: timed out")) no_link

abbrev pub linked_up : Process Radio ℕ
linked_up = record {
  world = record { clock = 900_000_005; asked = 1; released = 0; opened = 1 };
  runtime = true;
  scanner = none;
}

abbrev pub omni_opened : Opened ℕ ℕ
omni_opened = record {
  adapter = 7;
  peripheral = 3;
  name = codes "SquareGolf(CD01)";
  address = codes "5f1a3c9e";
}

pub one_link : connect (radio (ended tt)) 51 none started ≡ some (linked_up, good omni_opened)
unfolding connect runtime built take_scanner cached_or_new open_session first_adapter attempt settle
    slot_after result_of park after_find link if_refused release after_link open_transport subscribe
    evt_of has_uuid if_unsubscribed finish opened_name find search wait_powered wait_loop powered
    scan scan_loop scan_round scan_listed scan_list consider found_at match_name shown_address
    accepts found_or op op_result advertised_name bracketed starts_with strip_last rsplit_once
    strip_prefix is_square_golf
one_link = refl

-- The owner of the transport disconnects, while the pump sees the device go, and drops it.
abbrev hung : BtleplugTransport Radio
hung =
    after_step (stack_of (radio (ended tt)) 3) (disconnects (link_closed true ∷ []))
      (fresh_transport linked_up.world)
