-- ===== src/Tests/Attempts.antt =====
-- Several attempts to connect at concrete inputs.
use allsquare.Transport.Tasks.{good}
use allsquare.Base.{
  if◌then◌else◌, ℕ, suc, ◌+◌, ◌≤◌, true, [], ◌∷◌, some, none, ◌≡◌, refl, arith, ltb, ◌<◌,
}
use allsquare.Error.{Error}
use allsquare.Protocol.Names.{advertised_name, bracketed, is_square_golf}
use allsquare.Text.{starts_with, strip_last, rsplit_once, strip_prefix}
use allsquare.Transport.Btleplug.Calls.{ended, op, op_result}
use allsquare.Transport.Btleplug.Scan.{
  find, search, wait_powered, wait_loop, powered, scan, scan_loop, scan_round, scan_listed,
  scan_list, consider, found_at, match_name, shown_address, accepts, found_or,
}
use allsquare.Transport.Btleplug.Connect.{
  Process, Attempt, gave_up, connect, runtime, built, take_scanner, cached_or_new, open_session,
  first_adapter, attempt, settle, slot_after, result_of, park, after_find, link, if_refused,
  release, after_link, open_transport, subscribe, evt_of, has_uuid, if_unsubscribed, finish,
  opened_name,
}
use allsquare.Transport.Btleplug.Sessions.{
  Sessions, parked, after_attempt, start_from, start_attempt, starts, ends, no_sessions, Reachable,
  initial, later,
}
use allsquare.Transport.Btleplug.Sessions.Places.{occurs, places, Reachable-places}
use allsquare.Transport.Btleplug.Sessions.Cost.{Costs}
use allsquare.Transport.Btleplug.Sessions.Bounds.{Calls, connect-sessions}
use allsquare.Tests.Radios.{Radio, radio, started, linked_up, omni_opened, one_link}

-- Two attempts overlap: both open a session, the first parks its own and the other lets its own go.
abbrev gives_up : Attempt ℕ ℕ
gives_up = gave_up Error.not_found true

abbrev both_started : Sessions
both_started = start_attempt (start_attempt no_sessions)

abbrev one_ended : Sessions
one_ended = after_attempt 0 gives_up (record both_started { scanning = 1 ∷ [] })

abbrev both_ended : Sessions
both_ended = after_attempt 1 gives_up (record one_ended { scanning = [] })

overlap : Reachable ℕ both_ended
unfolding start_from after_attempt
overlap =
    later
      (later (later (later initial (starts no_sessions)) (starts (start_attempt no_sessions)))
        (ends both_started (1 ∷ []) [] 0 gives_up refl))
      (ends one_ended [] [] 1 gives_up refl)

Reachable-places_example :
    (places 1 both_ended ≡ (if ltb 1 both_ended.opened then 1 else 0))
    × (0 < occurs 1 both_ended.retired
        → occurs 1 (parked both_ended.slot) + occurs 1 both_ended.scanning ≡ 0)
Reachable-places_example = Reachable-places 1 overlap

radio-Costs : Costs (radio (ended tt)) (λ w. w.opened) (λ w. w.asked)
radio-Costs = record {
  searching = λ m n. record {
    slept = λ d w h. h;
    read = λ w h. h;
    started = λ l a w h. h;
    stopped = λ l a w h. h;
    scanned = λ l a w h. h;
    described = λ l p w h. h;
  };
  setting_up = λ m n. record {
    built = λ w h. h;
    managed = λ l w h. h;
    watched = λ l a w h. h;
    discovered = λ l p w h. h;
    notified = λ l p w h. h;
    subscribed = λ l p u w h. h;
  };
  hung_up = λ m n l p w h. h;
  listed_opens = λ l w. omega arith;
  listed_spends = λ l w. refl;
  state_opens = λ l a w. refl;
  state_spends = λ l a w. omega arith;
  dial_opens = λ l p w. refl;
  dial_spends = λ l p w. omega arith;
}

-- The first link is released by its transport, and a second call follows.
abbrev released_world : Radio
released_world = record { clock = 900_000_005; asked = 1; released = 1; opened = 1 }

abbrev linked_again : Process Radio ℕ
linked_again = record {
  world = record { clock = 1_800_000_005; asked = 2; released = 1; opened = 2 };
  runtime = true;
  scanner = none;
}

next_link :
    connect (radio (ended tt)) 51 none (record linked_up { world = released_world })
    ≡ some (linked_again, good omni_opened)
unfolding connect runtime built take_scanner cached_or_new open_session first_adapter attempt settle
    slot_after result_of park after_find link if_refused release after_link open_transport subscribe
    evt_of has_uuid if_unsubscribed finish opened_name find search wait_powered wait_loop powered
    scan scan_loop scan_round scan_listed scan_list consider found_at match_name shown_address
    accepts found_or op op_result advertised_name bracketed starts_with strip_last rsplit_once
    strip_prefix is_square_golf
next_link = refl

abbrev two_calls : Calls (radio (ended tt)) (λ w. w.opened) (λ w. w.asked) 51 started linked_again
two_calls =
    Calls.one_more none (good omni_opened)
      (Calls.meanwhile released_world
        (Calls.one_more none (good omni_opened) Calls.no_call one_link) refl refl)
      next_link

connect-sessions_example :
    (linked_again.world.opened + 0 ≡ 0 + 0 + 2)
    × (linked_again.world.opened + 0 ≤ 3)
    × (0 + 2 ≤ suc (linked_again.world.opened + 0))
connect-sessions_example =
    connect-sessions (radio (ended tt)) (λ w. w.opened) (λ w. w.asked) radio-Costs two_calls
