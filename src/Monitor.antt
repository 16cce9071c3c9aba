-- ===== src/Monitor.antt =====
-- src/examples/monitor.rs: the example that prints shots. What it prints is left out.
use allsquare.Base.{Option, some, none, ◌||◌, bytes_eq, Bytes, if◌then◌else◌}
use allsquare.Build.{Build}
use allsquare.Club.{
  Club, wood3, hybrid5, iron4, iron5, iron6, iron7, iron8, iron9, pitching_wedge, gap_wedge,
  sand_wedge,
}
use allsquare.Error.{Outcome, NoPanic}
use allsquare.Client.Methods.{arm}
use allsquare.Client.Poll.{poll}
use allsquare.Client.Safety.{ReadsWithin, poll-NoPanic, arm-NoPanic}
use allsquare.Client.State.{Host, Event, Client}
use allsquare.Protocol.Types.{advanced}
use allsquare.Text.{codes}

unfoldable pub monitor_club : Bytes → Club
monitor_club s =
    if bytes_eq s (codes "7i")
    then iron7
    else if bytes_eq s (codes "3w")
    then wood3
    else if bytes_eq s (codes "5h")
    then hybrid5
    else if bytes_eq s (codes "4i")
    then iron4
    else if bytes_eq s (codes "5i")
    then iron5
    else if bytes_eq s (codes "6i")
    then iron6
    else if bytes_eq s (codes "8i")
    then iron8
    else if bytes_eq s (codes "9i")
    then iron9
    else if bytes_eq s (codes "pw")
    then pitching_wedge
    else if bytes_eq s (codes "gw")
    then gap_wedge
    else if bytes_eq s (codes "sw")
    then sand_wedge
    else if bytes_eq s (codes "putter") || bytes_eq s (codes "pt")
    then Club.putter
    else Club.driver

unfoldable pub monitor_arg : Option Bytes → Club
monitor_arg none = monitor_club (codes "driver")
monitor_arg (some arg) = monitor_club arg

module _ {W F : Type 0} (b : Build F) (h : Host W) where
  -- The `match` on what a poll reports: a new link is armed, whose error ends the run.
  unfoldable pub monitor_event :
      Club → Option (Event F) → Client W F → Client W F × Outcome (Unit {0})
  monitor_event club (some (Event.connected firmware hardware id model)) c = arm h club advanced c
  monitor_event club _ c = (c, Outcome.ok tt)

  unfoldable pub monitor_polled :
      Club → Client W F × Outcome (Option (Event F)) → Client W F × Outcome (Unit {0})
  monitor_polled club (c, Outcome.ok event) = monitor_event club event c
  monitor_polled club (c, Outcome.err e) = (c, Outcome.err e)
  monitor_polled club (c, Outcome.panic) = (c, Outcome.panic)

  -- One iteration of the loop of `run`.
  unfoldable pub monitor_iteration : Club → Client W F → Client W F × Outcome (Unit {0})
  monitor_iteration club c = monitor_polled club (poll b h c)

  monitor_event-NoPanic :
      (club : Club) (event : Option (Event F)) (c : Client W F)
      → NoPanic (monitor_event club event c).1
  unfolding monitor_event
  monitor_event-NoPanic club (some (Event.connected firmware hardware id model)) c =
      arm-NoPanic h club advanced c
  monitor_event-NoPanic club _ c = tt

  monitor_polled-NoPanic :
      (club : Club) (polled : Client W F × Outcome (Option (Event F)))
      → NoPanic polled.1
      → NoPanic (monitor_polled club polled).1
  unfolding monitor_polled
  monitor_polled-NoPanic club (c, Outcome.ok event) p = monitor_event-NoPanic club event c
  monitor_polled-NoPanic club (c, Outcome.err e) p = tt
  monitor_polled-NoPanic club (c, Outcome.panic) p = p

  -- An iteration never panics.
  pub monitor_iteration-NoPanic :
      (club : Club) (c : Client W F) → ReadsWithin h → NoPanic (monitor_iteration club c).1
  unfolding monitor_iteration
  monitor_iteration-NoPanic club c within =
      monitor_polled-NoPanic club (poll b h c) (poll-NoPanic b h c within)
