-- ===== src/Bridge.antt =====
-- src/bin/allsquare-frp.rs: the program that streams a device to a controller. Its messages on the
-- standard error stream are left out.
pub mod Consistent
pub mod Arming
pub mod Commands
pub mod Start
pub mod Safety
use allsquare.Base.{
  Bool, true, false, ◌&&◌, ◌||◌, Option, some, none, bytes_eq, Bytes, if◌then◌else◌,
}
use allsquare.Build.{Build}
use allsquare.Club.{
  Club, Handed, right, left, wood3, wood5, wood7, hybrid3, hybrid4, hybrid5, iron3, iron4, iron5,
  iron6, iron7, iron8, iron9, pitching_wedge, gap_wedge, sand_wedge, lob_wedge,
}
use allsquare.Error.{Outcome}
use allsquare.Protocol.Types.{advanced}
use allsquare.Text.{codes, is_some}
use allsquare.Client.Firmware.{Firmware}
use allsquare.Client.Methods.{set_handed, arm, choose_club}
use allsquare.Client.Poll.{poll}
use allsquare.Client.State.{Host, Event, Client}
use allsquare.Frp.Device.{
  Relay, FrpDevice, ControllerCommand, poll_connection, check_controller, set_firmware, set_model,
}
use allsquare.Frp.Events.{send_device_info, handle_event}
use allsquare.Frp.Types.{FrpClub, Handedness}

-- The names of clubs on the command line.
unfoldable pub club_named : Bytes → Club
club_named s =
    if bytes_eq s (codes "7i")
    then iron7
    else if bytes_eq s (codes "3w")
    then wood3
    else if bytes_eq s (codes "3h")
    then hybrid3
    else if bytes_eq s (codes "5h")
    then hybrid5
    else if bytes_eq s (codes "4i")
    then iron4
    else if bytes_eq s (codes "5i")
    then iron5
    else if bytes_eq s (codes "6i")
    then iron6
    else if bytes_eq s (codes "8i")
    then iron8
    else if bytes_eq s (codes "9i")
    then iron9
    else if bytes_eq s (codes "pw")
    then pitching_wedge
    else if bytes_eq s (codes "gw")
    then gap_wedge
    else if bytes_eq s (codes "sw")
    then sand_wedge
    else if bytes_eq s (codes "lw")
    then lob_wedge
    else if bytes_eq s (codes "putter") || bytes_eq s (codes "pt")
    then Club.putter
    else Club.driver

unfoldable pub club_from_arg : Option Bytes → Club
club_from_arg none = club_named (codes "driver")
club_from_arg (some arg) = club_named arg

unfoldable pub club_from_frp : FrpClub → Option Club
club_from_frp FrpClub.driver = some Club.driver
club_from_frp FrpClub.wood3 = some wood3
club_from_frp FrpClub.wood5 = some wood5
club_from_frp FrpClub.wood7 = some wood7
club_from_frp FrpClub.hybrid3 = some hybrid3
club_from_frp FrpClub.hybrid4 = some hybrid4
club_from_frp FrpClub.hybrid5 = some hybrid5
club_from_frp FrpClub.iron3 = some iron3
club_from_frp FrpClub.iron4 = some iron4
club_from_frp FrpClub.iron5 = some iron5
club_from_frp FrpClub.iron6 = some iron6
club_from_frp FrpClub.iron7 = some iron7
club_from_frp FrpClub.iron8 = some iron8
club_from_frp FrpClub.iron9 = some iron9
club_from_frp FrpClub.pitching_wedge = some pitching_wedge
club_from_frp FrpClub.gap_wedge = some gap_wedge
club_from_frp FrpClub.sand_wedge = some sand_wedge
club_from_frp FrpClub.lob_wedge = some lob_wedge
club_from_frp FrpClub.putter = some Club.putter
club_from_frp (FrpClub.unnamed n) = none

unfoldable pub handed_from_frp : Handedness → Handed
handed_from_frp Handedness.right = right
handed_from_frp Handedness.left = left

-- The variables of `main`'s loop.
pub record App (W V Conn F : Type 0) : Type 0 where
  pub client : Client W F
  pub frp : FrpDevice V Conn F
  pub club : Club
  pub armed : Bool

-- How an iteration of the loop ends: with another, or as `main` does.
pub data Next : Type 0 where
  again : Next
  fails : Next
  panics : Next

-- `if let Some(handed) = cmd.handed`.
unfoldable pub with_hand : {W F : Type 0} → Option Handedness → Client W F → Client W F
with_hand none c = c
with_hand (some handed) c = set_handed c (handed_from_frp handed)

-- The club in play after a request.
unfoldable pub with_club : Option FrpClub → Club → Club
with_club none club = club
with_club (some requested) club = elim (club_from_frp requested) [ some c ↦ c | none ↦ club ]

module _ {W V Conn F : Type 0} (h : Host W) where
  unfoldable pub apply_controller_command : ControllerCommand → App W V Conn F → App W V Conn F
  apply_controller_command cmd a =
      let c = with_hand cmd.handed a.client in
      let club = with_club cmd.club a.club in
      let d =
        if a.armed && (is_some cmd.club || is_some cmd.handed)
        then (choose_club h club c).0
        else c in
      record a { client = d; club = club }

  -- The answer to what a controller sent.
  unfoldable pub obey : Option ControllerCommand → App W V Conn F → App W V Conn F
  obey none a = a
  obey (some cmd) a = apply_controller_command cmd a

module _ {W V Conn F : Type 0} (b : Build F) (h : Host W) (r : Relay V Conn F) where
  -- The arm of the loop's `match` for no event.
  unfoldable pub idle : App W V Conn F → App W V Conn F
  idle a =
      let (d, adopted) = poll_connection r a.frp in
      let (e, cmd) = check_controller r d in obey h cmd (record a { frp = e })

  -- `frp.handle_event(&event)`, whose error is printed.
  unfoldable pub forward : Event F → App W V Conn F → App W V Conn F × Next
  forward e a = (record a { frp = (handle_event r b e a.frp).0 }, Next.again)

  -- What follows `client.arm(..)`.
  unfoldable pub after_arm : Event F → Outcome (Unit {0}) → App W V Conn F → App W V Conn F × Next
  after_arm e (Outcome.ok u) a = forward e (record a { armed = true })
  after_arm e (Outcome.err x) a = (a, Next.fails)
  after_arm e Outcome.panic a = (a, Next.panics)

  -- The device's information to the controller, and the arm of the device.
  unfoldable pub on_connected : Event F → Firmware → Bytes → App W V Conn F → App W V Conn F × Next
  on_connected e firmware model a =
      let d = (send_device_info r (set_model model (set_firmware firmware.lm a.frp))).0 in
      let (c, armed) = arm h a.club advanced a.client in
      after_arm e armed (record a { client = c; frp = d })

  -- The arm of the loop's `match` for an event.
  unfoldable pub on_event : Event F → App W V Conn F → App W V Conn F × Next
  on_event (Event.connected firmware hardware id model) a =
      on_connected (Event.connected firmware hardware id model) firmware model a
  on_event e a = forward e a

  unfoldable pub on_poll : Outcome (Option (Event F)) → App W V Conn F → App W V Conn F × Next
  on_poll (Outcome.ok (some e)) a = on_event e a
  on_poll (Outcome.ok none) a = (idle a, Next.again)
  on_poll (Outcome.err x) a = (a, Next.fails)
  on_poll Outcome.panic a = (a, Next.panics)

  -- One iteration of the loop of `main`.
  unfoldable pub iteration : App W V Conn F → App W V Conn F × Next
  iteration a = let (c, polled) = poll b h a.client in on_poll polled (record a { client = c })
