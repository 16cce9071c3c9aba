-- ===== src/Bridge/Commands.antt =====
-- What a controller's command does to the device of src/bin/allsquare-frp.rs.
use allsquare.Base.{ℕ, ◌+◌, ◌%◌, ◌&&◌, ◌||◌, Option, some, none, ◌≡◌, refl, arith, if◌then◌else◌}
use allsquare.Club.{Club, Handed, right, left}
use allsquare.Client.Methods.{set_handed, choose_club, send}
use allsquare.Client.State.{Host, Client}
use allsquare.Frp.Device.{ControllerCommand}
use allsquare.Frp.Types.{FrpClub, Handedness}
use allsquare.Protocol.Command.{encode}
use allsquare.Protocol.Types.{select_club}
use allsquare.Text.{is_some}
use allsquare.Bridge.{
  club_from_frp, handed_from_frp, App, with_hand, with_club, apply_controller_command,
}

-- The club of the Flight Relay Protocol for a club of the device.
abbrev pub frp_club : Club → FrpClub
frp_club Club.driver = FrpClub.driver
frp_club Club.wood3 = FrpClub.wood3
frp_club Club.wood5 = FrpClub.wood5
frp_club Club.wood7 = FrpClub.wood7
frp_club Club.hybrid3 = FrpClub.hybrid3
frp_club Club.hybrid4 = FrpClub.hybrid4
frp_club Club.hybrid5 = FrpClub.hybrid5
frp_club Club.iron3 = FrpClub.iron3
frp_club Club.iron4 = FrpClub.iron4
frp_club Club.iron5 = FrpClub.iron5
frp_club Club.iron6 = FrpClub.iron6
frp_club Club.iron7 = FrpClub.iron7
frp_club Club.iron8 = FrpClub.iron8
frp_club Club.iron9 = FrpClub.iron9
frp_club Club.pitching_wedge = FrpClub.pitching_wedge
frp_club Club.gap_wedge = FrpClub.gap_wedge
frp_club Club.sand_wedge = FrpClub.sand_wedge
frp_club Club.lob_wedge = FrpClub.lob_wedge
frp_club Club.putter = FrpClub.putter

-- The club in force after a command that may name one: the device's club of that name, or the one
-- before where none is named, or one that the device does not have.
pub data InForce : Option FrpClub → Club → Club → Type 0 where
  unsaid : {old : Club} → InForce none old old
  named : {old : Club} (c : Club) → InForce (some (frp_club c)) old c
  unknown : {old : Club} (n : ℕ) → InForce (some (FrpClub.unnamed n)) old old

with_club-InForce :
    (requested : Option FrpClub) (old : Club) → InForce requested old (with_club requested old)
unfolding with_club club_from_frp
with_club-InForce none old = unsaid
with_club-InForce (some FrpClub.driver) old = named Club.driver
with_club-InForce (some FrpClub.wood3) old = named Club.wood3
with_club-InForce (some FrpClub.wood5) old = named Club.wood5
with_club-InForce (some FrpClub.wood7) old = named Club.wood7
with_club-InForce (some FrpClub.hybrid3) old = named Club.hybrid3
with_club-InForce (some FrpClub.hybrid4) old = named Club.hybrid4
with_club-InForce (some FrpClub.hybrid5) old = named Club.hybrid5
with_club-InForce (some FrpClub.iron3) old = named Club.iron3
with_club-InForce (some FrpClub.iron4) old = named Club.iron4
with_club-InForce (some FrpClub.iron5) old = named Club.iron5
with_club-InForce (some FrpClub.iron6) old = named Club.iron6
with_club-InForce (some FrpClub.iron7) old = named Club.iron7
with_club-InForce (some FrpClub.iron8) old = named Club.iron8
with_club-InForce (some FrpClub.iron9) old = named Club.iron9
with_club-InForce (some FrpClub.pitching_wedge) old = named Club.pitching_wedge
with_club-InForce (some FrpClub.gap_wedge) old = named Club.gap_wedge
with_club-InForce (some FrpClub.sand_wedge) old = named Club.sand_wedge
with_club-InForce (some FrpClub.lob_wedge) old = named Club.lob_wedge
with_club-InForce (some FrpClub.putter) old = named Club.putter
with_club-InForce (some (FrpClub.unnamed n)) old = unknown n

-- The hand that a command leaves in force.
abbrev pub hand_after : Option Handedness → Handed → Handed
hand_after none old = old
hand_after (some Handedness.right) old = right
hand_after (some Handedness.left) old = left

module _ {W F : Type 0} where
  with_hand-eq :
      (hand : Option Handedness) (c : Client W F)
      → with_hand hand c ≡ record c { handed = hand_after hand c.handed }
  unfolding with_hand set_handed handed_from_frp
  with_hand-eq none c = refl
  with_hand-eq (some Handedness.right) c = refl
  with_hand-eq (some Handedness.left) c = refl

module _ {W V Conn F : Type 0} (h : Host W) where
  -- After a command the club in force is the one that it names, or, where it names none that the
  -- device has, the one before; likewise the hand. It writes to the device only when the device is
  -- armed and the command names a club or a hand, and then one frame: the selection of the club and
  -- the hand in force.
  pub apply_controller_command-transport :
      (cmd : ControllerCommand) (a : App W V Conn F)
      → let b = apply_controller_command h cmd a in
        let frame = encode (select_club b.club b.client.handed) ((a.client.seq + 1) % 256) in
        InForce cmd.club a.club b.club
        × (b.client.handed ≡ hand_after cmd.handed a.client.handed)
        × (b.client.transport ≡ (
            if a.armed && (is_some cmd.club || is_some cmd.handed)
            then (h.write a.client.transport frame).0
            else a.client.transport))
  unfolding apply_controller_command choose_club send
  apply_controller_command-transport cmd a =
      let e = with_hand-eq cmd.handed a.client in
      (with_club-InForce cmd.club a.club, rw e (ground arith), rw e (ground arith))
