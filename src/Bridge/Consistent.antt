-- ===== src/Bridge/Consistent.antt =====
-- An invariant of the loop of src/bin/allsquare-frp.rs, and an iteration without an event.
use allsquare.Base.{Bool, true, false, Option, none, some, ◌≡◌, refl, arith}
use allsquare.Build.{Build}
use allsquare.Club.{Club}
use allsquare.Protocol.Types.{SpinMode}
use allsquare.Client.Invariant.{IsSound, choose_club-Keeps}
use allsquare.Client.Methods.{set_handed, send, arm, choose_club}
use allsquare.Client.State.{Host, Phase, connecting, active, Client}
use allsquare.Frp.Device.{check_on, Relay, ControllerCommand, poll_connection, check_controller}
use allsquare.Frp.Asking.{IsAsking, IsAsking-Stable}
use allsquare.Frp.Keeping.{poll_connection-Keeps, check_on-Keeps}
use allsquare.Frp.Types.{Handedness}
use allsquare.Bridge.{App, with_hand, with_club, apply_controller_command, obey, idle}

abbrev pub is_active : Phase → Bool
is_active connecting = false
is_active active = true

-- The device is armed exactly while the client is past its identity reads; the client is sound,
-- and the controller's side has a request pending exactly while it has no connection.
pub record IsConsistent {W V Conn F : Type 0} (a : App W V Conn F) : Type 0 where
  pub arming : a.armed ≡ is_active a.client.phase
  pub sound : IsSound a.client
  pub asking : IsAsking a.frp

module _ {W F : Type 0} (h : Host W) where
  with_hand-IsSound :
      (hand : Option Handedness) (c : Client W F)
      → IsSound c
      → IsSound (with_hand hand c) × ((with_hand hand c).phase ≡ c.phase)
  unfolding with_hand set_handed
  with_hand-IsSound none c v = (v, refl)
  with_hand-IsSound (some x) c v = ground arith

  choose_club-phase : (club : Club) (c : Client W F) → (choose_club h club c).0.phase ≡ c.phase
  unfolding choose_club send
  choose_club-phase club c = ground arith

  pub arm-phase :
      (club : Club) (spin : SpinMode) (c : Client W F) → (arm h club spin c).0.phase ≡ c.phase
  unfolding arm send
  arm-phase club spin c = ground arith

module _ {W V Conn F : Type 0} (h : Host W) where
  obey-IsConsistent :
      (cmd : Option ControllerCommand) (a : App W V Conn F)
      → IsConsistent a
      → IsConsistent (obey h cmd a)
  unfolding obey apply_controller_command
  obey-IsConsistent none a v = v
  obey-IsConsistent (some cmd) a v =
      let (s, p) = with_hand-IsSound h cmd.handed a.client v.sound in
      let c = with_hand cmd.handed a.client in
      let club = with_club cmd.club a.club in
      ground
        (arith, v.arming, v.asking, s, p, choose_club-phase h club c, choose_club-Keeps h club c s)

module _ {W V Conn F : Type 0} (b : Build F) (h : Host W) (r : Relay V Conn F)
    (requested : (w : V) → (r.request w).1 ≡ true) where
  pub idle-IsConsistent : (a : App W V Conn F) → IsConsistent a → IsConsistent (idle b h r a)
  unfolding idle check_controller
  idle-IsConsistent a v =
      let d = (poll_connection r a.frp).0 in
      let kept = poll_connection-Keeps r IsAsking (IsAsking-Stable r requested) a.frp v.asking in
      let e = check_on r d.conn d in
      obey-IsConsistent h e.1 (record a { frp = e.0 })
        (record {
          arming = v.arming;
          sound = v.sound;
          asking = check_on-Keeps r IsAsking (IsAsking-Stable r requested) d.conn d kept;
        })
