-- ===== src/Client/Methods.antt =====
-- src/client.rs: the setters, and the methods that send a command.
use allsquare.Base.{ℕ, ◌+◌, ◌%◌, min, true, false, Option, some}
use allsquare.Club.{Club, Handed}
use allsquare.Impact.{ImpactCalibration}
use allsquare.Protocol.Command.{encode}
use allsquare.Protocol.Types.{
  SpinMode, advanced, SpeedUnit, DistanceUnit, Command, detect_ball, select_club, set_units,
  set_green_speed, set_carry_adjustment, DeviceState,
}
use allsquare.Client.State.{Host, Client, M, ◌>>◌, update, from_io}

module _ {W F : Type 0} where
  unfoldable pub set_impact_calibration : Client W F → ImpactCalibration F → Client W F
  set_impact_calibration c calibration = record c { impact_calibration = calibration }

  unfoldable pub set_handed : Client W F → Handed → Client W F
  set_handed c handed = record c { handed = handed }

  -- `Client::state`.
  unfoldable pub client_state : Client W F → Option DeviceState
  client_state c = c.state

module _ {W F : Type 0} (h : Host W) where
  unfoldable pub send : Command → M W F (Unit {0})
  send cmd c =
      let seq = (c.seq + 1) % 256 in
      let (w, r) = h.write c.transport (encode cmd seq) in
      (record c { seq = seq; transport = w }, from_io r)

  unfoldable pub arm : Club → SpinMode → M W F (Unit {0})
  arm club spin c =
      (do
        send (select_club club c.handed)
        update (λ (d : Client W F). record d { active_club = some club })
        send (detect_ball true spin))
        c

  unfoldable pub disarm : M W F (Unit {0})
  disarm = send (detect_ball false advanced)

  -- `Client::select_club`.
  unfoldable pub choose_club : Club → M W F (Unit {0})
  choose_club club c =
      (do
        send (select_club club c.handed)
        update (λ (d : Client W F). record d { active_club = some club }))
        c

  -- `Client::set_units`.
  unfoldable pub show_units : SpeedUnit → DistanceUnit → M W F (Unit {0})
  show_units speed distance = send (set_units speed distance)

  -- `Client::set_green_speed`.
  unfoldable pub green_speed : ℕ → M W F (Unit {0})
  green_speed stimp_index = send (set_green_speed (min stimp_index 5))

  -- `Client::set_carry_adjustment`.
  unfoldable pub carry_adjustment : ℕ → M W F (Unit {0})
  carry_adjustment percent = send (set_carry_adjustment percent)
