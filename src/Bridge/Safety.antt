-- ===== src/Bridge/Safety.antt =====
-- What holds of `main` of src/bin/allsquare-frp.rs once its loop is entered.
use allsquare.Base.{Option, ◌≡◌, Bytes}
use allsquare.Build.{Build}
use allsquare.Error.{Outcome}
use allsquare.Client.Firmware.{Firmware}
use allsquare.Client.State.{Host}
use allsquare.Frp.Acceptor.{Net, Channels, channel_relay}
use allsquare.Frp.Device.{Relay}
use allsquare.Bridge.{App, Next, again, fails, panics}
use allsquare.Bridge.Arming.{Running}
use allsquare.Bridge.Start.{Launched, exits, crashes, enters}

-- An iteration that does not panic.
abbrev pub Calm : Next → Type 0
Calm again = Unit {0}
Calm fails = Unit {0}
Calm panics = ⊥

module _ {U K W Conn F : Type 0} (b : Build F) (h : Host W) (n : Net U Conn F)
    (scan : Option Bytes → K → K × Outcome (W × Bytes)) where
  abbrev relay : Relay (Channels U Conn) Conn F
  relay = channel_relay n

  -- The loop is entered in a state that it starts from, and with a device that was just opened.
  abbrev EntersRunning : Launched U K W Conn F → Type 0
  EntersRunning (exits u k) = Unit {0}
  EntersRunning (crashes u k) = Unit {0}
  EntersRunning (enters a k) = Running b h relay a

  -- How the loop may end: not by a panic, and where it goes on, in a state that it may be in.
  abbrev Ending : App W (Channels U Conn) Conn F × Next → Type 0
  Ending (a, next) = Calm next × (next ≡ again → Running b h relay a)
