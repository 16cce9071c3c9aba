-- ===== src/Bridge/Start.antt =====
-- src/bin/allsquare-frp.rs: `main`, from its arguments to the end of its loop.
use allsquare.Base.{ℕ, zero, suc, Bool, false, ◌||◌, Option, some, none, Bytes, if◌then◌else◌}
use allsquare.Build.{Build}
use allsquare.Error.{Outcome}
use allsquare.Text.{codes, starts_with}
use allsquare.Client.State.{Host, new_client}
use allsquare.Frp.Acceptor.{Net, Channels, channel_relay, serve, bridge}
use allsquare.Frp.Device.{FrpDevice, set_device_name}
use allsquare.Frp.Types.{FrpResult, ok, err}
use allsquare.Bridge.{App, Next, again, fails, panics, club_from_arg, iteration}

-- The first argument, or the address to serve on.
unfoldable pub target_of : Option Bytes → Bytes
target_of none = codes "0.0.0.0:5880"
target_of (some arg) = arg

unfoldable pub is_bridging : Bytes → Bool
is_bridging target = starts_with (codes "ws://") target || starts_with (codes "wss://") target

-- `main` before its loop: it has failed, or enters the loop. `K` is the state of the radio.
pub data Launched (U K W Conn F : Type 0) : Type 0 where
  exits : U → K → Launched U K W Conn F
  crashes : U → K → Launched U K W Conn F
  enters : App W (Channels U Conn) Conn F → K → Launched U K W Conn F

module _ {U K W Conn F : Type 0} (b : Build F) (h : Host W) (n : Net U Conn F)
    (scan : Option Bytes → K → K × Outcome (W × Bytes)) where
  -- The endpoint, in the direction that the target selects.
  unfoldable pub open_target : Bytes → U → U × FrpResult (FrpDevice (Channels U Conn) Conn F)
  open_target target u =
      if is_bridging target then bridge n target (codes "allsquare") u else serve n target u

  -- What follows `ble::connect`, which gives a transport and its name.
  unfoldable pub after_scan :
      Option Bytes
      → FrpDevice (Channels U Conn) Conn F
      → U
      → K × Outcome (W × Bytes)
      → Launched U K W Conn F
  after_scan arg frp u (k, Outcome.ok (w, name)) =
      enters
        (record {
          client = new_client h b w;
          frp = set_device_name name frp;
          club = club_from_arg arg;
          armed = false;
        })
        k
  after_scan arg frp u (k, Outcome.err e) = exits u k
  after_scan arg frp u (k, Outcome.panic) = crashes u k

  unfoldable pub after_open :
      Option Bytes → K → U × FrpResult (FrpDevice (Channels U Conn) Conn F) → Launched U K W Conn F
  after_open arg k (u, ok frp) = after_scan arg frp u (scan none k)
  after_open arg k (u, err e) = exits u k

  -- `main` up to its loop, with its first and its second argument.
  unfoldable pub launch : Option Bytes → Option Bytes → U → K → Launched U K W Conn F
  launch target arg u k = after_open arg k (open_target (target_of target) u)

  -- What an iteration's end means for the rest of the loop.
  unfoldable pub after_iteration :
      App W (Channels U Conn) Conn F
      → Next
      → App W (Channels U Conn) Conn F × Next
      → App W (Channels U Conn) Conn F × Next
  after_iteration a again rest = rest
  after_iteration a fails rest = (a, fails)
  after_iteration a panics rest = (a, panics)

  -- The loop of `main`, for so many iterations, and how the last of them ended.
  unfoldable pub run_loop :
      ℕ → App W (Channels U Conn) Conn F → App W (Channels U Conn) Conn F × Next
  run_loop zero a = (a, again)
  run_loop (suc i) a =
      let (a', next) = iteration b h (channel_relay n) a in after_iteration a' next (run_loop i a')
