-- ===== src/Client/State.antt =====
-- src/client.rs: the transport, the events, the client's state, and the methods' monad.
use allsquare.Base.{ℕ, ◌*◌, Bool, false, List, [], Option, none, Bytes}
use allsquare.Build.{Build}
use allsquare.Club.{Club, Handed, right}
use allsquare.Error.{Io, done, failed, Error, Outcome, ok, err, panic}
use allsquare.Impact.{ImpactCalibration, default}
use allsquare.Protocol.Types.{
  DeviceState, ChargingState, BallMetrics, ClubMetrics, Sensor, heartbeat_secs,
}
use allsquare.Client.Firmware.{Firmware}

-- The surroundings of a client, of state `W`: the `Transport` that it owns, and the clock behind
-- `Instant::now`, in nanoseconds. `read` is given the buffer and leaves the buffer that it filled.
pub record Host (W : Type 0) : Type 0 where
  pub read : W → Bytes → W × Bytes × Io ℕ
  pub write : W → Bytes → W × Io (Unit {0})
  pub read_characteristic : W → ℕ → W × Io Bytes
  pub model_hint : W → Option Bytes
  pub now : W → W × ℕ

pub data Event (F : Type 0) : Type 0 where
  connected : Firmware → Bytes → Bytes → Bytes → Event F
  state_changed : DeviceState → Event F
  sensor : Sensor → Event F
  shot : BallMetrics F → Option (ClubMetrics F) → Event F
  battery : ℕ → ChargingState → Event F
  clock : ℕ → Event F
  alignment : F → Event F

pub data Phase : Type 0 where
  connecting active : Phase

-- `Duration::from_secs`.
abbrev pub from_secs : ℕ → ℕ
from_secs n = n * 1_000_000_000

abbrev pub default_link_timeout : ℕ
default_link_timeout = from_secs (3 * heartbeat_secs)

abbrev pub unanswered_heartbeats : ℕ
unanswered_heartbeats = 2

pub record Client (W F : Type 0) : Type 0 where
  pub transport : W
  pub phase : Phase
  pub seq : ℕ
  pub last_rx : Bytes
  pub queue : List (Event F)
  pub last_heartbeat : ℕ
  pub heartbeat_interval : ℕ
  pub last_data : ℕ
  pub unanswered : ℕ
  pub link_timeout : ℕ
  pub state : Option DeviceState
  pub pending_shot : Option (BallMetrics F)
  pub awaiting_club : Bool
  pub handed : Handed
  pub active_club : Option Club
  pub impact_calibration : ImpactCalibration F

-- A method: it may change the client, and comes to an outcome.
abbrev pub M : Type 0 → Type 0 → Type 0 → Type 0
M W F A = Client W F → Client W F × Outcome A

module _ {W F A B : Type 0} where
  abbrev pub continue : Client W F × Outcome A → (A → M W F B) → Client W F × Outcome B
  continue (c, ok a) f = f a c
  continue (c, err e) f = (c, err e)
  continue (c, panic) f = (c, panic)

  infixl 5 ◌>>=◌ ◌>>◌
  abbrev pub ◌>>=◌ : M W F A → (A → M W F B) → M W F B
  ◌>>=◌ m f c = continue (m c) f

  abbrev pub ◌>>◌ : M W F A → M W F B → M W F B
  ◌>>◌ m k c = continue (m c) (λ _. k)

module _ {W F A : Type 0} where
  abbrev pub pure : A → M W F A
  pure a c = (c, ok a)

  abbrev pub fail : Error → M W F A
  fail e c = (c, err e)

  -- A computation that does not touch the client.
  abbrev pub lift : Outcome A → M W F A
  lift r c = (c, r)

-- An assignment to fields.
abbrev pub update : {W F : Type 0} → (Client W F → Client W F) → M W F (Unit {0})
update f c = (f c, ok tt)

-- `?` on an `io::Result`.
abbrev pub from_io : {A : Type 0} → Io A → Outcome A
from_io (done a) = ok a
from_io (failed e) = err (Error.transport e)

module _ {W F : Type 0} (h : Host W) where
  -- `Instant::now()`.
  unfoldable pub now : M W F ℕ
  now c = let (w, t) = h.now c.transport in (record c { transport = w }, ok t)

  -- `self.transport.read_characteristic(uuid)?`.
  unfoldable pub read_characteristic : ℕ → M W F Bytes
  read_characteristic uuid c =
      let (w, r) = h.read_characteristic c.transport uuid in (record c { transport = w }, from_io r)

  -- `Client::new`.
  unfoldable pub new_client : Build F → W → Client W F
  unfolding default
  new_client b w =
      let (w1, t1) = h.now w in
      let (w2, t2) = h.now w1 in
      record {
        transport = w2;
        phase = connecting;
        seq = 0;
        last_rx = [];
        queue = [];
        last_heartbeat = t1;
        heartbeat_interval = from_secs heartbeat_secs;
        last_data = t2;
        unanswered = 0;
        link_timeout = default_link_timeout;
        state = none;
        pending_shot = none;
        awaiting_club = false;
        handed = right;
        active_club = none;
        impact_calibration = default b;
      }
