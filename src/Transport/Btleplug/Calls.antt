-- ===== src/Transport/Btleplug/Calls.antt =====
-- src/btleplug_transport.rs: the calls on the Bluetooth library, their time limits, and how an
-- operation ends.
use Prim.Native.String.{String, ◌++◌}
use allsquare.Transport.Tasks.{Result, good, bad, Task, from_millis}
use allsquare.Base.{ℕ, Bool, List, Option, some, Bytes}
use allsquare.Client.State.{from_secs}
use allsquare.Error.{Error, backend}

abbrev pub scan_timeout : ℕ
scan_timeout = from_secs 20

abbrev pub settle_time : ℕ
settle_time = from_millis 250

abbrev pub init_timeout : ℕ
init_timeout = from_secs 10

abbrev pub connect_timeout : ℕ
connect_timeout = from_secs 10

abbrev pub op_timeout : ℕ
op_timeout = from_secs 5

abbrev pub cancel_timeout : ℕ
cancel_timeout = from_secs 1

abbrev pub name_wait : ℕ
name_wait = from_secs 2

abbrev pub name_poll : ℕ
name_poll = from_millis 200

abbrev pub state_grace : ℕ
state_grace = from_secs 2

-- How a call of the library ends under `timeout`: with its value, with `Error::PermissionDenied` or
-- another error and its text, or not within the limit.
pub data Answer (A : Type 0) : Type 0 where
  ended : A → Answer A
  denied refused : String → Answer A
  elapsed : Answer A

pub data CentralState : Type 0 where
  unknown powered_on powered_off : CentralState

-- `PeripheralProperties`, with the fields that the scan reads; an address is a number.
pub record Properties : Type 0 where
  pub local_name : Option Bytes
  pub address : ℕ
  pub manufacturer_data : List (ℕ × Bytes)

-- The libraries: `W` is the state of the operating system and its clock, `A` an adapter, `P` a
-- peripheral. A call with a time limit is given it.
pub record System (W A P : Type 0) : Type 0 where
  pub build_runtime : W → W × Option String
  pub now : W → W × ℕ
  pub sleep : ℕ → W → W
  pub new_manager : ℕ → W → W × Answer (Unit {0})
  pub adapters : ℕ → W → W × Answer (List A)
  pub adapter_state : ℕ → A → W → W × Answer CentralState
  pub start_scan : ℕ → A → W → W × Answer (Unit {0})
  pub stop_scan : ℕ → A → W → W × Answer (Unit {0})
  pub peripherals : ℕ → A → W → W × Answer (List P)
  pub events : ℕ → A → W → W × Answer (Unit {0})
  pub properties : ℕ → P → W → W × Answer (Option Properties)
  pub connect : ℕ → P → W → W × Answer (Unit {0})
  pub disconnect : ℕ → P → W → W × Answer (Unit {0})
  pub is_connected : ℕ → P → W → W × Answer Bool
  pub discover_services : ℕ → P → W → W × Answer (Unit {0})
  pub characteristics : P → W → List ℕ
  pub notifications : ℕ → P → W → W × Answer (Unit {0})
  pub subscribe : ℕ → P → ℕ → W → W × Answer (Unit {0})
  pub write : ℕ → P → Bytes → W → W × Answer (Unit {0})
  pub read : ℕ → P → ℕ → W → W × Answer Bytes
  pub id_text : P → Bytes
  pub address_text : ℕ → Bytes

-- `op`, from how the call ended.
unfoldable pub op_result : {A : Type 0} → String → Answer A → Result Error A
op_result name (ended a) = good a
op_result name (denied e) =
    bad (backend (name ++ ": Bluetooth permission denied for this application"))
op_result name (refused e) = bad (backend (name ++ (": " ++ e)))
op_result name elapsed = bad (backend (name ++ ": timed out"))

-- `op`.
unfoldable pub op : {W A : Type 0} → String → (W → W × Answer A) → Task W Error A
op name f w = let (w', a) = f w in some (w', op_result name a)
