-- ===== src/Transport/Btleplug/Scan.antt =====
-- src/btleplug_transport.rs: waiting for power, the scan, and the wait for an advertised name.
use allsquare.Transport.Tasks.{
  from_millis, Result, good, bad, Task, give, raise, call, pause, ◌>>=◌, ◌>>◌,
}
use allsquare.Base.{
  ℕ, zero, suc, ◌+◌, Bool, true, false, ◌==◌, List, [], ◌∷◌, Option, some, none, Bytes,
  if◌then◌else◌, leb, ltb,
}
use allsquare.Error.{Error, backend, not_found}
use allsquare.Protocol.Names.{advertised_name, is_square_golf, matches_pin}
use allsquare.Transport.Bluez.{or_default}
use allsquare.Transport.Btleplug.Calls.{
  scan_timeout, op_timeout, name_wait, name_poll, state_grace, Answer, ended, CentralState,
  powered_on, powered_off, unknown, Properties, System, op,
}

-- A device found by scanning.
pub record Found (P : Type 0) : Type 0 where
  pub peripheral : P
  pub name : Bytes
  pub address : Bytes

-- Why a scan ended without a device.
pub record ScanFailure : Type 0 where
  pub error : Error
  pub reusable : Bool

-- `From<Error> for ScanFailure`.
unfoldable pub from_error : Error → ScanFailure
from_error e = record { error = e; reusable = true }

abbrev pub scan_error_at :
    {W A : Type 0} → Option (W × Result Error A) → Option (W × Result ScanFailure A)
scan_error_at none = none
scan_error_at (some (w, good a)) = some (w, good a)
scan_error_at (some (w, bad e)) = some (w, bad (from_error e))

-- What `?` does to an error where the scan's are due.
abbrev pub scan_error : {W A : Type 0} → Task W Error A → Task W ScanFailure A
scan_error m w = scan_error_at (m w)

-- `local_name.as_deref().and_then(advertised_name)` of the properties, if there are any.
unfoldable pub name_in : Answer (Option Properties) → Option Bytes
name_in (ended (some props)) = elim props.local_name [ some n ↦ advertised_name n | none ↦ none ]
name_in _ = none

-- `unwrap_or`.
abbrev pub or_else : Bytes → Option Bytes → Bytes
or_else d none = d
or_else d (some n) = n

-- The `match` on the pinned address.
unfoldable pub accepts : Option Bytes → Bytes → Properties → Bool
accepts (some want) addr props = matches_pin want addr (or_default props.local_name)
accepts none addr props = is_square_golf (or_default props.local_name) props.manufacturer_data

module _ {W A P : Type 0} (s : System W A P) where
  -- The loop of `wait_powered`, after a state was read.
  unfoldable pub powered :
      ℕ → CentralState → Task W ScanFailure (Unit {0}) → Task W ScanFailure (Unit {0})
  powered deadline powered_on rest = give tt
  powered deadline powered_off rest =
      raise (record { error = backend "Bluetooth is powered off"; reusable = false })
  powered deadline unknown rest = do
    t ← call s.now
    if leb deadline t then give tt else (pause (s.sleep (from_millis 100)) >> rest)

  unfoldable pub wait_loop : ℕ → ℕ → A → Task W ScanFailure (Unit {0})
  wait_loop zero deadline a w = none
  wait_loop (suc n) deadline a w =
      (do
        state ← scan_error (op "adapter state" (s.adapter_state op_timeout a))
        powered deadline state (wait_loop n deadline a))
        w

  -- `wait_powered`.
  unfoldable pub wait_powered : ℕ → A → Task W ScanFailure (Unit {0})
  wait_powered rounds a = do t ← call s.now; wait_loop rounds (t + state_grace) a

  -- The identifier of a peripheral: macOS reports zeros for its address.
  unfoldable pub shown_address : P → Properties → Bytes
  shown_address p props = if props.address == 0 then s.id_text p else s.address_text props.address

  module _ {E : Type 0} where
    -- The loop of `read_advertised_name`, after the properties were read.
    unfoldable pub named : ℕ → Option Bytes → Task W E (Option Bytes) → Task W E (Option Bytes)
    named deadline (some name) rest = give (some name)
    named deadline none rest = do
      t ← call s.now
      if leb deadline t then give none else (pause (s.sleep name_poll) >> rest)

    unfoldable pub name_loop : ℕ → ℕ → P → Task W E (Option Bytes)
    name_loop zero deadline p w = none
    name_loop (suc n) deadline p w =
        (do
          answer ← call (s.properties op_timeout p)
          named deadline (name_in answer) (name_loop n deadline p))
          w

    -- `read_advertised_name`.
    unfoldable pub read_advertised_name : ℕ → P → ℕ → Task W E (Option Bytes)
    read_advertised_name rounds p limit = do t ← call s.now; name_loop rounds (t + limit) p

    -- The name of a match: the advertised one, which may have yet to arrive where nothing is pinned.
    unfoldable pub match_name : ℕ → Option Bytes → P → Bytes → Option Bytes → Task W E Bytes
    match_name rounds pin p reported (some name) = give name
    match_name rounds none p reported none = do
      name ← read_advertised_name rounds p name_wait
      give (or_else reported name)
    match_name rounds (some want) p reported none = give reported

    unfoldable pub found_at : ℕ → Option Bytes → P → Properties → Task W E (Option (Found P))
    found_at rounds pin p props = do
      let reported = or_default props.local_name
      name ← match_name rounds pin p reported (advertised_name reported)
      give (some (record { peripheral = p; name = name; address = shown_address p props }))

    -- A round of the scan's inner loop, with `rest` for the peripherals that follow.
    unfoldable pub consider :
        ℕ
        → Option Bytes
        → P
        → Answer (Option Properties)
        → Task W E (Option (Found P))
        → Task W E (Option (Found P))
    consider rounds pin p (ended (some props)) rest =
        if accepts pin (shown_address p props) props then found_at rounds pin p props else rest
    consider rounds pin p _ rest = rest

    unfoldable pub scan_list : ℕ → Option Bytes → List P → Task W E (Option (Found P))
    scan_list rounds pin [] w = some (w, good none)
    scan_list rounds pin (p ∷ ps) w =
        (do
          answer ← call (s.properties op_timeout p)
          consider rounds pin p answer (scan_list rounds pin ps))
          w

    unfoldable pub scan_listed : ℕ → Option Bytes → Answer (List P) → Task W E (Option (Found P))
    scan_listed rounds pin (ended ps) = scan_list rounds pin ps
    scan_listed rounds pin _ = give none

    abbrev pub or_again :
        Option (Found P) → Task W E (Option (Found P)) → Task W E (Option (Found P))
    or_again (some found) rest = give (some found)
    or_again none rest = rest

    -- The body of the loop of `scan`, with `again` for the rounds that follow.
    unfoldable pub scan_round :
        ℕ → A → Option Bytes → Task W E (Option (Found P)) → Task W E (Option (Found P))
    scan_round rounds a pin again = do
      pause (s.sleep (from_millis 400))
      listed ← call (s.peripherals op_timeout a)
      found ← scan_listed rounds pin listed
      or_again found again

    -- The loop of `scan`: `n` rounds are left to it, and `rounds` to each wait for a name.
    unfoldable pub scan_loop : ℕ → ℕ → ℕ → A → Option Bytes → Task W E (Option (Found P))
    scan_loop zero rounds deadline a pin w = none
    scan_loop (suc n) rounds deadline a pin w =
        (do
          t ← call s.now
          if ltb t deadline
              then scan_round rounds a pin (scan_loop n rounds deadline a pin)
              else give none)
          w

    -- `scan`.
    unfoldable pub scan : ℕ → A → Option Bytes → Task W E (Option (Found P))
    scan rounds a pin = do t ← call s.now; scan_loop rounds rounds (t + scan_timeout) a pin

  -- `ok_or_else`.
  unfoldable pub found_or : Option (Found P) → Task W ScanFailure (Found P)
  found_or (some found) = give found
  found_or none = raise (from_error not_found)

  -- What `find` does once Bluetooth is on.
  unfoldable pub search : ℕ → A → Option Bytes → Task W ScanFailure (Found P)
  search rounds a pin = do
    scan_error (op "scan" (s.start_scan op_timeout a))
    found ← scan rounds a pin
    stopped ← call (s.stop_scan op_timeout a)
    found_or found

  -- `find`.
  unfoldable pub find : ℕ → A → Option Bytes → Task W ScanFailure (Found P)
  find rounds a pin = do wait_powered rounds a; search rounds a pin
