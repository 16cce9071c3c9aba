-- ===== src/Transport/Selection.antt =====
-- src/ble.rs: `connect`, as a build for either transport has it.
use allsquare.Base.{ℕ, Option, Bytes}
use allsquare.Error.{Error}
use allsquare.Text.{codes}
use allsquare.Transport.Bluez.{BluezTransport}
use allsquare.Transport.Bluez.Connect.{connect_bluez}
use allsquare.Transport.Bluez.Dbus.{Dbus}
use allsquare.Transport.Btleplug.Calls.{System}
use allsquare.Transport.Btleplug.Connect.{Process, Opened, connect}
use allsquare.Transport.Tasks.{Task}

-- With the feature `bluez`.
unfoldable pub ble_connect_bluez :
    {S : Type 0} → Dbus S → ℕ → Option Bytes → Task S Error (BluezTransport S)
ble_connect_bluez b rounds address = connect_bluez b rounds address (codes "hci0")

-- With the feature `btleplug` alone.
unfoldable pub ble_connect_btleplug :
    {W A P : Type 0} → System W A P → ℕ → Option Bytes → Task (Process W A) Error (Opened A P)
ble_connect_btleplug s rounds address = connect s rounds address
