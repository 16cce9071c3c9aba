-- ===== src/Lib.antt =====
-- A model of allsquare, a driver for the Square Golf launch monitors over Bluetooth LE, and the
-- theorems that make it correct.
--
-- The program. A transport (src/bluez.rs or src/btleplug_transport.rs, chosen in src/ble.rs) carries
-- frames of bytes. src/protocol.rs parses notifications and encodes commands; src/client.rs is a
-- client that the caller polls: it reads the device's identity, sends heartbeats, watches the link,
-- drops repeated notifications, and pairs each ball packet with the club packet that it asks for.
-- src/frp streams a client's events to a controller over the Flight Relay Protocol, and
-- src/bin/allsquare-frp.rs is the program that runs both.
--
-- The files.
--   Base       helpers: lists and strings over the native numbers, integers, bits of a byte.
--   Error      src/error.rs. Outcome is Result with a third case, the panic of an index or a slice
--              out of range; index and slice are the slice operations of the language.
--   Club       src/club.rs: Club, Handed, code, from_code; Club/Codes has the laws of the codes.
--   Build      what a build fixes: the feature raw-face-impact, and the operations on f64.
--   Impact     src/impact.rs: the calibration table as a function of the club; Impact/Table its law.
--   Text       the string operations of the standard library; Text/Utf8 is String::from_utf8 and
--              from_utf8_lossy.
--   Protocol   src/protocol.rs: Types, Uuid, Command (encode), Parse (parse and its branches), Names
--              (the names of devices, with matches_pin of src/ble.rs); Safety, Encoding and
--              Pins are proofs.
--   Testing    src/testing.rs: the encoders of notifications; Balls, Clubs and States show that the
--              parser inverts them.
--   Client     src/client.rs: Firmware (Firmware::parse), State (Client and its construction),
--              Methods (arm, disarm, choose_club for select_club, show_units for set_units,
--              green_speed, carry_adjustment), Handle (handle), Poll (poll). Invariant, Safety, Link,
--              Arming, Correlation, Replay and Watchdog are proofs.
--   Transport  the channel and the read that both transports share; Bluez (src/bluez.rs: look, and
--              read_signal, write_signal and read_char for its read, write and read_characteristic),
--              with Bluez/Dbus (the calls on the bus, the properties and the table of
--              characteristics) and Bluez/Connect (connect_bluez for connect, find_device for find,
--              receive_signal for a round of its thread); Bluez/Ending, Keeping and Order are proofs.
--              Selection is connect of src/ble.rs, and Tasks the blocking code of both transports
--              with its logic.
--              Btleplug (src/btleplug_transport.rs: link_up for is_connected, disconnect, which is
--              given what the pump sees meanwhile, drop_transport, pump, stop_pump for the end of an
--              aborted pump, read_notification, write_command, read_value). Btleplug/Calls is
--              the Bluetooth library and the time limits, Btleplug/Scan the search (find, scan,
--              wait_powered, read_advertised_name), Btleplug/Connect the rest of connect with the
--              statics of the process (runtime, take_scanner, park, subscribe), Btleplug/Sessions the
--              attempts that overlap. Btleplug/Ending, Logic, Keeping, Releases, Picks,
--              Sessions/Places, Sessions/Cost and Sessions/Bounds are proofs, as are Lifecycle and
--              Search; Reading makes each transport a Host of the client and has proofs.
--   Frp        src/frp: Types (the values of the relay crate, with the cases and fields that the code
--              names), Convert (src/frp/convert.rs; impact_location is its face_impact), Uuid
--              (uuid_v4), Device and Events (FrpDevice of src/frp/mod.rs), Acceptor (serve,
--              bridge and spawn, as open_device, with the acceptor thread and its channels). Asking,
--              Keeping, Delivery, Acceptor/Supply and Uuid/Shape are proofs.
--   Bridge     src/bin/allsquare-frp.rs: the arguments for a club, a controller's command, and one
--              iteration of the loop of main; Bridge/Start is main from its arguments (launch) to the
--              end of its loop (run_loop). Consistent, Arming, Commands and Safety are proofs.
--   Monitor    src/examples/monitor.rs, without what it prints.
--   Tests      sample surroundings, runs, and each property at a concrete input.
--
-- State and errors. A method of the client is a function from a client to a client and an Outcome,
-- chained by do blocks; a method of the relay device likewise, with the relay's result. What is not
-- this code is a parameter: Build (arithmetic on f64), Host (the transport that a client owns, and
-- the clock in nanoseconds), Bus, Dbus, System and Stack (the calls of the D-Bus and Bluetooth
-- library), and Net and Relay (the relay library and the system clock, without and with the channels
-- of the acceptor thread). A property that relies on one says what it relies on: that reads stay
-- within the buffer (ReadsWithin), that frames are delivered (Delivers), that a link is silent (IsSilent),
-- that what was received is recorded (Records), that requests and links are counted (Counts) or
-- logged (Logs), and sessions too (Costs), that no call turns the clock back and a sleep lasts as
-- long as asked (IsClock), that arithmetic on the wire's values is exact (IsExact),
-- that the acceptor thread takes requests.
--
-- Numbers. Bytes and counters are natural numbers whose wrapping or saturation is written out: the
-- sequence number modulo 256, the heartbeat count up to 2 ^ 32 - 1, the shot number modulo 2 ^ 32
-- (where a build with overflow checks would panic), the words of uuid_v4 modulo 2 ^ 64. Signed wire
-- values are integers. Strings are lists of code points.
--
-- Recursion. The loops follow a list. The UTF-8 decoder takes the length of its input as fuel, and
-- each step takes at least one byte. Replay.drain and Watchdog.watch poll a given number of times:
-- drain as many as there are frames, watch as many as its theorem's bound.
-- Each loop of btleplug's connect has the same number of rounds, and a Task that uses them up has no
-- result: 51 are enough, since the longest wait is of 20 seconds in periods of 400 milliseconds; and
-- 202 for BlueZ's, whose longest wait is of 20 seconds in periods of 100 milliseconds.
--
-- Not modelled: the scheduling of the threads and of the asynchronous runtime, except for the orders
-- of steps that the theorems name; Display and Debug text other than the names of clubs, and what the
-- programs print. A panic of the code that this code calls, such as that of a lock, is not modelled.
pub mod Base
pub mod Error
pub mod Club
pub mod Build
pub mod Impact
pub mod Text
pub mod Protocol
pub mod Testing
pub mod Client
pub mod Transport
pub mod Frp
pub mod Bridge
pub mod Monitor
mod Tests
