-- ===== src/Transport.antt =====
-- What the transports of src/bluez.rs and src/btleplug_transport.rs share: the channel from the
-- thread or task that receives notifications, and the `read` that takes from it.
pub mod Bluez
pub mod Tasks
pub mod Selection
pub mod Btleplug
pub mod Reading
pub mod Search
pub mod Lifecycle
use allsquare.Base.{ℕ, min, Bool, true, false, List, [], ◌∷◌, ◌++◌, length, take, drop, Bytes}
use allsquare.Error.{Io, done, failed, would_block}

-- A channel of `std::sync::mpsc`: what was sent and not yet received, and whether a sender is left.
pub record Channel : Type 0 where
  pub sent : List Bytes
  pub sender : Bool

pub data Taken : Type 0 where
  payload : Bytes → Taken
  empty : Taken
  disconnected : Taken

-- `Receiver::try_recv`.
unfoldable pub take_from : List Bytes → Bool → Channel × Taken
take_from (v ∷ rest) sender = (record { sent = rest; sender = sender }, payload v)
take_from [] true = (record { sent = []; sender = true }, empty)
take_from [] false = (record { sent = []; sender = false }, disconnected)

-- `buf[..n].copy_from_slice(&v[..n])`, with the count that `read` returns.
unfoldable pub fill : Bytes → Taken → Bytes × Io ℕ
fill buf (payload v) = let n = min (length v) (length buf) in (take n v ++ drop n buf, done n)
fill buf empty = (buf, failed (record { kind = would_block; message = "no notification" }))
fill buf disconnected = (buf, done 0)

-- `Transport::read` of both transports, on their channel.
unfoldable pub read_channel : Channel → Bytes → Channel × Bytes × Io ℕ
read_channel c buf =
    let (rest, taken) = take_from c.sent c.sender in
    let (filled, r) = fill buf taken in (rest, filled, r)
