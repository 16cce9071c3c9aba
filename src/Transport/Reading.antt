-- ===== src/Transport/Reading.antt =====
-- The transports of src/bluez.rs and src/btleplug_transport.rs as the surroundings of a client of
-- src/client.rs.
use allsquare.Base.{
  zero, suc, map, ap, ◌∙◌, if◌then◌else◌, ℕ, ◌≤◌, min, Bool, true, false, List, [], ◌∷◌, ◌++◌, none,
  ◌≡◌, refl, arith, length, take, drop, Bytes, length-append, length-drop, length-take_le,
}
use allsquare.Build.{Build}
use allsquare.Error.{would_block, Io, done, failed, NoPanic}
use allsquare.Client.Poll.{poll}
use allsquare.Client.Safety.{ReadsWithin, poll-NoPanic}
use allsquare.Client.State.{Host, Client}
use allsquare.Transport.{
  Channel, Taken, payload, empty, disconnected, take_from, fill, read_channel,
}
use allsquare.Transport.Bluez.{Bus, BluezTransport, read_signal, write_signal, read_char}
use allsquare.Transport.Btleplug.{
  Stack, BtleplugTransport, read_notification, write_command, read_value,
}

-- `impl Transport for BluezTransport`, with a clock that reads the state of the bus.
unfoldable pub bluez_host : {S : Type 0} → Bus S → (S → S × ℕ) → Host (BluezTransport S)
bluez_host b clock = record {
  read = read_signal;
  write = write_signal b;
  read_characteristic = read_char b;
  model_hint = λ t. t.model_hint;
  now = λ t. let (w, n) = clock t.conn in (record t { conn = w }, n);
}

-- `impl Transport for BtleplugTransport`, with a clock that reads the state of the stack.
unfoldable pub btleplug_host : {S : Type 0} → Stack S → (S → S × ℕ) → Host (BtleplugTransport S)
btleplug_host s clock = record {
  read = read_notification;
  write = λ t frame. write_command s frame t;
  read_characteristic = λ t uuid. read_value s uuid t;
  model_hint = λ t. none;
  now = λ t. let (w, n) = clock t.stack in (record t { stack = w }, n);
}

fill-within :
    (buf : Bytes) (taken : Taken)
    → (length (fill buf taken).0 ≡ length buf)
      × ((n : ℕ) → (fill buf taken).1 ≡ done n → n ≤ length buf)
unfolding fill
fill-within buf (payload v) =
    let n = min (length v) (length buf) in
    (
      omega (
        arith,
        length-append (take n v) (drop n buf),
        length-take_le n v (omega arith),
        length-drop n buf,
      ),
      λ k e. ground arith,
    )
fill-within buf empty = (refl, λ k e. cc e)
fill-within buf disconnected = (refl, λ k e. ground arith)

module _ {S : Type 0} where
  bluez_host-ReadsWithin : (b : Bus S) (clock : S → S × ℕ) → ReadsWithin (bluez_host b clock)
  unfolding bluez_host read_signal read_channel
  bluez_host-ReadsWithin b clock t buf =
      fill-within buf (take_from t.notifications.sent t.notifications.sender).1

  btleplug_host-ReadsWithin :
      (s : Stack S) (clock : S → S × ℕ) → ReadsWithin (btleplug_host s clock)
  unfolding btleplug_host read_notification read_channel
  btleplug_host-ReadsWithin s clock t buf =
      fill-within buf (take_from t.notifications.sent t.notifications.sender).1

-- A client over either transport never panics in a poll, whatever the device sends, the bus or the
-- stack answers, and the state of the client and the transport.
pub poll-host :
    {S F : Type 0} (build : Build F) (bus : Bus S) (stack : Stack S) (clock : S → S × ℕ)
    (c : Client (BluezTransport S) F) (d : Client (BtleplugTransport S) F)
    → NoPanic (poll build (bluez_host bus clock) c).1
      × NoPanic (poll build (btleplug_host stack clock) d).1
poll-host build bus stack clock c d = (
  poll-NoPanic build (bluez_host bus clock) c (bluez_host-ReadsWithin bus clock),
  poll-NoPanic build (btleplug_host stack clock) d (btleplug_host-ReadsWithin stack clock),
)

-- What the client takes from a read: the bytes up to the count, or the error.
abbrev pub taken_bytes : Bytes → Io ℕ → Io Bytes
taken_bytes filled (done n) = done (take n filled)
taken_bytes filled (failed e) = failed e

-- The results of `n` reads, each into a buffer like `buf`.
unfoldable pub reads : ℕ → Bytes → Channel → List (Io Bytes)
reads zero buf c = []
reads (suc n) buf c =
    let (rest, filled, r) = read_channel c buf in taken_bytes filled r ∷ reads n buf rest

take-append : (n : ℕ) (v rest : Bytes) → n ≡ length v → take n (take n v ++ rest) ≡ v
take-append zero [] rest e = refl
take-append zero (x ∷ v) rest e = absurd (omega arith)
take-append (suc n) [] rest e = absurd (omega arith)
take-append (suc n) (x ∷ v) rest e = rw (take-append n v rest (omega arith)) refl

reads_cons :
    (n : ℕ) (v : Bytes) (vs : List Bytes) (buf : Bytes) (sender : Bool)
    → length v ≤ length buf
    → reads (suc n) buf (record { sent = v ∷ vs; sender = sender })
      ≡ done v ∷ reads n buf (record { sent = vs; sender = sender })
unfolding reads read_channel take_from fill
reads_cons n v vs buf sender h =
    let m = min (length v) (length buf) in
    ap (λ x. done x ∷ reads n buf (record { sent = vs; sender = sender }))
      (take-append m v (drop m buf) (omega arith))

abbrev pub AllWithin : ℕ → List Bytes → Type 0
AllWithin n [] = Unit {0}
AllWithin n (v ∷ vs) = (length v ≤ n) × AllWithin n vs

-- Reads return what was sent, in order and whole where it fits into the buffer, also when the sender
-- is gone; only then does a read return nothing, which is how a client learns that the link is lost,
-- while a sender that is still there makes it an error that the client waits on.
pub reads-sent :
    (vs : List Bytes) (buf : Bytes) (sender : Bool)
    → AllWithin (length buf) vs
    → reads (suc (length vs)) buf (record { sent = vs; sender = sender })
      ≡ map done vs
        ++ (if sender
            then failed (record { kind = would_block; message = "no notification" })
            else done [])
          ∷ []
unfolding reads read_channel take_from fill
reads-sent [] buf true h = refl
reads-sent [] buf false h = refl
reads-sent (v ∷ vs) buf sender h =
    reads_cons (suc (length vs)) v vs buf sender h.0
    ∙ ap (λ rest. done v ∷ rest) (reads-sent vs buf sender h.1)
