-- ===== src/Frp/Acceptor.antt =====
-- src/frp/mod.rs: the opening of an endpoint, the acceptor thread, and its channels to the device.
pub mod Supply
use allsquare.Base.{
  ℕ, zero, suc, Bool, true, false, List, [], ◌∷◌, ◌++◌, Option, some, none, Bytes, if◌then◌else◌,
}
use allsquare.Client.State.{from_secs}
use allsquare.Frp.Device.{Received, Relay, FrpDevice, spawn}
use allsquare.Frp.Types.{FrpEnvelope, FrpResult, ok, err}
use allsquare.Text.{codes}

-- `EndpointConfig` of a device: whether it listens at its address or dials it, the name it gives, and
-- whether it names the version of the protocol.
pub record EndpointConfig : Type 0 where
  pub listens : Bool
  pub address : Bytes
  pub name : Option Bytes
  pub versioned : Bool

-- The relay library and the operating system, of state `U`: an endpoint, its connections, and time.
pub record Net (U Conn F : Type 0) : Type 0 where
  pub open_endpoint : EndpointConfig → U → U × FrpResult (Unit {0})
  pub establish : U → U × FrpResult Conn
  pub set_nonblocking : U → Conn → U × FrpResult (Unit {0})
  pub sleep : ℕ → U → U
  pub send : U → Conn → FrpEnvelope F → U × FrpResult (Unit {0})
  pub try_recv : U → Conn → U × Received
  pub nanos : U → U × ℕ

-- The requests that wait for the acceptor thread, whether it is at one, and the connections that it
-- has sent to the device.
pub record Channels (U Conn : Type 0) : Type 0 where
  pub world : U
  pub requests : ℕ
  pub working : Bool
  pub ready : List Conn

abbrev pub retry_delay : ℕ
retry_delay = from_secs 2

module _ {U Conn F : Type 0} (n : Net U Conn F) where
  unfoldable pub if_nonblocking : Conn → U × FrpResult (Unit {0}) → U × Option Conn
  if_nonblocking conn (u, ok t) = (u, some conn)
  if_nonblocking conn (u, err e) = (n.sleep retry_delay u, none)

  unfoldable pub if_established : U × FrpResult Conn → U × Option Conn
  if_established (u, ok conn) = if_nonblocking conn (n.set_nonblocking u conn)
  if_established (u, err e) = (n.sleep retry_delay u, none)

  -- One round of the thread's inner loop: a connection, or a pause after a failure.
  unfoldable pub try_accept : U → U × Option Conn
  try_accept u = if_established (n.establish u)

  -- What the thread does with a round: it sends the connection and is done with the request, or tries
  -- again.
  unfoldable pub after_try : Channels U Conn → U × Option Conn → Channels U Conn
  after_try c (u, some conn) = record c { world = u; working = false; ready = c.ready ++ conn ∷ [] }
  after_try c (u, none) = record c { world = u }

  -- `request_rx.recv()`, which waits where there is no request.
  unfoldable pub take_request : ℕ → Channels U Conn → Channels U Conn
  take_request zero c = c
  take_request (suc k) c = record c { requests = k; working = true }

  unfoldable pub step_at : Bool → Channels U Conn → Channels U Conn
  step_at true c = after_try c (try_accept c.world)
  step_at false c = take_request c.requests c

  -- A step of the acceptor thread, while the device is there to receive.
  unfoldable pub thread_step : Channels U Conn → Channels U Conn
  thread_step c = step_at c.working c

  -- `incoming.try_recv()`.
  unfoldable pub take_ready : List Conn → Channels U Conn → Channels U Conn × Option Conn
  take_ready [] c = (c, none)
  take_ready (conn ∷ rest) c = (record c { ready = rest }, some conn)

  abbrev on_net : {A : Type 0} → Channels U Conn → U × A → Channels U Conn × A
  on_net c (u, a) = (record c { world = u }, a)

  -- The device's ends of the channels.
  unfoldable pub channel_relay : Relay (Channels U Conn) Conn F
  channel_relay = record {
    send = λ c conn env. on_net c (n.send c.world conn env);
    try_recv = λ c conn. on_net c (n.try_recv c.world conn);
    request = λ c. (record c { requests = suc c.requests }, true);
    incoming = λ c. take_ready c.ready c;
    nanos = λ c. on_net c (n.nanos c.world);
  }

  abbrev pub Opened : Type 0
  Opened = FrpResult (FrpDevice (Channels U Conn) Conn F)

  unfoldable pub if_open : U × FrpResult (Unit {0}) → U × Opened
  if_open (u, ok t) = (
    u,
    ok (spawn channel_relay (record { world = u; requests = 0; working = false; ready = [] })),
  )
  if_open (u, err e) = (u, err e)

  -- `FrpDevice::spawn`.
  unfoldable pub open_device : EndpointConfig → U → U × Opened
  open_device config u = if_open (n.open_endpoint config u)

  -- `FrpDevice::serve`.
  unfoldable pub serve : Bytes → U → U × Opened
  serve address =
      open_device (record { listens = true; address = address; name = none; versioned = false })

  -- `FrpDevice::bridge`.
  unfoldable pub bridge : Bytes → Bytes → U → U × Opened
  bridge url name =
      open_device (record { listens = false; address = url; name = some name; versioned = true })
