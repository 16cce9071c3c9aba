-- ===== src/Frp/Acceptor/Supply.antt =====
-- The device of src/frp/mod.rs and its acceptor thread, in whatever order they take their steps.
use allsquare.Base.{
  ℕ, zero, suc, ◌+◌, Bool, true, false, List, [], ◌∷◌, Option, some, none, ◌≡◌, refl, ap, subst,
  arith, length, length-append, if◌then◌else◌,
}
use allsquare.Frp.Asking.{IsAsking, IsAsking-Stable}
use allsquare.Frp.Types.{FrpResult, ok, err}
use allsquare.Text.{is_some}
use allsquare.Build.{Build}
use allsquare.Frp.Acceptor.{
  Net, Channels, EndpointConfig, if_open, open_device, try_accept, after_try, take_request, step_at,
  thread_step, take_ready, channel_relay,
}
use allsquare.Frp.Device.{FrpDevice, request_connection, spawn, drop_connection}
use allsquare.Frp.Keeping.{Stable, Call, after_call, call-Keeps}

-- The requests and connections under way are one while the device waits for a connection, and none
-- otherwise.
pub record IsSupplied {U Conn F : Type 0} (d : FrpDevice (Channels U Conn) Conn F) : Type 0 where
  pub supply :
      d.world.requests + (if d.world.working then 1 else 0) + length d.world.ready
      ≡ (if d.pending then 1 else 0)

module _ {U Conn F : Type 0} (n : Net U Conn F) where
  pub requests_taken : (c : Channels U Conn) → ((channel_relay n).request c).1 ≡ true
  unfolding channel_relay
  requests_taken c = refl

  after_try-IsSupplied :
      (d : FrpDevice (Channels U Conn) Conn F) (r : U × Option Conn)
      → d.world.working ≡ true
      → IsSupplied d
      → IsSupplied (record d { world = after_try n d.world r })
  unfolding after_try
  after_try-IsSupplied d (u, some conn) w v = record {
    supply = ground (arith, v.supply, w, length-append d.world.ready (conn ∷ []));
  }
  after_try-IsSupplied d (u, none) w v = record { supply = v.supply }

  take_request-IsSupplied :
      (d : FrpDevice (Channels U Conn) Conn F) (k : ℕ)
      → d.world.working ≡ false
      → d.world.requests ≡ k
      → IsSupplied d
      → IsSupplied (record d { world = take_request n k d.world })
  unfolding take_request
  take_request-IsSupplied d zero w e v = v
  take_request-IsSupplied d (suc k) w e v = record { supply = ground (arith, v.supply, w, e) }

  step_at-IsSupplied :
      (d : FrpDevice (Channels U Conn) Conn F) (working : Bool)
      → d.world.working ≡ working
      → IsSupplied d
      → IsSupplied (record d { world = step_at n working d.world })
  unfolding step_at
  step_at-IsSupplied d true w v = after_try-IsSupplied d (try_accept n d.world.world) w v
  step_at-IsSupplied d false w v = take_request-IsSupplied d d.world.requests w refl v

  waited-IsSupplied :
      (d : FrpDevice (Channels U Conn) Conn F) (ready : List Conn)
      → d.world.ready ≡ ready
      → (take_ready n ready d.world).1 ≡ none
      → IsSupplied d
      → IsSupplied (record d { world = (take_ready n ready d.world).0 })
  unfolding take_ready
  waited-IsSupplied d [] e k v = record { supply = v.supply }
  waited-IsSupplied d (conn ∷ rest) e k v = cc k

  adopted-IsSupplied :
      (d : FrpDevice (Channels U Conn) Conn F) (conn : Conn) (ready : List Conn)
      → d.world.ready ≡ ready
      → (take_ready n ready d.world).1 ≡ some conn
      → IsSupplied d
      → IsSupplied
          (record d { world = (take_ready n ready d.world).0; pending = false; conn = some conn })
  unfolding take_ready
  adopted-IsSupplied d conn [] e k v = cc k
  adopted-IsSupplied d conn (first ∷ rest) e k v = record {
    supply = ground (arith, v.supply, ap length e);
  }

  IsSupplied-Stable : Stable (channel_relay n) IsSupplied
  unfolding channel_relay drop_connection request_connection
  IsSupplied-Stable = record {
    sent = λ d c env v. record { supply = v.supply };
    received = λ d c v. record { supply = v.supply };
    waited = λ d e v. waited-IsSupplied d d.world.ready refl e v;
    adopted = λ d c e v. adopted-IsSupplied d c d.world.ready refl e v;
    dropped = λ d v. record { supply = ground (arith, v.supply) };
    keyed = λ d v. record { supply = v.supply };
    cached = λ d env v. record { supply = v.supply };
    told = λ d x v. record { supply = v.supply };
    named = λ d x v. record { supply = v.supply };
    versioned = λ d x v. record { supply = v.supply };
    modelled = λ d x v. record { supply = v.supply };
  }

-- The devices that a started one becomes, by the calls of its owner and the steps of the acceptor
-- thread, in any order.
pub data Serving {U Conn F : Type 0} (b : Build F) (n : Net U Conn F)
    : FrpDevice (Channels U Conn) Conn F → Type 0 where
  started :
      (config : EndpointConfig) (u : U) {d : FrpDevice (Channels U Conn) Conn F}
      → (open_device n config u).1 ≡ ok d
      → Serving b n d
  calls :
      {d : FrpDevice (Channels U Conn) Conn F} (k : Call F)
      → Serving b n d
      → Serving b n (after_call b (channel_relay n) k d)
  accepts :
      {d : FrpDevice (Channels U Conn) Conn F}
      → Serving b n d
      → Serving b n (record d { world = thread_step n d.world })

module _ {U Conn F : Type 0} (b : Build F) (n : Net U Conn F) where
  -- What an opened device starts with.
  abbrev StartsWell : FrpResult (FrpDevice (Channels U Conn) Conn F) → Type 0
  StartsWell (ok d) = IsAsking d × IsSupplied d
  StartsWell (err e) = Unit {0}

  if_open-StartsWell : (r : U × FrpResult (Unit {0})) → StartsWell (if_open n r).1
  unfolding if_open spawn request_connection channel_relay
  if_open-StartsWell (u, ok t) = (ground arith, record { supply = omega arith })
  if_open-StartsWell (u, err e) = tt

  Serving-StartsWell :
      {d : FrpDevice (Channels U Conn) Conn F} → Serving b n d → IsAsking d × IsSupplied d
  unfolding open_device thread_step
  Serving-StartsWell (started config u e) =
      subst StartsWell e (if_open-StartsWell (n.open_endpoint config u))
  Serving-StartsWell (calls {d} k r) =
      let (v, s) = Serving-StartsWell r in
      (
        call-Keeps b (channel_relay n) IsAsking
            (IsAsking-Stable (channel_relay n) (requests_taken n)) k d v,
        call-Keeps b (channel_relay n) IsSupplied (IsSupplied-Stable n) k d s,
      )
  Serving-StartsWell (accepts {d} r) =
      let (v, s) = Serving-StartsWell r in
      (
        record { asking = v.asking; number_u32 = v.number_u32 },
        step_at-IsSupplied n d d.world.working refl s,
      )

  -- One request yields one connection: whatever the owner of the device calls, the controllers do,
  -- and the order in which the device and its acceptor thread take their steps, exactly one request
  -- or new connection is under way while the device has no controller, and none while it has one.
  pub Serving-supply :
      {d : FrpDevice (Channels U Conn) Conn F}
      → Serving b n d
      → d.world.requests + (if d.world.working then 1 else 0) + length d.world.ready
        ≡ (if is_some d.conn then 0 else 1)
  Serving-supply {d} r = let (v, s) = Serving-StartsWell r in ground (arith, v.asking, s.supply)
