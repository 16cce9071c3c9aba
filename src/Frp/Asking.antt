-- ===== src/Frp/Asking.antt =====
-- An invariant of every device of src/frp/mod.rs, whatever becomes of its connections.
use allsquare.Frp.Keeping.{Stable, Live, spawned, called, call-Keeps}
use allsquare.Base.{◌^◌, ◌<◌, true, not, ◌≡◌, arith}
use allsquare.Build.{Build}
use allsquare.Text.{is_some}
use allsquare.Frp.Device.{Relay, FrpDevice, request_connection, spawn, drop_connection}

-- A device without a connection has asked for one, one with a connection has not, and the number of
-- its last shot is a `u32`.
pub record IsAsking {V Conn F : Type 0} (d : FrpDevice V Conn F) : Type 0 where
  pub asking : d.pending ≡ not (is_some d.conn)
  pub number_u32 : d.shot_number < 2 ^ 32

module _ {V Conn F : Type 0} (r : Relay V Conn F)
    (requested : (w : V) → (r.request w).1 ≡ true) where
  pub IsAsking-Stable : Stable r IsAsking
  unfolding drop_connection request_connection
  IsAsking-Stable = record {
    sent = λ d c env v. ground arith;
    received = λ d c v. ground arith;
    waited = λ d e v. ground arith;
    adopted = λ d c e v. ground arith;
    dropped = λ d v. ground (arith, requested d.world);
    keyed = λ d v. ground arith;
    cached = λ d env v. ground arith;
    told = λ d x v. ground arith;
    named = λ d n v. ground arith;
    versioned = λ d n v. ground arith;
    modelled = λ d n v. ground arith;
  }

module _ {V Conn F : Type 0} (b : Build F) (r : Relay V Conn F)
    (requested : (w : V) → (r.request w).1 ≡ true) where
  -- While the acceptor thread takes requests, every device that is reached from a spawned one by any
  -- calls has a request pending exactly while it has no connection, however its sends and receives
  -- end, and the number of its last shot is a `u32`.
  pub Live-IsAsking : {d : FrpDevice V Conn F} → Live b r d → IsAsking d
  unfolding spawn request_connection
  Live-IsAsking (spawned w) = ground (arith, requested w)
  Live-IsAsking (called {d} k l) =
      call-Keeps b r IsAsking (IsAsking-Stable r requested) k d (Live-IsAsking l)
