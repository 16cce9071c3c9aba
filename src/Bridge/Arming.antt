-- ===== src/Bridge/Arming.antt =====
-- The loop of src/bin/allsquare-frp.rs arms the device when the client has made its link.
use allsquare.Base.{true, false, Option, none, some, ◌≡◌, refl, ◌∙◌, ap, arith, Bytes}
use allsquare.Build.{Build}
use allsquare.Error.{Outcome, ok, err, panic}
use allsquare.Protocol.Types.{advanced}
use allsquare.Client.Invariant.{Reachable-IsSound, made, IsSound, arm-Keeps, poll-Keeps}
use allsquare.Client.Link.{poll-eq-phase, IsLater, Links, poll_active-Stays, poll_connecting-Links}
use allsquare.Client.Methods.{arm}
use allsquare.Client.Poll.{poll_connecting, poll_active, poll_phase}
use allsquare.Client.State.{Host, Event, Phase, connecting, active, Client, new_client}
use allsquare.Frp.Device.{set_firmware, set_model, Relay, FrpDevice, spawn, set_device_name}
use allsquare.Frp.Events.{send_device_info}
use allsquare.Frp.Asking.{Live-IsAsking, IsAsking, IsAsking-Stable}
use allsquare.Frp.Keeping.{spawned, handle_event-Keeps, send_telemetry-Keeps}
use allsquare.Bridge.{
  club_from_arg, App, Next, forward, after_arm, on_connected, on_event, on_poll, iteration,
}
use allsquare.Bridge.Consistent.{IsConsistent, is_active, arm-phase, idle-IsConsistent}

module _ {W V Conn F : Type 0} (b : Build F) (h : Host W) (r : Relay V Conn F)
    (requested : (w : V) → (r.request w).1 ≡ true) where
  forward-IsConsistent :
      (e : Event F) (a : App W V Conn F) → IsConsistent a → IsConsistent (forward b h r e a).0
  unfolding forward
  forward-IsConsistent e a v = record {
    arming = v.arming;
    sound = v.sound;
    asking = handle_event-Keeps r IsAsking (IsAsking-Stable r requested) b e a.frp v.asking;
  }

  -- The device of a new link, with its information sent.
  informed-IsAsking :
      (fw : Bytes) (model : Bytes) (d : FrpDevice V Conn F)
      → IsAsking d
      → IsAsking (send_device_info r (set_model model (set_firmware fw d))).0
  unfolding send_device_info set_model set_firmware
  informed-IsAsking fw model d v =
      send_telemetry-Keeps r IsAsking (IsAsking-Stable r requested) none none
        (set_model model (set_firmware fw d)) (ground arith)

  after_arm-IsConsistent :
      (e : Event F) (armed : Outcome (Unit {0})) (a : App W V Conn F)
      → a.client.phase ≡ active
      → IsSound a.client
      → IsAsking a.frp
      → (after_arm b h r e armed a).1 ≡ Next.again
      → IsConsistent (after_arm b h r e armed a).0
  unfolding after_arm
  after_arm-IsConsistent e (ok u) a p s k g =
      forward-IsConsistent e (record a { armed = true })
        (record { arming = rw p refl; sound = s; asking = k })
  after_arm-IsConsistent e (err x) a p s k g = cc g
  after_arm-IsConsistent e panic a p s k g = cc g

  -- What the loop does with a poll of a client that has yet to make its link.
  linking-IsConsistent :
      (polled : Client W F × Outcome (Option (Event F))) (a : App W V Conn F)
      → Links b h polled
      → IsSound polled.0
      → IsAsking a.frp
      → (on_poll b h r polled.1 (record a { client = polled.0 })).1 ≡ Next.again
      → IsConsistent (on_poll b h r polled.1 (record a { client = polled.0 })).0
  unfolding on_poll on_event on_connected
  linking-IsConsistent (c, ok (some (Event.connected fw hw id model))) a l s k g =
      let armed = arm h a.club advanced c in
      after_arm-IsConsistent _ armed.1 _ (arm-phase h a.club advanced c ∙ l)
        (arm-Keeps h a.club advanced c s) (informed-IsAsking fw.lm model a.frp k) g
  linking-IsConsistent (c, err x) a l s k g = cc g
  linking-IsConsistent (c, panic) a l s k g = cc g
  linking-IsConsistent (c, ok _) a l s k g = absurd l

  -- What the loop does with a poll of an active client.
  later-IsConsistent :
      (polled : Client W F × Outcome (Option (Event F))) (a : App W V Conn F)
      → polled.0.phase ≡ active
      → IsLater polled.1
      → IsSound polled.0
      → a.armed ≡ true
      → IsAsking a.frp
      → (on_poll b h r polled.1 (record a { client = polled.0 })).1 ≡ Next.again
      → IsConsistent (on_poll b h r polled.1 (record a { client = polled.0 })).0
  unfolding on_poll on_event
  later-IsConsistent (c, ok none) a p l s m k g =
      idle-IsConsistent b h r requested (record a { client = c })
        (record { arming = rw p m; sound = s; asking = k })
  later-IsConsistent (c, ok (some (Event.connected fw hw id model))) a p l s m k g = absurd l
  later-IsConsistent (c, ok (some e)) a p l s m k g =
      forward-IsConsistent e (record a { client = c })
        (record { arming = rw p m; sound = s; asking = k })
  later-IsConsistent (c, err x) a p l s m k g = cc g
  later-IsConsistent (c, panic) a p l s m k g = cc g

  phase-IsConsistent :
      (p : Phase) (a : App W V Conn F)
      → a.client.phase ≡ p
      → IsConsistent a
      → IsSound (poll_phase b h p a.client).0
      → let polled = poll_phase b h p a.client in
        (on_poll b h r polled.1 (record a { client = polled.0 })).1 ≡ Next.again
        → IsConsistent (on_poll b h r polled.1 (record a { client = polled.0 })).0
  unfolding poll_phase
  phase-IsConsistent connecting a p v s g =
      linking-IsConsistent (poll_connecting b h a.client) a (poll_connecting-Links b h a.client) s
        v.asking g
  phase-IsConsistent active a p v s g =
      let (stays, later) = poll_active-Stays b h a.client p in
      later-IsConsistent (poll_active b h a.client) a stays later s (v.arming ∙ ap is_active p)
        v.asking g

  iteration-IsConsistent :
      (a : App W V Conn F)
      → IsConsistent a
      → (iteration b h r a).1 ≡ Next.again
      → IsConsistent (iteration b h r a).0
  unfolding iteration
  iteration-IsConsistent a v g =
      let e = poll-eq-phase b h a.client v.sound.nothing_queued in
      rw e (
        phase-IsConsistent a.client.phase a refl v (rw e at (poll-Keeps b h a.client v.sound))
          (rw e at g))

module _ {W V Conn F : Type 0} (b : Build F) (h : Host W) (r : Relay V Conn F) where
  -- The states of the loop: it starts with the device it connected to, a new client and the club of
  -- the command line, and goes on while an iteration does not fail.
  pub data Running : App W V Conn F → Type 0 where
    started :
        (w : W) (v : V) (name : Bytes) (arg : Option Bytes)
        → Running (record {
          client = new_client h b w;
          frp = set_device_name name (spawn r v);
          club = club_from_arg arg;
          armed = false;
        })
    iterated :
        {a : App W V Conn F}
        → Running a
        → (iteration b h r a).1 ≡ Next.again
        → Running (iteration b h r a).0

module _ {W V Conn F : Type 0} (b : Build F) (h : Host W) (r : Relay V Conn F)
    (requested : (w : V) → (r.request w).1 ≡ true) where
  -- While the acceptor thread takes requests, at every iteration of the program the device is armed
  -- exactly if the client has made its link, whatever the device and the controllers do; its client
  -- is sound, and a request for a controller is pending exactly while none is connected.
  pub Running-IsConsistent : {a : App W V Conn F} → Running b h r a → IsConsistent a
  unfolding new_client set_device_name
  Running-IsConsistent (started w v name arg) =
      let k = Live-IsAsking b r requested (spawned v) in
      record {
        arming = refl;
        sound = Reachable-IsSound b h (made w);
        asking = record { asking = k.asking; number_u32 = k.number_u32 };
      }
  Running-IsConsistent (iterated {a} k g) =
      iteration-IsConsistent b h r requested a (Running-IsConsistent k) g
