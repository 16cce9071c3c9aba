-- ===== src/Transport/Btleplug/Releases/Balance.antt =====
-- `connect` of src/btleplug_transport.rs, from its runtime to the drop of the transport.
use Prim.Native.String.{String}
use allsquare.Transport.Tasks.Ends.{Ends, and_then-Ends}
use allsquare.Transport.Tasks.{Result, good, bad}
use allsquare.Base.{
  ℕ, ◌+◌, Bool-cases, List, [], ◌∷◌, Option, some, none, ◌≡◌, arith, inl, inr, Bytes, false, subst,
}
use allsquare.Error.{Error}
use allsquare.Transport.Btleplug.Calls.{init_timeout, System, op}
use allsquare.Transport.Btleplug.Connect.{
  Process, Opened, Attempt, gave_up, held, within_at, built, runtime, first_adapter, open_session,
  cached_or_new, take_scanner, attempt, result_of, settle, connect,
}
use allsquare.Transport.Btleplug.Logic.{op-Ends, within-Ends}
use allsquare.Transport.Btleplug.Releases.{Counts, owned, links, Open, keeps, attempt-Open}
use allsquare.Transport.Lifecycle

module _ {W A P : Type 0} (s : System W A P) (asked released : W → ℕ)
    (counts : Counts s asked released) (asked_before released_before : ℕ) where
  abbrev Links : ℕ → W → Type 0
  Links = Open s asked released counts asked_before released_before

  within-Open :
      {E B : Type 0} (I : B → W → Type 0) (J : E → W → Type 0) (p : Process W A)
      (o : Option (W × Result E B))
      → Ends I J o
      → Ends (λ b (q : Process W A). I b q.world) (λ e q. J e q.world) (within_at p o)
  within-Open I J p o h =
      within-Ends I J (λ b q. I b q.world) (λ e q. J e q.world) p o h (λ b w k. k) (λ e w k. k)

  -- No link is open that was not before.
  abbrev None : {B : Type 0} → B → Process W A → Type 0
  None b p = Links 0 p.world

  built-Open :
      (p : Process W A) (r : W × Option String) → Links 0 r.0 → Ends None None (built s p r)
  unfolding built
  built-Open p (w, none) h = h
  built-Open p (w, some e) h = h

  runtime-Open : (p : Process W A) → Links 0 p.world → Ends None None (runtime s p)
  unfolding runtime
  runtime-Open p h = elim (Bool-cases p.runtime) [
    | inl e ↦ rw e h
    | inr e ↦ rw e (
        built-Open (record p { runtime = false }) (s.build_runtime p.world)
          ((keeps s asked released counts asked_before released_before 0).sets_up.built p.world h))
  ]

  first_adapter-Open :
      (found : List A) (w : W)
      → Links 0 w
      → Ends (λ a. Links 0) (λ e. Links 0) (first_adapter s found w)
  unfolding first_adapter
  first_adapter-Open [] w h = h
  first_adapter-Open (a ∷ rest) w h = h

  open_session-Open : (w : W) → Links 0 w → Ends (λ a. Links 0) (λ e. Links 0) (open_session s w)
  unfolding open_session
  open_session-Open w h =
      and_then-Ends (λ u. Links 0) (λ a. Links 0) (λ e. Links 0) _
        (op "Bluetooth init" (s.new_manager init_timeout) w)
        (op-Ends (Links 0) "Bluetooth init" (s.new_manager init_timeout) w (
          (keeps s asked released counts asked_before released_before 0).sets_up.managed
            init_timeout w h))
        (λ u v k.
          and_then-Ends (λ found. Links 0) (λ a. Links 0) (λ e. Links 0) (first_adapter s)
            (op "Bluetooth init" (s.adapters init_timeout) v)
            (op-Ends (Links 0) "Bluetooth init" (s.adapters init_timeout) v (
              (keeps s asked released counts asked_before released_before 0).listed init_timeout v
                k))
            first_adapter-Open)

  cached_or_new-Open :
      (cached : Option A) (p : Process W A)
      → Links 0 p.world
      → Ends None None (cached_or_new s cached p)
  unfolding cached_or_new
  cached_or_new-Open (some a) p h = h
  cached_or_new-Open none p h =
      within-Open (λ a. Links 0) (λ e. Links 0) p (open_session s p.world)
        (open_session-Open p.world h)

  settle-Open :
      (a : A) (became : Attempt A P) (p : Process W A)
      → Links (links became) p.world
      → Ends (λ (o : Opened A P) (q : Process W A). Links 1 q.world) None (settle s a became p)
  unfolding settle result_of
  settle-Open a (gave_up e reusable) p h = h
  settle-Open a (held (good o)) p h = h
  settle-Open a (held (bad e)) p h = h

  connect-Open :
      (rounds : ℕ) (pin : Option Bytes) (p : Process W A)
      → Links 0 p.world
      → Ends (λ (o : Opened A P) (q : Process W A). Links 1 q.world) None (connect s rounds pin p)
  unfolding connect take_scanner
  connect-Open rounds pin p h =
      let I = λ (o : Opened A P) (q : Process W A). Links 1 q.world in
      and_then-Ends None I None _ (runtime s p) (runtime-Open p h) (λ u q k.
        and_then-Ends None I None _ (take_scanner s q)
          (cached_or_new-Open q.scanner (record q { scanner = none }) k)
          (λ a x k1.
            and_then-Ends (λ became y. Links (links became) y.world) I None (settle s a)
              (within_at x (attempt s rounds a pin x.world))
              (within-Open (λ became. Links (links became)) (λ e. Links 0) x
                (attempt s rounds a pin x.world)
                (attempt-Open s asked released counts asked_before released_before rounds a pin
                  x.world k1))
              (settle-Open a)))

module _ {W A P : Type 0} (s : System W A P) (asked released : W → ℕ)
    (counts : Counts s asked released) where
  -- The links that a returned attempt has open are those that its result owns.
  abbrev Balanced : Process W A → Option (Process W A × Result Error (Opened A P)) → Type 0
  Balanced p none = Unit {0}
  Balanced p (some (q, r)) =
      asked q.world + released p.world ≡ (owned r + asked p.world) + released q.world

  Ends-Balanced :
      (p : Process W A) (o : Option (Process W A × Result Error (Opened A P)))
      → Ends
          (λ opened q. asked q.world + released p.world ≡ (1 + asked p.world) + released q.world)
          (λ e q. asked q.world + released p.world ≡ (0 + asked p.world) + released q.world)
          o
      → Balanced p o
  Ends-Balanced p none h = tt
  Ends-Balanced p (some (q, good o)) h = h
  Ends-Balanced p (some (q, bad e)) h = h

  -- When an attempt returns, every link that it asked the operating system for has been released,
  -- but for the one that a transport returned by it owns: an attempt that fails, at any point, leaves
  -- no link open, one that succeeds leaves exactly one, and neither releases a link of others.
  pub connect-links :
      (rounds : ℕ) (pin : Option Bytes) (p q : Process W A) (r : Result Error (Opened A P))
      → connect s rounds pin p ≡ some (q, r)
      → asked q.world + released p.world ≡ (owned r + asked p.world) + released q.world
  connect-links rounds pin p q r e = subst (Balanced p) e (
      Ends-Balanced p (connect s rounds pin p) (
        connect-Open s asked released counts (asked p.world) (released p.world) rounds pin p
          (omega arith)))
