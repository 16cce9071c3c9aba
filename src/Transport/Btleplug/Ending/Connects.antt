-- ===== src/Transport/Btleplug/Ending/Connects.antt =====
-- `connect` of src/btleplug_transport.rs.
use Prim.Native.String.{String}
use allsquare.Transport.Tasks.Back.{Back, Back-earlier, and_then-Back}
use allsquare.Transport.Tasks.{Result}
use allsquare.Base.{
  ℕ, suc, ◌≤◌, Bool-cases, List, [], ◌∷◌, Option, some, none, ◌≡◌, refl, arith, inl, inr, Bytes,
  false,
}
use allsquare.Error.{Error}
use allsquare.Transport.Btleplug.Calls.{init_timeout, System}
use allsquare.Transport.Btleplug.Connect.{
  Process, Opened, Attempt, within_at, built, runtime, first_adapter, open_session, cached_or_new,
  take_scanner, attempt, settle, connect,
}
use allsquare.Transport.Btleplug.Ending.{IsClock, op_then-Back}
use allsquare.Transport.Btleplug.Ending.Attempts.{attempt-Back}

module _ {W A P : Type 0} (s : System W A P) (time : W → ℕ) (clock : IsClock s time) where
  abbrev process_time : Process W A → ℕ
  process_time p = time p.world

  within-Back :
      {E B : Type 0} (t : ℕ) (p : Process W A) (o : Option (W × Result E B))
      → Back time t o
      → Back process_time t (within_at p o)
  within-Back t p none h = h
  within-Back t p (some (w, r)) h = h

  built-Back :
      (t : ℕ) (p : Process W A) (r : W × Option String)
      → t ≤ time r.0
      → Back process_time t (built s p r)
  unfolding built
  built-Back t p (w, none) h = h
  built-Back t p (w, some e) h = h

  runtime-Back : (p : Process W A) → Back process_time (process_time p) (runtime s p)
  unfolding runtime
  runtime-Back p = elim (Bool-cases p.runtime) [
    | inl e ↦ rw e (omega arith)
    | inr e ↦ rw e (
        built-Back (time p.world) (record p { runtime = false }) (s.build_runtime p.world)
          (clock.built p.world))
  ]

  first_adapter-Back :
      (t : ℕ) (found : List A) (w : W) → t ≤ time w → Back time t (first_adapter s found w)
  unfolding first_adapter
  first_adapter-Back t [] w h = h
  first_adapter-Back t (a ∷ rest) w h = h

  cached_or_new-Back :
      (t : ℕ) (cached : Option A) (p : Process W A)
      → t ≤ time p.world
      → Back process_time t (cached_or_new s cached p)
  unfolding cached_or_new open_session
  cached_or_new-Back t (some a) p h = h
  cached_or_new-Back t none p h = within-Back t p (open_session s p.world) (
      op_then-Back time t "Bluetooth init" (s.new_manager init_timeout) _ p.world
        (omega (arith, clock.managed init_timeout p.world))
        (λ u v le.
          op_then-Back time t "Bluetooth init" (s.adapters init_timeout) (first_adapter s) v
            (omega (arith, clock.listed init_timeout v)) (first_adapter-Back t)))

  settle-Back :
      (t : ℕ) (a : A) (became : Attempt A P) (p : Process W A)
      → t ≤ time p.world
      → Back process_time t (settle s a became p)
  unfolding settle
  settle-Back t a became p h = h

  connect-Back :
      (n : ℕ) (pin : Option Bytes) (p : Process W A)
      → 50 ≤ n
      → Back process_time (time p.world) (connect s (suc n) pin p)
  unfolding connect take_scanner
  connect-Back n pin p h =
      let t = time p.world in
      and_then-Back process_time t _ (runtime s p) (runtime-Back p) (λ u p' le.
        and_then-Back process_time t _ (take_scanner s p')
          (cached_or_new-Back t p'.scanner (record p' { scanner = none }) le)
          (λ a p'' le'.
            and_then-Back process_time t _ (within_at p'' (attempt s (suc n) a pin p''.world))
              (within-Back t p'' (attempt s (suc n) a pin p''.world) (
                Back-earlier time t (time p''.world) (attempt s (suc n) a pin p''.world) le'
                  (attempt-Back s time clock n a pin p''.world h)))
              (settle-Back t a)))

  Back-result :
      (t : ℕ) (o : Option (Process W A × Result Error (Opened A P)))
      → Back process_time t o
      → (r : Process W A × Result Error (Opened A P)) × (o ≡ some r) × (t ≤ time r.0.world)
  Back-result t none h = absurd h
  Back-result t (some r) h = (r, refl, h)

  -- An attempt to connect ends, with a transport or an error: 51 rounds are enough for each of its
  -- loops, whatever state the adapter reports, however many devices answer or fail to, and whether
  -- or not the device's advertised name ever arrives, on a clock that no call turns back.
  pub connect-Returns :
      (n : ℕ) (pin : Option Bytes) (p : Process W A)
      → 50 ≤ n
      → (r : Process W A × Result Error (Opened A P)) × (connect s (suc n) pin p ≡ some r)
        × (time p.world ≤ time r.0.world)
  connect-Returns n pin p h =
      Back-result (time p.world) (connect s (suc n) pin p) (connect-Back n pin p h)
