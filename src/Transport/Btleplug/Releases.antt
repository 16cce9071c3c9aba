-- ===== src/Transport/Btleplug/Releases.antt =====
-- The links that an attempt of src/btleplug_transport.rs opens: each is released, or owned by the
-- transport that it returns.
pub mod Balance
use Prim.Native.String.{String}
use allsquare.Transport.Tasks.Ends.{Ends, and_then-Ends, caught-Ends}
use allsquare.Transport.Tasks.{Result, good, bad, Task, raise, and_then, ◌>>◌, ◌>>=◌}
use allsquare.Base.{
  ℕ, suc, ◌+◌, Bool-cases, List, [], ◌∷◌, Option, some, none, ◌≡◌, refl, arith, inl, inr, Bytes,
  true, false, subst, sym,
}
use allsquare.Error.{Error}
use allsquare.Protocol.Names.{advertised_name}
use allsquare.Transport.Btleplug.Calls.{
  op_timeout, settle_time, init_timeout, connect_timeout, cancel_timeout, System, op,
}
use allsquare.Transport.Btleplug.Scan.{Found, ScanFailure, read_advertised_name, find}
use allsquare.Transport.Btleplug.Connect.{
  Process, Opened, Attempt, gave_up, held, within_at, built, runtime, first_adapter, open_session,
  cached_or_new, take_scanner, release, if_refused, link, evt_of, subscribe, if_unsubscribed,
  opened_name, finish, open_transport, after_link, after_find, attempt, settle, connect,
}
use allsquare.Transport.Btleplug.Keeping.{Keeps}
use allsquare.Transport.Btleplug.Keeping.Steps.{find-Kept, opened_name-Ends, subscribe-Kept}
use allsquare.Transport.Btleplug.Logic.{op-Ends, scan_error-Ends}

-- `asked` counts the calls that open a link, and `released` those that close one.
pub record Counts {W A P : Type 0} (s : System W A P) (asked released : W → ℕ) : Type 0 where
  pub kept : (n m : ℕ) → Keeps s (λ w. asked w + m ≡ n + released w)
  pub dialled : (l : ℕ) (p : P) (w : W) → asked (s.connect l p w).0 ≡ suc (asked w)
  pub unmoved : (l : ℕ) (p : P) (w : W) → released (s.connect l p w).0 ≡ released w
  pub hung_up : (l : ℕ) (p : P) (w : W) → released (s.disconnect l p w).0 ≡ suc (released w)
  pub unasked : (l : ℕ) (p : P) (w : W) → asked (s.disconnect l p w).0 ≡ asked w
  pub queried : (l : ℕ) (p : P) (w : W) → released (s.is_connected l p w).0 ≡ released w
  pub wrote :
      (l : ℕ) (p : P) (frame : Bytes) (w : W) → released (s.write l p frame w).0 ≡ released w
  pub got : (l : ℕ) (p : P) (uuid : ℕ) (w : W) → released (s.read l p uuid w).0 ≡ released w

-- The links that a result owns.
abbrev pub owned : {A P : Type 0} → Result Error (Opened A P) → ℕ
owned (good opened) = 1
owned (bad e) = 0

abbrev pub links : {A P : Type 0} → Attempt A P → ℕ
links (gave_up e reusable) = 0
links (held r) = owned r

module _ {W A P : Type 0} (s : System W A P) (asked released : W → ℕ)
    (counts : Counts s asked released) (asked_before released_before : ℕ) where
  -- `n` links are open that were not before.
  abbrev pub Open : ℕ → W → Type 0
  Open n w = asked w + released_before ≡ (n + asked_before) + released w

  pub keeps : (n : ℕ) → Keeps s (Open n)
  keeps n = counts.kept (n + asked_before) released_before

  release-raise-Open :
      (n limit : ℕ) (p : P) (e : Error) (w : W)
      → Open (suc n) w
      → Ends
          (λ (u : Unit {0}). Open (suc n))
          (λ (e' : Error). Open n)
          ((release s limit p >> raise e) w)
  unfolding release
  release-raise-Open n limit p e w h =
      omega (arith, counts.hung_up limit p w, counts.unasked limit p w)

  if_refused-Open :
      (n : ℕ) (p : P) (r : Result Error (Unit {0})) (w : W)
      → Open (suc n) w
      → Ends (λ u. Open (suc n)) (λ e. Open n) (if_refused s p r w)
  unfolding if_refused
  if_refused-Open n p (good u) w h = h
  if_refused-Open n p (bad e) w h = release-raise-Open n cancel_timeout p e w h

  if_unsubscribed-Open :
      (n : ℕ) (p : P) (r : Result Error (Unit {0})) (w : W)
      → Open (suc n) w
      → Ends (λ u. Open (suc n)) (λ e. Open n) (if_unsubscribed s p r w)
  unfolding if_unsubscribed
  if_unsubscribed-Open n p (good u) w h = h
  if_unsubscribed-Open n p (bad e) w h = release-raise-Open n op_timeout p e w h

  dial-Open : (n : ℕ) (p : P) (w : W) → Open n w → Open (suc n) (s.connect connect_timeout p w).0
  dial-Open n p w h =
      omega (arith, counts.dialled connect_timeout p w, counts.unmoved connect_timeout p w)

  link-Open :
      (n : ℕ) (a : A) (p : P) (w : W)
      → Open n w
      → Ends (λ u. Open (suc n)) (λ e. Open n) (link s a p w)
  unfolding link
  link-Open n a p w h =
      and_then-Ends (λ u. Open n) (λ u. Open (suc n)) (λ e. Open n) _
        (op "events" (s.events op_timeout a) w)
        (op-Ends (Open n) "events" (s.events op_timeout a) w
          ((keeps n).sets_up.watched op_timeout a w h))
        (λ u v h1.
          let v' = s.sleep settle_time v in
          let f = s.connect connect_timeout p in
          caught-Ends (λ u. Open (suc n)) (λ e. Open (suc n)) (λ u. Open (suc n)) (λ e. Open n)
            (if_refused s p) (op "connect" f v')
            (op-Ends (Open (suc n)) "connect" f v'
              (dial-Open n p v' ((keeps n).searches.slept settle_time v h1)))
            (λ a. if_refused-Open n p (good a)) (λ e. if_refused-Open n p (bad e)))

  finish-Open :
      (n rounds : ℕ) (a : A) (found : Found P) (r : Result Error (Unit {0})) (w : W)
      → Open (suc n) w
      → Ends (λ opened. Open (suc n)) (λ e. Open n) (finish s rounds a found r w)
  unfolding finish
  finish-Open n rounds a found r w h =
      let p = found.peripheral in
      let advertised = advertised_name found.name in
      and_then-Ends (λ u. Open (suc n)) (λ x. Open (suc n)) (λ e. Open n) _
        (if_unsubscribed s p r w) (if_unsubscribed-Open n p r w h)
        (λ u v k.
          and_then-Ends (λ x. Open (suc n)) (λ x. Open (suc n)) (λ e. Open n) _
            (opened_name s rounds p found.name advertised v)
            (opened_name-Ends s (Open (suc n)) (λ e. Open n) rounds p found.name advertised v
              (keeps (suc n)).searches k)
            (λ name x k'. k'))

  open_transport-Open :
      (n rounds : ℕ) (a : A) (found : Found P) (w : W)
      → Open (suc n) w
      → Ends (λ opened. Open (suc n)) (λ e. Open n) (open_transport s rounds a found w)
  unfolding open_transport
  open_transport-Open n rounds a found w h =
      caught-Ends (λ u. Open (suc n)) (λ e. Open (suc n)) (λ x. Open (suc n)) (λ e. Open n)
        (finish s rounds a found) (subscribe s found.peripheral w)
        (subscribe-Kept s (Open (suc n)) (keeps (suc n)).searches (keeps (suc n)).sets_up
          found.peripheral w h)
        (λ u. finish-Open n rounds a found (good u)) (λ e. finish-Open n rounds a found (bad e))

  after_link-Open :
      (rounds : ℕ) (a : A) (found : Found P) (u : Unit {0}) (w : W)
      → Open 1 w
      → Ends (λ became. Open (links became)) (λ e. Open 0) (after_link s rounds a found (good u) w)
  unfolding after_link
  after_link-Open rounds a found u w h =
      caught-Ends (λ opened. Open 1) (λ e. Open 0) (λ became. Open (links became)) (λ e. Open 0) _
        (open_transport s rounds a found w) (open_transport-Open 0 rounds a found w h)
        (λ opened v k. k) (λ e v k. k)

  after_find-Open :
      (rounds : ℕ) (a : A) (r : Result ScanFailure (Found P)) (w : W)
      → Open 0 w
      → Ends (λ became. Open (links became)) (λ e. Open 0) (after_find s rounds a r w)
  unfolding after_find after_link
  after_find-Open rounds a (bad failure) w h = h
  after_find-Open rounds a (good found) w h =
      caught-Ends (λ u. Open 1) (λ e. Open 0) (λ became. Open (links became)) (λ e. Open 0)
        (after_link s rounds a found) (link s a found.peripheral w)
        (link-Open 0 a found.peripheral w h) (after_link-Open rounds a found) (λ e v k. k)

  pub attempt-Open :
      (rounds : ℕ) (a : A) (pin : Option Bytes) (w : W)
      → Open 0 w
      → Ends (λ became. Open (links became)) (λ e. Open 0) (attempt s rounds a pin w)
  unfolding attempt
  attempt-Open rounds a pin w h =
      caught-Ends (λ found. Open 0) (λ e. Open 0) (λ became. Open (links became)) (λ e. Open 0)
        (after_find s rounds a) (find s rounds a pin w)
        (find-Kept s (Open 0) rounds a pin w (keeps 0) h)
        (λ found. after_find-Open rounds a (good found)) (λ e. after_find-Open rounds a (bad e))
