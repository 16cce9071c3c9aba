-- ===== src/Transport/Bluez/Keeping.antt =====
-- What the calls of the bus keep, the search of src/bluez.rs and its reads of properties keep.
use Prim.Native.String.{String}
use allsquare.Base.{
  ℕ, zero, suc, ◌+◌, Bool, true, false, ◌&&◌, not, Bool-cases, Option, some, none, inl, inr, Bytes,
  ltb,
}
use allsquare.Error.{Error}
use allsquare.Text.{codes, is_some}
use allsquare.Transport.Bluez.{Hit}
use allsquare.Transport.Bluez.Dbus.{
  Dbus, Interface, object_manager, adapter_interface, properties_interface, scan_limit,
  settle_pause, mapped, checked, managed, characteristics, prop_bool, manufacturer_payload,
  payload_after, backend_error,
}
use allsquare.Transport.Bluez.Connect.{
  look_now, set_scan, look_loop, hit_or, search, hit_or_search, find_device, resolved, resolve_loop,
}
use allsquare.Transport.Tasks.{from_millis, Result, good, bad, Task, and_then}
use allsquare.Transport.Tasks.Ends.{Ends, and_then-Ends}

-- `I` is kept by every call of the bus but those that set a device or a characteristic up.
pub record Keeps {S : Type 0} (b : Dbus S) (I : S → Type 0) : Type 0 where
  pub slept : (d : ℕ) (w : S) → I w → I (b.sleep d w)
  pub read : (w : S) → I w → I (b.now w).0
  pub opened : (w : S) → I w → I (b.system w).0
  pub proxied : (path : Bytes) (i : Interface) (w : S) → I w → I (b.proxy path i w).0
  pub scanned : (on : Bool) (path : Bytes) (w : S) → I w → I (b.discovery on path w).0
  pub listed : (w : S) → I w → I (b.managed_objects w).0
  pub got : (path : Bytes) (name : String) (w : S) → I w → I (b.get_bool path name w).0
  pub advertised : (path : Bytes) (w : S) → I w → I (b.manufacturer_data path w).0
  pub spawned : (w : S) → I w → I (b.spawn w).0

module _ {S : Type 0} where
  -- A task keeps `I`, however it ends.
  abbrev pub Kept : (S → Type 0) → {A : Type 0} → Option (S × Result Error A) → Type 0
  Kept I o = Ends (λ a. I) (λ e. I) o

  result-Ends :
      {A B : Type 0} (I J : S → Type 0) (K : B → S → Type 0) (r : Result Error A)
      (k : A → Task S Error B) (w : S)
      → I w
      → ((v : S) → I v → J v)
      → ((a : A) (v : S) → I v → Ends K (λ e. J) (k a v))
      → Ends K (λ e. J) (and_then k (some (w, r)))
  result-Ends I J K (good a) k w h j f = f a w h
  result-Ends I J K (bad e) k w h j f = j w h

  -- A call, and what follows it.
  pub mapped_then-Ends :
      {A B : Type 0} (I J : S → Type 0) (K : B → S → Type 0) (f : S → S × Result String A)
      (k : A → Task S Error B) (w : S)
      → I (f w).0
      → ((v : S) → I v → J v)
      → ((a : A) (v : S) → I v → Ends K (λ e. J) (k a v))
      → Ends K (λ e. J) (and_then k (mapped f w))
  unfolding mapped
  mapped_then-Ends I J K f k w h j g = result-Ends I J K (backend_error (f w).1) k (f w).0 h j g

  pub checked_then-Ends :
      {A B : Type 0} (I J : S → Type 0) (K : B → S → Type 0) (r : Result String A)
      (k : A → Task S Error B) (w : S)
      → I w
      → ((v : S) → I v → J v)
      → ((a : A) (v : S) → I v → Ends K (λ e. J) (k a v))
      → Ends K (λ e. J) (and_then k (checked r w))
  unfolding checked
  checked_then-Ends I J K r k w h j g = result-Ends I J K (backend_error r) k w h j g

  either-Ends :
      {A : Type 0} (I : S → Type 0) (r : Result Error A) (w : S) → I w → Kept I (some (w, r))
  either-Ends I (good a) w h = h
  either-Ends I (bad e) w h = h

  pub mapped-Ends :
      {A : Type 0} (I : S → Type 0) (f : S → S × Result String A) (w : S)
      → I (f w).0
      → Kept I (mapped f w)
  unfolding mapped
  mapped-Ends I f w h = either-Ends I (backend_error (f w).1) (f w).0 h

module _ {S : Type 0} (b : Dbus S) (I : S → Type 0) (keeps : Keeps b I) where
  managed-Kept : (w : S) → I w → Kept I (managed b w)
  unfolding managed
  managed-Kept w h =
      mapped_then-Ends I I (λ x. I) (b.proxy (codes "/") object_manager) _ w
        (keeps.proxied (codes "/") object_manager w h) (λ v k. k)
        (λ u v k. mapped-Ends I b.managed_objects v (keeps.listed v k))

  look_now-Kept : (pin : Option Bytes) (w : S) → I w → Kept I (look_now b pin w)
  unfolding look_now
  look_now-Kept pin w h =
      and_then-Ends (λ x. I) (λ x. I) (λ e. I) _ (managed b w) (managed-Kept w h) (λ objects v k. k)

  set_scan-Kept : (path : Bytes) (on : Bool) (w : S) → I w → Kept I (set_scan b path on w)
  unfolding set_scan
  set_scan-Kept path on w h =
      mapped_then-Ends I I (λ x. I) (b.proxy path adapter_interface) _ w
        (keeps.proxied path adapter_interface w h) (λ v k. k) (λ u v k. keeps.scanned on path v k)

  look_loop-Kept :
      (n deadline : ℕ) (pin : Option Bytes) (hit : Option Hit) (w : S)
      → I w
      → Kept I (look_loop b n deadline pin hit w)
  unfolding look_loop
  look_loop-Kept zero deadline pin hit w h = tt
  look_loop-Kept (suc n) deadline pin hit w h =
      let (v, t) = b.now w in
      let u = b.sleep (from_millis 250) v in
      elim (Bool-cases (ltb t deadline && not (is_some hit))) [
        | inr e ↦ rw e (keeps.read w h)
        | inl e ↦ rw e (
            and_then-Ends (λ x. I) (λ x. I) (λ e. I) (look_loop b n deadline pin) (look_now b pin u)
              (look_now-Kept pin u (keeps.slept (from_millis 250) v (keeps.read w h)))
              (λ hit' x k. look_loop-Kept n deadline pin hit' x k))
      ]

  hit_or-Kept : (hit : Option Hit) (w : S) → I w → Kept I (hit_or b hit w)
  unfolding hit_or
  hit_or-Kept (some hit) w h = h
  hit_or-Kept none w h = h

  hit_or_search-Kept :
      (n : ℕ) (path : Bytes) (pin : Option Bytes) (hit : Option Hit) (w : S)
      → I w
      → Kept I (hit_or_search b n path pin hit w)
  unfolding hit_or_search search
  hit_or_search-Kept n path pin (some hit) w h = h
  hit_or_search-Kept n path pin none w h =
      and_then-Ends (λ x. I) (λ x. I) (λ e. I) _ (set_scan b path true w)
        (set_scan-Kept path true w h)
        (λ u v k.
          let (x, t) = b.now v in
          and_then-Ends (λ x. I) (λ x. I) (λ e. I) _ (look_loop b n (t + scan_limit) pin none x)
            (look_loop-Kept n (t + scan_limit) pin none x (keeps.read v k))
            (λ hit y k1.
              and_then-Ends (λ x. I) (λ x. I) (λ e. I) _ (set_scan b path false y)
                (set_scan-Kept path false y k1)
                (λ u z k2.
                  hit_or-Kept hit (b.sleep settle_pause z) (keeps.slept settle_pause z k2))))

  pub find_device-Kept :
      (n : ℕ) (path : Bytes) (pin : Option Bytes) (w : S)
      → I w
      → Kept I (find_device b n path pin w)
  unfolding find_device
  find_device-Kept n path pin w h =
      and_then-Ends (λ x. I) (λ x. I) (λ e. I) (hit_or_search b n path pin) (look_now b pin w)
        (look_now-Kept pin w h) (hit_or_search-Kept n path pin)

  prop_bool-Kept : (path : Bytes) (name : String) (w : S) → I w → Kept I (prop_bool b path name w)
  unfolding prop_bool
  prop_bool-Kept path name w h =
      mapped_then-Ends I I (λ x. I) (b.proxy path properties_interface) _ w
        (keeps.proxied path properties_interface w h) (λ v k. k)
        (λ u v k.
          mapped_then-Ends I I (λ x. I) (b.get_bool path name) _ v (keeps.got path name v k)
            (λ x k'. k') (λ x y k'. k'))

  resolved-Kept :
      (deadline : ℕ) (up : Bool) (rest : Task S Error (Unit {0})) (w : S)
      → I w
      → ((v : S) → I v → Kept I (rest v))
      → Kept I (resolved b deadline up rest w)
  unfolding resolved
  resolved-Kept deadline true rest w h k = h
  resolved-Kept deadline false rest w h k = elim (Bool-cases (ltb deadline (b.now w).1)) [
    | inl e ↦ rw e (keeps.read w h)
    | inr e ↦ rw e (
        k (b.sleep (from_millis 100) (b.now w).0)
          (keeps.slept (from_millis 100) (b.now w).0 (keeps.read w h)))
  ]

  pub resolve_loop-Kept :
      (n deadline : ℕ) (path : Bytes) (w : S) → I w → Kept I (resolve_loop b n deadline path w)
  unfolding resolve_loop
  resolve_loop-Kept zero deadline path w h = tt
  resolve_loop-Kept (suc n) deadline path w h =
      and_then-Ends (λ x. I) (λ x. I) (λ e. I)
        (λ up. resolved b deadline up (resolve_loop b n deadline path))
        (prop_bool b path "ServicesResolved" w) (prop_bool-Kept path "ServicesResolved" w h)
        (λ up v k.
          resolved-Kept deadline up (resolve_loop b n deadline path) v k
            (resolve_loop-Kept n deadline path))

  pub characteristics-Kept : (path : Bytes) (w : S) → I w → Kept I (characteristics b path w)
  unfolding characteristics
  characteristics-Kept path w h =
      and_then-Ends (λ x. I) (λ x. I) (λ e. I) _ (managed b w) (managed-Kept w h) (λ objects v k. k)

  payload_after-Kept :
      (path : Bytes) (made : Result String (Unit {0})) (w : S)
      → I w
      → Kept I (payload_after b path made w)
  unfolding payload_after
  payload_after-Kept path (good u) w h = keeps.advertised path w h
  payload_after-Kept path (bad e) w h = h

  pub manufacturer_payload-Kept :
      (path : Bytes) (w : S) → I w → Kept I (manufacturer_payload b path w)
  unfolding manufacturer_payload
  manufacturer_payload-Kept path w h =
      payload_after-Kept path (b.proxy path properties_interface w).1
        (b.proxy path properties_interface w).0 (keeps.proxied path properties_interface w h)
