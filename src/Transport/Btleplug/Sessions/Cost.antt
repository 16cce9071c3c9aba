-- ===== src/Transport/Btleplug/Sessions/Cost.antt =====
-- What the attempts of src/btleplug_transport.rs cost: the Bluetooth sessions that they open.
use allsquare.Transport.Tasks.Ends.{Ends, and_then-Ends, caught-Ends}
use allsquare.Transport.Tasks.{Result, good, bad}
use allsquare.Base.{ℕ, suc, ◌+◌, Bool, true, false, List, ◌∷◌, Option, some, ◌≡◌, arith, Bytes}
use allsquare.Error.{Error}
use allsquare.Protocol.Names.{advertised_name}
use allsquare.Transport.Btleplug.Calls.{
  op_timeout, settle_time, connect_timeout, cancel_timeout, Answer, ended, denied, refused, elapsed,
  CentralState, powered_on, powered_off, unknown, System, op, op_result,
}
use allsquare.Transport.Btleplug.Scan.{Found, ScanFailure, from_error, find}
use allsquare.Transport.Btleplug.Connect.{
  Attempt, gave_up, held, release, if_refused, link, subscribe, if_unsubscribed, opened_name,
  finish, open_transport, after_link, after_find, attempt,
}
use allsquare.Transport.Btleplug.Keeping.{Searches, SetsUp}
use allsquare.Transport.Btleplug.Keeping.Steps.{
  Stated, Finds, find-Ends, opened_name-Ends, subscribe-Kept,
}
use allsquare.Transport.Btleplug.Logic.{op-Ends}

-- The sessions that a listing of adapters opens, and those that an answer spends: Bluetooth is off,
-- or a connection was made.
abbrev pub opens : {A : Type 0} → Answer (List A) → ℕ
opens (ended (a ∷ rest)) = 1
opens _ = 0

abbrev pub shut : Answer CentralState → ℕ
shut (ended powered_off) = 1
shut _ = 0

abbrev pub linked : Answer (Unit {0}) → ℕ
linked (ended u) = 1
linked _ = 0

-- `opened` counts the sessions opened, and `spent` those that no attempt will use again.
pub record Costs {W A P : Type 0} (s : System W A P) (opened spent : W → ℕ) : Type 0 where
  pub searching : (m n : ℕ) → Searches s (λ w. opened w + m ≡ n + spent w)
  pub setting_up : (m n : ℕ) → SetsUp s (λ w. opened w + m ≡ n + spent w)
  pub hung_up :
      (m n l : ℕ) (p : P) (w : W)
      → opened w + m ≡ n + spent w
      → opened (s.disconnect l p w).0 + m ≡ n + spent (s.disconnect l p w).0
  pub listed_opens :
      (l : ℕ) (w : W) → opened (s.adapters l w).0 ≡ opens (s.adapters l w).1 + opened w
  pub listed_spends : (l : ℕ) (w : W) → spent (s.adapters l w).0 ≡ spent w
  pub state_opens : (l : ℕ) (a : A) (w : W) → opened (s.adapter_state l a w).0 ≡ opened w
  pub state_spends :
      (l : ℕ) (a : A) (w : W)
      → spent (s.adapter_state l a w).0 ≡ shut (s.adapter_state l a w).1 + spent w
  pub dial_opens : (l : ℕ) (p : P) (w : W) → opened (s.connect l p w).0 ≡ opened w
  pub dial_spends :
      (l : ℕ) (p : P) (w : W) → spent (s.connect l p w).0 ≡ linked (s.connect l p w).1 + spent w

-- The sessions that an attempt leaves unfit for another.
abbrev pub wasted : Bool → ℕ
wasted true = 0
wasted false = 1

abbrev pub used_up : {A P : Type 0} → Attempt A P → ℕ
used_up (gave_up e reusable) = wasted reusable
used_up (held r) = 1

module _ {W A P : Type 0} (s : System W A P) (opened spent : W → ℕ) (costs : Costs s opened spent)
    (n : ℕ) where
  -- `n` sessions were opened, but for the `m` that were spent meanwhile.
  abbrev pub Bill : ℕ → W → Type 0
  Bill m w = opened w + m ≡ n + spent w

  -- The bill of an adapter's state, and of a connection, from the answer.
  state_answer-Bill :
      (m : ℕ) (w : W) (answer : Answer CentralState)
      → opened w + (shut answer + m) ≡ n + spent w
      → Ends
          (Stated (Bill m) (λ failure. Bill (m + wasted failure.reusable)))
          (λ e. Bill m)
          (some (w, op_result "adapter state" answer))
  unfolding op_result
  state_answer-Bill m w (ended powered_on) h = omega (arith, h)
  state_answer-Bill m w (ended powered_off) h = omega (arith, h)
  state_answer-Bill m w (ended unknown) h = omega (arith, h)
  state_answer-Bill m w (denied e) h = omega (arith, h)
  state_answer-Bill m w (refused e) h = omega (arith, h)
  state_answer-Bill m w elapsed h = omega (arith, h)

  Bill-Finds : (m : ℕ) → Finds s (Bill m) (λ failure. Bill (m + wasted failure.reusable))
  unfolding op from_error
  Bill-Finds m = record {
    searches = costs.searching m n;
    fails = λ e w h. omega (arith, h);
    state_read = λ a w h.
        let (v, answer) = s.adapter_state op_timeout a w in
        state_answer-Bill m v answer
          (omega (arith, h, costs.state_opens op_timeout a w, costs.state_spends op_timeout a w));
  }

  link_answer-Bill :
      (m : ℕ) (w : W) (answer : Answer (Unit {0}))
      → opened w + (linked answer + m) ≡ n + spent w
      → Ends (λ u. Bill (suc m)) (λ e. Bill m) (some (w, op_result "connect" answer))
  unfolding op_result
  link_answer-Bill m w (ended u) h = omega (arith, h)
  link_answer-Bill m w (denied e) h = omega (arith, h)
  link_answer-Bill m w (refused e) h = omega (arith, h)
  link_answer-Bill m w elapsed h = omega (arith, h)

  dial-Bill :
      (m : ℕ) (p : P) (w : W)
      → Bill m w
      → Ends (λ u. Bill (suc m)) (λ e. Bill m) (op "connect" (s.connect connect_timeout p) w)
  unfolding op
  dial-Bill m p w h =
      let (v, answer) = s.connect connect_timeout p w in
      link_answer-Bill m v answer (
        omega
          (arith, h, costs.dial_opens connect_timeout p w, costs.dial_spends connect_timeout p w))

  if_refused-Bill :
      (m : ℕ) (p : P) (e : Error) (w : W)
      → Bill m w
      → Ends (λ u. Bill (suc m)) (λ e. Bill m) (if_refused s p (bad e) w)
  unfolding if_refused release
  if_refused-Bill m p e w h = costs.hung_up m n cancel_timeout p w h

  link-Bill :
      (m : ℕ) (a : A) (p : P) (w : W)
      → Bill m w
      → Ends (λ u. Bill (suc m)) (λ e. Bill m) (link s a p w)
  unfolding link if_refused
  link-Bill m a p w h =
      and_then-Ends (λ u. Bill m) (λ u. Bill (suc m)) (λ e. Bill m) _
        (op "events" (s.events op_timeout a) w)
        (op-Ends (Bill m) "events" (s.events op_timeout a) w
          ((costs.setting_up m n).watched op_timeout a w h))
        (λ u v h1.
          let v' = s.sleep settle_time v in
          caught-Ends (λ u. Bill (suc m)) (λ e. Bill m) (λ u. Bill (suc m)) (λ e. Bill m)
            (if_refused s p) (op "connect" (s.connect connect_timeout p) v')
            (dial-Bill m p v' ((costs.searching m n).slept settle_time v h1)) (λ u x k. k)
            (if_refused-Bill m p))

  if_unsubscribed-Bill :
      (m : ℕ) (p : P) (r : Result Error (Unit {0})) (w : W)
      → Bill m w
      → Ends (λ u. Bill m) (λ e. Bill m) (if_unsubscribed s p r w)
  unfolding if_unsubscribed release
  if_unsubscribed-Bill m p (good u) w h = h
  if_unsubscribed-Bill m p (bad e) w h = costs.hung_up m n op_timeout p w h

  finish-Bill :
      (m rounds : ℕ) (a : A) (found : Found P) (r : Result Error (Unit {0})) (w : W)
      → Bill m w
      → Ends (λ o. Bill m) (λ e. Bill m) (finish s rounds a found r w)
  unfolding finish
  finish-Bill m rounds a found r w h =
      let p = found.peripheral in
      let advertised = advertised_name found.name in
      and_then-Ends (λ u. Bill m) (λ x. Bill m) (λ e. Bill m) _ (if_unsubscribed s p r w)
        (if_unsubscribed-Bill m p r w h)
        (λ u v k.
          and_then-Ends (λ x. Bill m) (λ x. Bill m) (λ e. Bill m) _
            (opened_name s rounds p found.name advertised v)
            (opened_name-Ends s (Bill m) (λ e. Bill m) rounds p found.name advertised v
              (costs.searching m n) k)
            (λ name x k'. k'))

  open_transport-Bill :
      (m rounds : ℕ) (a : A) (found : Found P) (w : W)
      → Bill m w
      → Ends (λ o. Bill m) (λ e. Bill m) (open_transport s rounds a found w)
  unfolding open_transport
  open_transport-Bill m rounds a found w h =
      caught-Ends (λ u. Bill m) (λ e. Bill m) (λ x. Bill m) (λ e. Bill m) (finish s rounds a found)
        (subscribe s found.peripheral w)
        (subscribe-Kept s (Bill m) (costs.searching m n) (costs.setting_up m n) found.peripheral w
          h)
        (λ u. finish-Bill m rounds a found (good u)) (λ e. finish-Bill m rounds a found (bad e))

  -- What an attempt costs, from what became of it.
  abbrev pub Billed : ℕ → Attempt A P → W → Type 0
  Billed m became = Bill (m + used_up became)

  -- An attempt raises no error, so that what holds of one is any.
  after_link-Bill :
      (J : Error → W → Type 0) (m rounds : ℕ) (a : A) (found : Found P) (u : Unit {0}) (w : W)
      → Bill (suc m) w
      → Ends (Billed m) J (after_link s rounds a found (good u) w)
  unfolding after_link
  after_link-Bill J m rounds a found u w h =
      caught-Ends (λ o. Bill (suc m)) (λ e. Bill (suc m)) (Billed m) J _
        (open_transport s rounds a found w) (open_transport-Bill (suc m) rounds a found w h)
        (λ o v k. omega (arith, k)) (λ e v k. omega (arith, k))

  after_find-Bill :
      (J : Error → W → Type 0) (m rounds : ℕ) (a : A) (found : Found P) (w : W)
      → Bill m w
      → Ends (Billed m) J (after_find s rounds a (good found) w)
  unfolding after_find after_link
  after_find-Bill J m rounds a found w h =
      caught-Ends (λ u. Bill (suc m)) (λ e. Bill m) (Billed m) J (after_link s rounds a found)
        (link s a found.peripheral w) (link-Bill m a found.peripheral w h)
        (after_link-Bill J m rounds a found) (λ e v k. omega (arith, k))

  pub attempt-Bill :
      (J : Error → W → Type 0) (m rounds : ℕ) (a : A) (pin : Option Bytes) (w : W)
      → Bill m w
      → Ends (Billed m) J (attempt s rounds a pin w)
  unfolding attempt after_find
  attempt-Bill J m rounds a pin w h =
      let K = λ (failure : ScanFailure). Bill (m + wasted failure.reusable) in
      caught-Ends (λ found. Bill m) K (Billed m) J (after_find s rounds a) (find s rounds a pin w)
        (find-Ends s (Bill m) K (Bill-Finds m) rounds a pin w h) (after_find-Bill J m rounds a)
        (λ failure v k. k)
