-- ===== src/Transport/Btleplug/Sessions/Bounds.antt =====
-- The Bluetooth sessions that calls of `connect` in src/btleplug_transport.rs open in a process.
use Prim.Native.String.{String}
use allsquare.Transport.Tasks.Ends.{Ends, and_then-Ends}
use allsquare.Transport.Tasks.{Result, good, bad, and_then}
use allsquare.Base.{
  ℕ, suc, ◌+◌, ◌≤◌, Bool-cases, true, false, List, [], ◌∷◌, Option, some, none, ◌≡◌, refl, ap,
  arith, inl, inr, Bytes, subst,
}
use allsquare.Error.{Error}
use allsquare.Transport.Btleplug.Calls.{
  init_timeout, Answer, ended, denied, refused, elapsed, System, op, op_result,
}
use allsquare.Transport.Btleplug.Connect.{
  Process, Opened, Attempt, gave_up, held, within_at, built, runtime, first_adapter, open_session,
  cached_or_new, take_scanner, attempt, park, slot_after, result_of, settle, connect,
}
use allsquare.Transport.Btleplug.Logic.{op-Ends, within-Ends}
use allsquare.Transport.Btleplug.Sessions.Cost.{opens, used_up, Costs, Bill, Billed, attempt-Bill}

-- The sessions in the slot.
abbrev pub cached : {A : Type 0} → Option A → ℕ
cached none = 0
cached (some a) = 1

cached-cases : {A : Type 0} (slot : Option A) → cached slot ≤ 1
cached-cases none = omega arith
cached-cases (some a) = omega arith

slot_after-cached :
    {A P : Type 0} (a : A) (became : Attempt A P)
    → cached (slot_after a became none) + used_up became ≡ 1
unfolding slot_after park
slot_after-cached a (gave_up e true) = omega arith
slot_after-cached a (gave_up e false) = omega arith
slot_after-cached a (held r) = omega arith

module _ {W A P : Type 0} (s : System W A P) (opened spent : W → ℕ) (costs : Costs s opened spent)
    (n m : ℕ) where
  -- The bill of a process: the session in the slot is neither spent nor in use.
  abbrev Owed : Process W A → Type 0
  Owed p = Bill s opened spent costs (n + cached p.scanner) m p.world

  -- The bill while an attempt has its session, with nothing in the slot.
  abbrev InUse : Process W A → Type 0
  InUse p = Bill s opened spent costs (suc n) m p.world × (p.scanner ≡ none)

  built-Owed :
      (p : Process W A) (r : W × Option String)
      → opened r.0 + m ≡ (n + cached p.scanner) + spent r.0
      → Ends (λ u. Owed) (λ e. Owed) (built s p r)
  unfolding built
  built-Owed p (w, none) h = h
  built-Owed p (w, some e) h = h

  runtime-Owed : (p : Process W A) → Owed p → Ends (λ u. Owed) (λ e. Owed) (runtime s p)
  unfolding runtime
  runtime-Owed p h = elim (Bool-cases p.runtime) [
    | inl e ↦ rw e h
    | inr e ↦ rw e (
        built-Owed (record p { runtime = false }) (s.build_runtime p.world)
          ((costs.setting_up m (n + cached p.scanner)).built p.world h))
  ]

  first_adapter-Bill :
      (w : W) (answer : Answer (List A))
      → opened w + m ≡ n + (opens answer + spent w)
      → Ends
          (λ a v. opened v + m ≡ suc n + spent v)
          (λ e v. opened v + m ≡ n + spent v)
          (and_then (first_adapter s) (some (w, op_result "Bluetooth init" answer)))
  unfolding first_adapter op_result
  first_adapter-Bill w (ended []) h = omega (arith, h)
  first_adapter-Bill w (ended (a ∷ rest)) h = omega (arith, h)
  first_adapter-Bill w (denied e) h = omega (arith, h)
  first_adapter-Bill w (refused e) h = omega (arith, h)
  first_adapter-Bill w elapsed h = omega (arith, h)

  open_session-Bill :
      (w : W)
      → opened w + m ≡ n + spent w
      → Ends
          (λ a v. opened v + m ≡ suc n + spent v)
          (λ e v. opened v + m ≡ n + spent v)
          (open_session s w)
  unfolding open_session op
  open_session-Bill w h =
      let I = λ (v : W). opened v + m ≡ n + spent v in
      and_then-Ends (λ u. I) (λ a v. opened v + m ≡ suc n + spent v) (λ e. I) _
        (op "Bluetooth init" (s.new_manager init_timeout) w)
        (op-Ends I "Bluetooth init" (s.new_manager init_timeout) w
          ((costs.setting_up m n).managed init_timeout w h))
        (λ u v k.
          let (x, answer) = s.adapters init_timeout v in
          first_adapter-Bill x answer (
            omega
              (arith, k, costs.listed_opens init_timeout v, costs.listed_spends init_timeout v)))

  cached_or_new-Owed :
      (slot : Option A) (p : Process W A)
      → opened p.world + m ≡ (n + cached slot) + spent p.world
      → p.scanner ≡ none
      → Ends (λ a. InUse) (λ e. Owed) (cached_or_new s slot p)
  unfolding cached_or_new
  cached_or_new-Owed (some a) p h e = (omega (arith, h), e)
  cached_or_new-Owed none p h e =
      within-Ends (λ a v. opened v + m ≡ suc n + spent v) (λ e v. opened v + m ≡ n + spent v)
        (λ a. InUse) (λ e. Owed) p (open_session s p.world)
        (open_session-Bill p.world (omega (arith, h))) (λ a w k. (k, e))
        (λ e' w k. omega (arith, k, ap cached e))

  -- An attempt is over, and its session is parked or spent.
  abbrev Over : Attempt A P → Process W A → Type 0
  Over became p = Billed s opened spent costs (suc n) m became p.world × (p.scanner ≡ none)

  result-Owed :
      (p : Process W A) (r : Result Error (Opened A P))
      → Owed p
      → Ends (λ o. Owed) (λ e. Owed) (some (p, r))
  result-Owed p (good o) h = h
  result-Owed p (bad e) h = h

  settle-Owed :
      (a : A) (became : Attempt A P) (p : Process W A)
      → Over became p
      → Ends (λ o. Owed) (λ e. Owed) (settle s a became p)
  unfolding settle
  settle-Owed a became p (h, e) =
      result-Owed (record p { scanner = slot_after a became p.scanner }) (result_of became)
        (omega (arith, h, ap (λ x. cached (slot_after a became x)) e, slot_after-cached a became))

  connect-Owed :
      (rounds : ℕ) (pin : Option Bytes) (p : Process W A)
      → Owed p
      → Ends (λ o. Owed) (λ e. Owed) (connect s rounds pin p)
  unfolding connect take_scanner
  connect-Owed rounds pin p h =
      and_then-Ends (λ u. Owed) (λ o. Owed) (λ e. Owed) _ (runtime s p) (runtime-Owed p h)
        (λ u q k.
          and_then-Ends (λ a. InUse) (λ o. Owed) (λ e. Owed) _ (take_scanner s q)
            (cached_or_new-Owed q.scanner (record q { scanner = none }) k refl)
            (λ a x (k1, e).
              and_then-Ends Over (λ o. Owed) (λ e. Owed) (settle s a)
                (within_at x (attempt s rounds a pin x.world))
                (within-Ends (Billed s opened spent costs (suc n) m)
                  (λ e w. Owed (record x { world = w })) Over (λ e. Owed) x
                  (attempt s rounds a pin x.world)
                  (attempt-Bill s opened spent costs (suc n) (λ e w. Owed (record x { world = w }))
                    m rounds a pin x.world k1)
                  (λ became w k2. (k2, e)) (λ e' w k2. k2))
                (settle-Owed a)))

-- A process after some calls of `connect`, each with its pin and its result, that return one after
-- the other. Between them the operating system may be used and change, but for its sessions.
pub data Calls {W A P : Type 0} (s : System W A P) (opened spent : W → ℕ) (rounds : ℕ)
    (p : Process W A) : Process W A → Type 0 where
  no_call : Calls s opened spent rounds p p
  one_more :
      {q t : Process W A} (pin : Option Bytes) (r : Result Error (Opened A P))
      → Calls s opened spent rounds p q
      → connect s rounds pin q ≡ some (t, r)
      → Calls s opened spent rounds p t
  meanwhile :
      {q : Process W A} (w : W)
      → Calls s opened spent rounds p q
      → opened w ≡ opened q.world
      → spent w ≡ spent q.world
      → Calls s opened spent rounds p (record q { world = w })

module _ {W A P : Type 0} (s : System W A P) (opened spent : W → ℕ)
    (costs : Costs s opened spent) where
  -- The sessions of a process, before and after.
  abbrev Balanced : Process W A → Process W A → Type 0
  Balanced p q =
      opened q.world + (spent p.world + cached p.scanner)
      ≡ (opened p.world + cached q.scanner) + spent q.world

  returned-Balanced :
      (p : Process W A) (o : Option (Process W A × Result Error (Opened A P))) (q : Process W A)
      (r : Result Error (Opened A P))
      → Ends (λ x. Balanced p) (λ e. Balanced p) o
      → o ≡ some (q, r)
      → Balanced p q
  returned-Balanced p o q (good x) h e = subst (Ends (λ x. Balanced p) (λ e. Balanced p)) e h
  returned-Balanced p o q (bad x) h e = subst (Ends (λ x. Balanced p) (λ e. Balanced p)) e h

  Calls-Balanced : {rounds : ℕ} {p q : Process W A} → Calls s opened spent rounds p q → Balanced p q
  Calls-Balanced no_call = omega arith
  Calls-Balanced {rounds = rounds} {p = p} (one_more {q = q} {t = t} pin r calls e) =
      let h = Calls-Balanced calls in
      let k =
        returned-Balanced q (connect s rounds pin q) t r
          (connect-Owed s opened spent costs (opened q.world) (spent q.world + cached q.scanner)
            rounds pin q (omega arith))
          e in
      omega (arith, h, k)
  Calls-Balanced {rounds = rounds} {p = p} (meanwhile {q = q} w calls e1 e2) =
      omega (arith, Calls-Balanced calls, e1, e2)

  -- However many calls of `connect` a process makes one after the other, and whatever becomes of
  -- each, the Bluetooth sessions that they open, with the one that was in the slot, are those spent
  -- meanwhile, by a connection made or by Bluetooth found powered off, and the one left in the slot:
  -- at most one session more is opened than is spent, and no failure but those opens another.
  pub connect-sessions :
      {rounds : ℕ} {p q : Process W A}
      → Calls s opened spent rounds p q
      → (opened q.world + (spent p.world + cached p.scanner)
          ≡ (opened p.world + cached q.scanner) + spent q.world)
        × (opened q.world + spent p.world ≤ suc (opened p.world + spent q.world))
        × (opened p.world + spent q.world ≤ suc (opened q.world + spent p.world))
  connect-sessions {p = p} {q = q} calls =
      let h = Calls-Balanced calls in
      (h, omega (arith, h, cached-cases q.scanner), omega (arith, h, cached-cases p.scanner))
