-- ===== src/Transport/Btleplug/Sessions/Places.antt =====
-- Where the sessions of src/btleplug_transport.rs are.
use allsquare.Base.{
  ℕ, ◌+◌, ◌<◌, List, [], ◌∷◌, ◌++◌, Option, some, none, ◌≡◌, ◌==◌, refl, ap, arith, true, false,
  if◌then◌else◌, ltb,
}
use allsquare.Transport.Btleplug.Connect.{Attempt, gave_up, held, park, slot_after}
use allsquare.Transport.Btleplug.Sessions.{
  Sessions, parked, retired_by, dropped_by, after_attempt, start_from, Step, starts, ends,
  Reachable, initial, later,
}

-- How often a session is in a list, and among all of a process.
abbrev pub occurs : ℕ → List ℕ → ℕ
occurs n [] = 0
occurs n (x ∷ xs) = (if x == n then 1 else 0) + occurs n xs

abbrev pub places : ℕ → Sessions → ℕ
places n s =
    occurs n (parked s.slot) + occurs n s.scanning + (occurs n s.retired + occurs n s.dropped)

occurs-append : (n : ℕ) (xs ys : List ℕ) → occurs n (xs ++ ys) ≡ occurs n xs + occurs n ys
occurs-append n [] ys = omega arith
occurs-append n (x ∷ xs) ys = omega (arith, occurs-append n xs ys)

-- Each session opened is in one place.
record IsPlaced (s : Sessions) : Type 0 where
  placed : (n : ℕ) → places n s ≡ (if ltb n s.opened then 1 else 0)

start_from-IsPlaced :
    (slot : Option ℕ) (s : Sessions) → slot ≡ s.slot → IsPlaced s → IsPlaced (start_from slot s)
unfolding start_from
start_from-IsPlaced (some a) s e v = record {
  placed = λ n. omega (arith, v.placed n, ap (λ x. occurs n (parked x)) e);
}
start_from-IsPlaced none s e v = record {
  placed = λ n. ground (arith, v.placed n, ap (λ x. occurs n (parked x)) e);
}

module _ {P : Type 0} where
  slot_after-occurs :
      (n a : ℕ) (became : Attempt ℕ P) (slot : Option ℕ)
      → occurs n (parked (slot_after a became slot))
          + (occurs n (retired_by a became) + occurs n (dropped_by a became slot))
        ≡ (if a == n then 1 else 0) + occurs n (parked slot)
  unfolding slot_after park
  slot_after-occurs n a (gave_up e true) none = omega arith
  slot_after-occurs n a (gave_up e true) (some b) = omega arith
  slot_after-occurs n a (gave_up e false) slot = omega arith
  slot_after-occurs n a (held r) slot = omega arith

  -- The end of an attempt moves its session.
  after_attempt-places :
      (n a : ℕ) (became : Attempt ℕ P) (s : Sessions)
      → places n (after_attempt a became s) ≡ (if a == n then 1 else 0) + places n s
  unfolding after_attempt
  after_attempt-places n a became s = omega (
    arith,
    slot_after-occurs n a became s.slot,
    occurs-append n (retired_by a became) s.retired,
    occurs-append n (dropped_by a became s.slot) s.dropped,
  )

  step-IsPlaced : {s t : Sessions} → Step P s t → IsPlaced s → IsPlaced t
  unfolding after_attempt
  step-IsPlaced (starts s) v = start_from-IsPlaced s.slot s refl v
  step-IsPlaced (ends s before after a became e) v = record {
    placed = λ n. omega (
      arith,
      v.placed n,
      after_attempt-places n a became (record s { scanning = before ++ after }),
      occurs-append n before (a ∷ after),
      occurs-append n before after,
      ap (occurs n) e,
    );
  }

  Reachable-IsPlaced : {s : Sessions} → Reachable P s → IsPlaced s
  Reachable-IsPlaced initial = record { placed = λ n. ground arith }
  Reachable-IsPlaced (later r k) = step-IsPlaced k (Reachable-IsPlaced r)

  -- However the attempts of a process overlap, and whatever becomes of each, a session that was
  -- opened is in one place only: it is the one in the slot, or one attempt scans with it, or it has
  -- held a connection, or it was let go; and one that has held a connection is neither parked nor
  -- scans again.
  pub Reachable-places :
      {s : Sessions} (n : ℕ)
      → Reachable P s
      → (places n s ≡ (if ltb n s.opened then 1 else 0))
        × (0 < occurs n s.retired → occurs n (parked s.slot) + occurs n s.scanning ≡ 0)
  Reachable-places {s} n r =
      let v = (Reachable-IsPlaced r).placed n in (v, λ h. ground (arith, v, h))
