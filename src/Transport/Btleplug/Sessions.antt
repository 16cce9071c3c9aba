-- ===== src/Transport/Btleplug/Sessions.antt =====
-- The sessions of the attempts that overlap in a process of src/btleplug_transport.rs: which adapter
-- is parked, scans, or has held a connection.
pub mod Places
pub mod Cost
pub mod Bounds
use allsquare.Base.{
  ℕ, zero, suc, ◌+◌, ◌<◌, ◌≤◌, List, [], ◌∷◌, ◌++◌, length, Option, some, none, ◌≡◌, ◌==◌, refl, ap,
  arith, true, false, if◌then◌else◌, length-append, ltb,
}
use allsquare.Error.{Error}
use allsquare.Transport.Btleplug.Connect.{Attempt, gave_up, held, park, slot_after}

-- The sessions of a process, each numbered by its opening: what the slot holds, the sessions of the
-- attempts under way, those that have held a connection, and those let go without one.
pub record Sessions : Type 0 where
  pub opened : ℕ
  pub slot : Option ℕ
  pub scanning : List ℕ
  pub retired : List ℕ
  pub dropped : List ℕ

abbrev pub parked : Option ℕ → List ℕ
parked none = []
parked (some a) = a ∷ []

module _ {P : Type 0} where
  abbrev pub retired_by : ℕ → Attempt ℕ P → List ℕ
  retired_by a (gave_up e reusable) = []
  retired_by a (held r) = a ∷ []

  -- A session is let go if it may not scan again, or finds another in the slot.
  abbrev pub dropped_by : ℕ → Attempt ℕ P → Option ℕ → List ℕ
  dropped_by a (gave_up e true) none = []
  dropped_by a (gave_up e true) (some b) = a ∷ []
  dropped_by a (gave_up e false) slot = a ∷ []
  dropped_by a (held r) slot = []

  -- `connect` after the attempt on session `a`.
  unfoldable pub after_attempt : ℕ → Attempt ℕ P → Sessions → Sessions
  after_attempt a became s = record s {
    slot = slot_after a became s.slot;
    retired = retired_by a became ++ s.retired;
    dropped = dropped_by a became s.slot ++ s.dropped;
  }

-- `take_scanner`, from what the slot holds, where the opening of a session succeeds.
unfoldable pub start_from : Option ℕ → Sessions → Sessions
start_from (some a) s = record s { slot = none; scanning = a ∷ s.scanning }
start_from none s = record s {
  opened = suc s.opened;
  slot = none;
  scanning = s.opened ∷ s.scanning;
}

abbrev pub start_attempt : Sessions → Sessions
start_attempt s = start_from s.slot s

-- A step of one of the attempts of a process: its start, or its end with what became of it. The
-- others are under way.
pub data Step (P : Type 0) : Sessions → Sessions → Type 0 where
  starts : (s : Sessions) → Step P s (start_attempt s)
  ends :
      (s : Sessions) (before after : List ℕ) (a : ℕ) (became : Attempt ℕ P)
      → s.scanning ≡ before ++ a ∷ after
      → Step P s (after_attempt a became (record s { scanning = before ++ after }))

-- The sessions of a process that has just started, and those that it comes to.
abbrev pub no_sessions : Sessions
no_sessions = record { opened = 0; slot = none; scanning = []; retired = []; dropped = [] }

pub data Reachable (P : Type 0) : Sessions → Type 0 where
  initial : Reachable P no_sessions
  later : {s t : Sessions} → Reachable P s → Step P s t → Reachable P t
