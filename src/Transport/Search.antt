-- ===== src/Transport/Search.antt =====
-- What the search of src/bluez.rs finds.
use allsquare.Base.{
  true, List, [], ◌∷◌, ◌++◌, Option, some, none, ◌≡◌, ◌==◌, inl, inr, refl, Bytes, Bool-cases,
  arith,
}
use allsquare.Protocol.Names.{name_prefix, matches_pin}
use allsquare.Text.{is_some, starts_with, strip_prefix}
use allsquare.Transport.Bluez.{
  DeviceProps, Managed, Hit, or_default, shown_name, hit_of, matched, look_at, look,
}

-- The name of a device: its alias, which is empty where it is no string, and only where it has none
-- its own name.
pub data Named (d : DeviceProps) : Bytes → Type 0 where
  by_alias : (a : Option Bytes) → d.alias ≡ some a → Named d (or_default a)
  by_name : d.alias ≡ none → Named d (or_default d.name)

-- The device that is looked for: the pinned one, or one whose name starts as those of a Square Golf.
abbrev pub Wanted : Option Bytes → Bytes → Bytes → Type 0
Wanted none address name = (rest : Bytes) × (name ≡ name_prefix ++ rest)
Wanted (some want) address name = matches_pin want address name ≡ true

-- The hit is the device at a path, and is looked for.
pub record IsTaken (pin : Option Bytes) (path : Bytes) (d : DeviceProps) (hit : Hit) : Type 0 where
  pub located : hit.path ≡ path
  pub addressed : hit.address ≡ or_default d.address
  pub named : Named d hit.name
  pub wanted : Wanted pin hit.address hit.name

-- An object is no device that is looked for.
abbrev pub IsPassed : Option Bytes → Managed → Type 0
IsPassed pin object =
    (d : DeviceProps) (hit : Hit) → object.device ≡ some d → IsTaken pin object.path d hit → ⊥

-- The hit is the first of the objects that is looked for.
pub data First (pin : Option Bytes) (hit : Hit) : List Managed → Type 0 where
  here :
      {object : Managed} {rest : List Managed} (d : DeviceProps)
      → object.device ≡ some d
      → IsTaken pin object.path d hit
      → First pin hit (object ∷ rest)
  there :
      {object : Managed} {rest : List Managed}
      → IsPassed pin object
      → First pin hit rest
      → First pin hit (object ∷ rest)

-- No object is looked for.
abbrev pub AllPassed : Option Bytes → List Managed → Type 0
AllPassed pin [] = Unit {0}
AllPassed pin (object ∷ rest) = IsPassed pin object × AllPassed pin rest

-- The two results of a search.
abbrev pub Finds : Option Bytes → List Managed → Option Hit → Type 0
Finds pin objects none = AllPassed pin objects
Finds pin objects (some hit) = First pin hit objects

alias-Named :
    (d : DeviceProps) (alias : Option (Option Bytes))
    → d.alias ≡ alias
    → Named d (elim alias [ some a ↦ or_default a | none ↦ or_default d.name ])
alias-Named d none e = by_name e
alias-Named d (some a) e = by_alias a e

shown_name-Named : (d : DeviceProps) → Named d (shown_name d)
unfolding shown_name
shown_name-Named d = alias-Named d d.alias refl

Named_unique : (d : DeviceProps) (name : Bytes) → Named d name → name ≡ shown_name d
unfolding shown_name
Named_unique d name (by_alias a e) = rw e refl
Named_unique d name (by_name e) = rw e refl

strip_prefix-append :
    (p s : Bytes) → is_some (strip_prefix p s) ≡ true → (rest : Bytes) × (s ≡ p ++ rest)
unfolding strip_prefix
strip_prefix-append [] s h = (s, refl)
strip_prefix-append (x ∷ p) [] h = absurd (ground arith)
strip_prefix-append (x ∷ p) (c ∷ s) h = elim (Bool-cases (x == c)) [
  | inl e ↦
      let same : x ≡ c = ground (arith, e) in
      let (rest, k) = strip_prefix-append p s (ground (arith, h, e)) in (rest, cc (same, k))
  | inr e ↦ absurd (ground (arith, h, e))
]

append-strip_prefix : (p rest : Bytes) → is_some (strip_prefix p (p ++ rest)) ≡ true
unfolding strip_prefix
append-strip_prefix [] rest = refl
append-strip_prefix (x ∷ p) rest = ground (arith, append-strip_prefix p rest)

matched-Wanted :
    (pin : Option Bytes) (address name : Bytes)
    → matched pin address name ≡ true
    → Wanted pin address name
unfolding matched starts_with
matched-Wanted none address name h = strip_prefix-append name_prefix name h
matched-Wanted (some want) address name h = h

Wanted-matched :
    (pin : Option Bytes) (address name : Bytes)
    → Wanted pin address name
    → matched pin address name ≡ true
unfolding matched starts_with
Wanted-matched none address name (rest, e) = rw e (append-strip_prefix name_prefix rest)
Wanted-matched (some want) address name h = h

-- A hit is what the search makes of its device.
IsTaken-hit_of :
    (pin : Option Bytes) (path : Bytes) (d : DeviceProps) (hit : Hit)
    → IsTaken pin path d hit
    → matched pin (hit_of path d).address (hit_of path d).name ≡ true
IsTaken-hit_of pin path d hit v =
    rw (← v.addressed, ← Named_unique d hit.name v.named)
      (Wanted-matched pin hit.address hit.name v.wanted)

-- An object that the search passes over.
pass-Finds :
    (pin : Option Bytes) (object : Managed) (rest : List Managed) (found : Option Hit)
    → IsPassed pin object
    → Finds pin rest found
    → Finds pin (object ∷ rest) found
pass-Finds pin object rest none a f = (a, f)
pass-Finds pin object rest (some hit) a f = there a f

look_at-Finds :
    (pin : Option Bytes) (object : Managed) (device : Option DeviceProps) (rest : List Managed)
    (found : Option Hit)
    → object.device ≡ device
    → Finds pin rest found
    → Finds pin (object ∷ rest) (look_at pin object.path device found)
unfolding look_at
look_at-Finds pin object none rest found e f =
    pass-Finds pin object rest found (λ d hit k v. absurd (cc (e, k))) f
look_at-Finds pin object (some d) rest found e f =
    let hit = hit_of object.path d in
    elim (Bool-cases (matched pin hit.address hit.name)) [
      | inl m ↦ rw m (
          here d e (record {
            located = refl;
            addressed = refl;
            named = shown_name-Named d;
            wanted = matched-Wanted pin hit.address hit.name m;
          }))
      | inr m ↦ rw m (
          pass-Finds pin object rest found
            (λ d' hit' k v. absurd (cc (m, e, k, IsTaken-hit_of pin object.path d' hit' v))) f)
    ]

-- A search takes the first device of the bus's objects that matches the pin, or whose name has the
-- prefix of the Square Golf names where nothing is pinned, with its path, its address and its name,
-- which is the alias where there is one; and it takes none only if no object is such a device.
pub look-Finds :
    (pin : Option Bytes) (objects : List Managed) → Finds pin objects (look pin objects)
unfolding look
look-Finds pin [] = tt
look-Finds pin (object ∷ rest) =
    look_at-Finds pin object object.device rest (look pin rest) refl (look-Finds pin rest)
