-- ===== src/Protocol/Pins.antt =====
-- Laws of the names of src/protocol.rs and the pins of src/ble.rs.
use allsquare.Base.{[], ◌∷◌, ◌++◌, none, some, ◌≡◌, refl, Bytes, ==_refl}
use allsquare.Text.{codes, strip_prefix, strip_last, rsplit_once}
use allsquare.Protocol.Names.{bracketed, advertised_name, matches_pin}

-- A name as macOS caches it: the GAP name, and the advertised name in brackets.
abbrev pub cached_name : Bytes → Bytes → Bytes
cached_name gap adv = (gap ++ b' ' ∷ b'[' ∷ adv) ++ b']' ∷ []

strip_last-append : (c : _) (s : Bytes) → strip_last c (s ++ c ∷ []) ≡ some s
unfolding strip_last
strip_last-append c [] = rw (==_refl c) refl
strip_last-append c (x ∷ []) = rw (==_refl c, strip_last) refl
strip_last-append c (x ∷ y ∷ s) = rw (strip_last-append c (y ∷ s), strip_last) refl

rsplit_once-append :
    (gap adv : Bytes)
    → rsplit_once (codes " [") adv ≡ none
    → rsplit_once (codes " [") (gap ++ b' ' ∷ b'[' ∷ adv) ≡ some (gap, adv)
unfolding rsplit_once strip_prefix
rsplit_once-append [] adv h = rw h refl
rsplit_once-append (x ∷ gap) adv h = rw (rsplit_once-append gap adv h) refl

bracketed-cached_name :
    (gap adv : Bytes) → rsplit_once (codes " [") adv ≡ none → bracketed (cached_name gap adv) ≡ adv
unfolding bracketed
bracketed-cached_name gap adv h =
    rw (strip_last-append b']' (gap ++ b' ' ∷ b'[' ∷ adv), bracketed, rsplit_once-append gap adv h)
      refl

bracketed-plain : (adv : Bytes) → strip_last b']' adv ≡ none → bracketed adv ≡ adv
unfolding bracketed
bracketed-plain adv k = rw (k, bracketed) refl

-- A name that holds no opening bracket after a space and does not end in a closing bracket is pinned
-- alike as it is and as macOS caches it after any GAP name.
pub matches_pin-cached_name :
    (want address gap adv : Bytes)
    → rsplit_once (codes " [") adv ≡ none
    → strip_last b']' adv ≡ none
    → matches_pin want address (cached_name gap adv) ≡ matches_pin want address adv
unfolding matches_pin advertised_name
matches_pin-cached_name want address gap adv h k =
    rw (bracketed-cached_name gap adv h, bracketed-plain adv k) refl
