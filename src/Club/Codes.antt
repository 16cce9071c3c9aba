-- ===== src/Club/Codes.antt =====
-- Laws of the wire codes of src/club.rs.
use allsquare.Base.{
  ℕ, Bool, true, List, [], ◌∷◌, some, ◌≡◌, ◌↔◌, refl, ap, arith, ==_iff, Bool-cases, inl, inr,
  get_elem?,
}
use allsquare.Club.{
  Category, category_code, Club, code, all_clubs, has_code, find, from_code, discriminant,
  same_club,
}

get_elem?-discriminant : (c : Club) → get_elem? all_clubs (discriminant c) ≡ some c
get_elem?-discriminant Club.driver = refl
get_elem?-discriminant _ = refl

discriminant-injective : (a b : Club) → discriminant a ≡ discriminant b → a ≡ b
discriminant-injective a b h =
    cc (get_elem?-discriminant a, get_elem?-discriminant b, ap (get_elem? all_clubs) h)

pub same_club_iff : (a b : Club) → (same_club a b ≡ true) ↔ (a ≡ b)
unfolding same_club
same_club_iff a b =
    (λ h. discriminant-injective a b ((==_iff _ _).0 h), λ h. (==_iff _ _).1 (ap discriminant h))

-- Two categories with one code are one category.
category_code-injective : (a b : Category) → category_code a ≡ category_code b → a ≡ b
unfolding category_code
category_code-injective Category.driver b h = ground arith
category_code-injective _ b h = ground arith

find-eq-some {ℓ} :
    {A : Type ℓ} (p : A → Bool) (xs : List A) {a : A} → find p xs ≡ some a → p a ≡ true
unfolding find
find-eq-some p [] h = cc
find-eq-some p (x ∷ xs) {a} h = elim (Bool-cases (p x)) [
  | inl e ↦ let same : x ≡ a = cc (rw (e, find) at h) in rw (← same) e
  | inr e ↦ find-eq-some p xs (rw (e, find) at h)
]

has_code_iff :
    (number category : ℕ) (c : Club)
    → (has_code number category c ≡ true)
      ↔ (((code c).0 ≡ number) × (category_code (code c).1 ≡ category))
unfolding has_code
has_code_iff number category c = ground arith

pub from_code-code : (c : Club) → from_code (code c).0 (category_code (code c).1) ≡ some c
unfolding from_code code category_code
from_code-code Club.driver = refl
from_code-code _ = refl

-- Looking a pair of wire bytes up gives a club exactly when the pair is that club's code, so no
-- two clubs share a code and `from_code` inverts `code`.
pub from_code_iff :
    (number category : ℕ) (c : Club)
    → (from_code number category ≡ some c)
      ↔ (((code c).0 ≡ number) × (category_code (code c).1 ≡ category))
from_code_iff number category c = (
  λ h.
      (has_code_iff number category c).0
        (unfold from_code in find-eq-some (has_code number category) all_clubs h),
  λ e. rw (← e.0, ← e.1) (from_code-code c),
)

-- The pair of code bytes determines the club.
pub code-injective :
    (a b : Club)
    → (code a).0 ≡ (code b).0
    → category_code (code a).1 ≡ category_code (code b).1
    → a ≡ b
code-injective a b h k =
    cc ((from_code_iff (code b).0 (category_code (code b).1) a).1 (h, k), from_code-code b)
