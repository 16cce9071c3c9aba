-- ===== src/Tests/Samples.antt =====
-- Sample surroundings: `f64` values counted in hundredths, and a transport that replays frames,
-- records what is written, and has a clock that ticks at each reading.
use allsquare.Base.{
  ℕ, suc, ◌+◌, ◌-◌, ◌*◌, ◌/◌, ◌≤◌, Bool, true, false, List, [], ◌∷◌, ◌++◌, none, ◌≡◌, refl, arith,
  leb, ltb, if◌then◌else◌, Bytes, length, take, drop, ℤ, pos, negsuc, neg_ℤ,
}
use allsquare.Build.{Build, lit}
use allsquare.Error.{Io, done, failed, would_block}
use allsquare.Testing.{wire}
use allsquare.Testing.Balls.{IsExact}
use allsquare.Text.{codes}
use allsquare.Client.State.{Host}
use allsquare.Client.Replay.Script.{Delivers}
use allsquare.Client.Safety.{ReadsWithin}

abbrev magnitude : ℤ → ℕ
magnitude (pos n) = n
magnitude (negsuc n) = suc n

abbrev on_magnitude : (ℕ → ℕ) → ℤ → ℤ
on_magnitude f (pos n) = pos (f n)
on_magnitude f (negsuc n) = neg_ℤ (pos (f (suc n)))

abbrev less : ℤ → ℤ → Bool
less (pos m) (pos n) = ltb m n
less (pos m) (negsuc n) = false
less (negsuc m) (pos n) = true
less (negsuc m) (negsuc n) = ltb n m

abbrev sum : ℤ → ℤ → ℤ
sum (pos m) (pos n) = pos (m + n)
sum (negsuc m) (negsuc n) = negsuc (m + n + 1)
sum (pos m) (negsuc n) = if ltb n m then pos (m - n - 1) else negsuc (n - m)
sum (negsuc m) (pos n) = if ltb m n then pos (n - m - 1) else negsuc (m - n)

abbrev pub centi : Build ℤ
centi = record {
  raw_face_impact = false;
  of_int = on_magnitude (λ n. n * 100);
  add = sum;
  mul = λ x y. on_magnitude (λ n. n * magnitude y / 100) x;
  div = λ x y. on_magnitude (λ n. n * 100 / magnitude y) x;
  neg = neg_ℤ;
  round = on_magnitude (λ n. (n + 50) / 100 * 100);
  clamp = λ v lo hi. if less v lo then lo else if less hi v then hi else v;
  as_i16 = on_magnitude (λ n. n / 100);
}

pub centi-IsExact : IsExact centi (lit centi 100)
unfolding wire
centi-IsExact (pos n) h = ground arith
centi-IsExact (negsuc n) h = ground arith

-- The world of the replaying transport.
pub record Line : Type 0 where
  pub frames : List Bytes
  pub written : List Bytes
  pub clock : ℕ

abbrev pub empty_read : Io ℕ
empty_read = failed (record { kind = would_block; message = "empty" })

abbrev replay_read : List Bytes → Line → Bytes → Line × Bytes × Io ℕ
replay_read [] w buf = (w, buf, empty_read)
replay_read (f ∷ fs) w buf =
    if leb (length f) (length buf)
    then (record w { frames = fs }, f ++ drop (length f) buf, done (length f))
    else (w, buf, empty_read)

abbrev reply_of : Line → ℕ → Line × Io Bytes
reply_of w uuid = (w, done (codes "3.1"))

abbrev pub replay : Host Line
replay = record {
  read = λ w buf. replay_read w.frames w buf;
  write = λ w frame. (record w { written = w.written ++ frame ∷ [] }, done tt);
  read_characteristic = reply_of;
  model_hint = λ w. none;
  now = λ w. (record w { clock = w.clock + 1 }, w.clock);
}

take-append : (f rest : Bytes) → take (length f) (f ++ rest) ≡ f
take-append [] rest = refl
take-append (x ∷ f) rest = rw (take-append f rest)

length-filled :
    (f buf : Bytes) → length f ≤ length buf → length (f ++ drop (length f) buf) ≡ length buf
length-filled [] buf h = refl
length-filled (x ∷ f) [] h = absurd (omega arith)
length-filled (x ∷ f) (y ∷ buf) h = omega (arith, length-filled f buf (omega arith))

pub replay-Delivers : Delivers replay (λ w. w.frames)
replay-Delivers = record {
  writes = λ w frame. refl;
  write_keeps = λ w frame. refl;
  now_keeps = λ w. refl;
  reads =
      λ w buf f fs e h. ground (arith, take-append f (drop (length f) buf), length-filled f buf h);
}

replay_read-within :
    (fs : List Bytes) (w : Line) (buf : Bytes)
    → (length (replay_read fs w buf).1 ≡ length buf)
      × ((n : ℕ) → (replay_read fs w buf).2 ≡ done n → n ≤ length buf)
replay_read-within [] w buf = (refl, λ n e. cc)
replay_read-within (f ∷ fs) w buf = (ground (arith, length-filled f buf), λ n e. ground arith)

pub replay-ReadsWithin : ReadsWithin replay
replay-ReadsWithin w buf = replay_read-within w.frames w buf
