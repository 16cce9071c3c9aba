-- ===== src/Protocol/Safety.antt =====
-- The parser of src/protocol.rs never reads out of range.
use Prim.Native.String.{String}
use allsquare.Base.{
  ℕ, ◌+◌, ◌*◌, ◌≤◌, ◌<◌, Bool, true, false, ◌≡◌, refl, ◌↔◌, inl, inr, [], ◌∷◌, arith, ltb, ◌==◌,
  if◌then◌else◌, Bool-cases, length, drop, Bytes,
}
use allsquare.Build.{Build}
use allsquare.Error.{
  NoPanic, Error, Outcome, err, ◌>>◌, IsAnswer, IsAnswer-NoPanic, IsAnswer-ne, bind_IsAnswer,
  index-IsAnswer, slice-eq-ok, slice_from-eq-ok,
}
use allsquare.Protocol.Parse.{
  need, i16_at, i32_at, hundredths_at, get_scaled, parse_sensor, parse_ball, club_fields,
  parse_club, parse_ack, parse_alignment, parse_query, parse_kind, parse_11, parse_battery,
  parse_clock, parse_family, parse,
}

-- Behind `need`, the bytes are there.
pub after_need :
    {A : Type 0} (kind : String) (bytes : Bytes) (n : ℕ) (k : Outcome A)
    → (n ≤ length bytes → IsAnswer k)
    → IsAnswer (need kind bytes n >> k)
unfolding need
after_need kind bytes n k h = elim (Bool-cases (ltb (length bytes) n)) [
  | inl e ↦ rw (e, need) tt
  | inr e ↦ rw (e, need) (h (ground arith))
]

ne-zero : (bytes : Bytes) → 0 < length bytes → (length bytes == 0) ≡ false
ne-zero bytes h = ground arith

choose :
    {A : Type 0} (t : Bool) (x y : Outcome A)
    → IsAnswer x
    → IsAnswer y
    → IsAnswer (if t then x else y)
choose true x y h k = h
choose false x y h k = k

i16_at-IsAnswer : (bytes : Bytes) (off : ℕ) → off + 1 < length bytes → IsAnswer (i16_at bytes off)
unfolding i16_at
i16_at-IsAnswer bytes off h =
    bind_IsAnswer _ _ (index-IsAnswer bytes off (omega arith))
      λ _. bind_IsAnswer _ _ (index-IsAnswer bytes (off + 1) h) λ _. tt

i32_at-IsAnswer : (bytes : Bytes) (off : ℕ) → off + 3 < length bytes → IsAnswer (i32_at bytes off)
unfolding i32_at
i32_at-IsAnswer bytes off h = bind_IsAnswer _ _ (index-IsAnswer bytes off (omega arith)) λ _.
    bind_IsAnswer _ _ (index-IsAnswer bytes (off + 1) (omega arith)) λ _.
      bind_IsAnswer _ _ (index-IsAnswer bytes (off + 2) (omega arith))
        λ _. bind_IsAnswer _ _ (index-IsAnswer bytes (off + 3) h) λ _. tt

module _ {F : Type 0} (b : Build F) where
  hundredths_at-IsAnswer :
      (bytes : Bytes) (off : ℕ) → off + 1 < length bytes → IsAnswer (hundredths_at b bytes off)
  unfolding hundredths_at
  hundredths_at-IsAnswer bytes off h = bind_IsAnswer _ _ (i16_at-IsAnswer bytes off h) λ _. tt

  -- The club fields are read only where the body holds them.
  get_scaled-IsAnswer :
      (mask : ℕ) (body : Bytes) (i bit : ℕ) (scale : F)
      → IsAnswer (get_scaled b mask body i bit scale)
  unfolding get_scaled
  get_scaled-IsAnswer mask body i bit scale = elim (Bool-cases (ltb (length body) ((i + 1) * 2))) [
    | inl e ↦ rw (e, get_scaled) tt
    | inr e ↦
        rw (e, get_scaled) (bind_IsAnswer _ _ (i16_at-IsAnswer body (i * 2) (ground arith)) λ _. tt)
  ]

  parse_sensor-IsAnswer : (bytes : Bytes) → IsAnswer (parse_sensor b bytes)
  unfolding parse_sensor
  parse_sensor-IsAnswer bytes = after_need "sensor" bytes 17 _ λ h.
      bind_IsAnswer _ _ (index-IsAnswer bytes 3 (omega arith)) λ _.
        bind_IsAnswer _ _ (index-IsAnswer bytes 4 (omega arith)) λ _.
          bind_IsAnswer _ _ (i32_at-IsAnswer bytes 5 (omega arith)) λ _.
            bind_IsAnswer _ _ (i32_at-IsAnswer bytes 9 (omega arith))
              λ _. bind_IsAnswer _ _ (i32_at-IsAnswer bytes 13 (omega arith)) λ _. tt

  parse_ball-IsAnswer : (bytes : Bytes) → IsAnswer (parse_ball b bytes)
  unfolding parse_ball
  parse_ball-IsAnswer bytes = after_need "ball" bytes 17 _ λ h.
      bind_IsAnswer _ _ (index-IsAnswer bytes 2 (omega arith)) λ _.
        bind_IsAnswer _ _ (hundredths_at-IsAnswer bytes 3 (omega arith)) λ _.
          bind_IsAnswer _ _ (hundredths_at-IsAnswer bytes 5 (omega arith)) λ _.
            bind_IsAnswer _ _ (hundredths_at-IsAnswer bytes 7 (omega arith)) λ _.
              bind_IsAnswer _ _ (i16_at-IsAnswer bytes 9 (omega arith)) λ _.
                bind_IsAnswer _ _ (hundredths_at-IsAnswer bytes 11 (omega arith)) λ _.
                  bind_IsAnswer _ _ (i16_at-IsAnswer bytes 13 (omega arith))
                    λ _. bind_IsAnswer _ _ (i16_at-IsAnswer bytes 15 (omega arith)) λ _. tt

  club_fields-IsAnswer : (mask : ℕ) (body : Bytes) → IsAnswer (club_fields b mask body)
  unfolding club_fields
  club_fields-IsAnswer mask body = bind_IsAnswer _ _ (get_scaled-IsAnswer mask body 0 0 _) λ _.
      bind_IsAnswer _ _ (get_scaled-IsAnswer mask body 1 1 _) λ _.
        bind_IsAnswer _ _ (get_scaled-IsAnswer mask body 2 2 _) λ _.
          bind_IsAnswer _ _ (get_scaled-IsAnswer mask body 3 3 _) λ _.
            bind_IsAnswer _ _ (get_scaled-IsAnswer mask body 4 4 _) λ _.
              bind_IsAnswer _ _ (get_scaled-IsAnswer mask body 5 5 _) λ _.
                bind_IsAnswer _ _ (get_scaled-IsAnswer mask body 6 6 _)
                  λ _. bind_IsAnswer _ _ (get_scaled-IsAnswer mask body 7 7 _) λ _. tt

  parse_club-IsAnswer : (bytes : Bytes) → IsAnswer (parse_club b bytes)
  unfolding parse_club
  parse_club-IsAnswer bytes = after_need "club" bytes 3 _ λ h.
      bind_IsAnswer _ _ (index-IsAnswer bytes 2 (omega arith)) λ mask.
        rw (slice_from-eq-ok bytes 3 (omega arith))
          (bind_IsAnswer _ _ (club_fields-IsAnswer mask (drop 3 bytes)) λ _. tt)

  parse_ack-IsAnswer : (bytes : Bytes) → IsAnswer (parse_ack b bytes)
  unfolding parse_ack
  parse_ack-IsAnswer bytes =
      after_need "heartbeat ack" bytes 4 _
        λ h. bind_IsAnswer _ _ (index-IsAnswer bytes 3 (omega arith)) λ _. tt

  parse_alignment-IsAnswer : (bytes : Bytes) → IsAnswer (parse_alignment b bytes)
  unfolding parse_alignment
  parse_alignment-IsAnswer bytes =
      after_need "alignment" bytes 7 _
        λ h. bind_IsAnswer _ _ (hundredths_at-IsAnswer bytes 5 (omega arith)) λ _. tt

  parse_query-IsAnswer : (bytes : Bytes) → 2 ≤ length bytes → IsAnswer (parse_query b bytes)
  unfolding parse_query
  parse_query-IsAnswer bytes h = rw (slice_from-eq-ok bytes 2 h) tt

  parse_kind-IsAnswer :
      (kind : ℕ) (bytes : Bytes) → 2 ≤ length bytes → IsAnswer (parse_kind b kind bytes)
  unfolding parse_kind
  parse_kind-IsAnswer kind bytes h = choose (kind == 0x01) _ _ (parse_sensor-IsAnswer bytes) (
      choose (kind == 0x02) _ _ (parse_ball-IsAnswer bytes) (
        choose (kind == 0x03) _ _ (parse_ack-IsAnswer bytes) (
          choose (kind == 0x04) _ _ (parse_alignment-IsAnswer bytes) (
            choose (kind == 0x06) _ _ (parse_query-IsAnswer bytes h)
              (choose (kind == 0x07) _ _ (parse_club-IsAnswer bytes) tt)))))

  parse_11-IsAnswer : (bytes : Bytes) → IsAnswer (parse_11 b bytes)
  unfolding parse_11
  parse_11-IsAnswer bytes = after_need "notification" bytes 2 _ λ h.
      bind_IsAnswer _ _ (index-IsAnswer bytes 1 (omega arith))
        λ kind. parse_kind-IsAnswer kind bytes h

  parse_battery-IsAnswer : (bytes : Bytes) → IsAnswer (parse_battery b bytes)
  unfolding parse_battery
  parse_battery-IsAnswer bytes = after_need "battery" bytes 3 _ λ h.
      bind_IsAnswer _ _ (index-IsAnswer bytes 1 (omega arith))
        λ _. bind_IsAnswer _ _ (index-IsAnswer bytes 2 (omega arith)) λ _. tt

  parse_clock-IsAnswer : (bytes : Bytes) → IsAnswer (parse_clock b bytes)
  unfolding parse_clock
  parse_clock-IsAnswer bytes =
      after_need "clock" bytes 9 _ λ h. rw (slice-eq-ok bytes 1 9 (omega arith) h) tt

  pub parse-IsAnswer : (bytes : Bytes) → 0 < length bytes → IsAnswer (parse b bytes)
  unfolding parse parse_family
  parse-IsAnswer bytes h =
      rw (ne-zero bytes h, parse)
        (bind_IsAnswer _ _ (index-IsAnswer bytes 0 h) λ family.
          choose (family == 0x91) _ _ (parse_battery-IsAnswer bytes) (
            choose (family == 0x71) _ _ (parse_clock-IsAnswer bytes)
              (choose (family == 0x11) _ _ (parse_11-IsAnswer bytes) tt)))

  -- Whatever bytes arrive, `parse` returns a notification or an error: no read is out of range.
  pub parse-NoPanic : (bytes : Bytes) → NoPanic (parse b bytes)
  unfolding parse
  parse-NoPanic [] = tt
  parse-NoPanic (x ∷ xs) = IsAnswer-NoPanic _ (parse-IsAnswer (x ∷ xs) (omega arith))

  -- `parse` says that the link is gone for the empty payload, and for no other.
  pub parse-disconnected : (bytes : Bytes) → (parse b bytes ≡ err Error.disconnected) ↔ (bytes ≡ [])
  unfolding parse
  parse-disconnected [] = (λ _. refl, λ _. refl)
  parse-disconnected (x ∷ xs) =
      (λ e. absurd (IsAnswer-ne _ (parse-IsAnswer (x ∷ xs) (omega arith)) e), λ e. cc)
