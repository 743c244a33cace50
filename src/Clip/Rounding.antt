-- ===== src/Clip/Rounding.antt =====
-- How `TimelinePosition` of src/clip.rs rounds.
use segmentor.Common.{
  ℕ, ◌+◌, ◌*◌, ◌/◌, ◌%◌, ◌≤◌, ◌<◌, ◌≡◌, refl, sym, ap, ◌∙◌, Bool, true, false, none, some, arith,
  ltb, ◌==◌, if◌then◌else◌, if-some,
}
use native.Mathlib.Nat.{div-add-mod', mod-lt}
use segmentor.Error.{ok, ◌>>=◌, ok_or, >>=-eq-ok, ok_or-eq-ok, checked_add, u64_mod}
use segmentor.Clip.Time.{in_ticks, after_ticks, nanos_per_second, overflow, fit_u64, checked_div}

-- Two rounded divisions, one after the other, lose less than two ticks.
rounded_twice :
    (position ticks timescale nanos : ℕ)
    → 0 < timescale
    → timescale ≤ nanos_per_second
    → nanos ≡ ticks * nanos_per_second / timescale
    → ((position + nanos) * timescale / nanos_per_second
        ≤ position * timescale / nanos_per_second + ticks)
      × (position * timescale / nanos_per_second + ticks
          ≤ (position + nanos) * timescale / nanos_per_second + 1)
rounded_twice position ticks timescale nanos h k e =
    rw (e, add-mul position (ticks * nanos_per_second / timescale) timescale)
      (floors (position * timescale) (ticks * nanos_per_second / timescale * timescale)
        (ticks * nanos_per_second % timescale) (div-add-mod' (ticks * nanos_per_second) timescale)
        (mod-lt (ticks * nanos_per_second) h))
  where
    add-mul : (a b c : ℕ) → (a + b) * c ≡ a * c + b * c
    add-mul a b c = grind arith

    floors :
        (x y r : ℕ)
        → y + r ≡ ticks * nanos_per_second
        → r < timescale
        → ((x + y) / nanos_per_second ≤ x / nanos_per_second + ticks)
          × (x / nanos_per_second + ticks ≤ (x + y) / nanos_per_second + 1)
    floors x y r f l = (omega (arith, k), omega (arith, k))

in_ticks-eq-ok :
    (position timescale : ℕ) {ticks : ℕ}
    → in_ticks position timescale ≡ ok ticks
    → ticks ≡ position * timescale / nanos_per_second
unfolding in_ticks
in_ticks-eq-ok position timescale e =
    sym
      (if-some (ltb (position * timescale / nanos_per_second) u64_mod)
        (ok_or-eq-ok (fit_u64 (position * timescale / nanos_per_second)) overflow e)).1

after_ticks-eq-ok :
    (position ticks timescale : ℕ) {end : ℕ}
    → after_ticks position ticks timescale ≡ ok end
    → (0 < timescale) × (end ≡ position + ticks * nanos_per_second / timescale)
unfolding after_ticks
after_ticks-eq-ok position ticks timescale e =
    let divided =
      >>=-eq-ok (ok_or (checked_div (ticks * nanos_per_second) timescale) overflow)
        (λ nanos. ok_or (fit_u64 nanos) overflow >>= λ fitting.
          ok_or (checked_add position fitting) overflow)
        e in
    let fitted =
      >>=-eq-ok (ok_or (fit_u64 divided.0) overflow)
        (λ fitting. ok_or (checked_add position fitting) overflow) divided.2 in
    let quotient =
      if-divided (timescale == 0)
        (ok_or-eq-ok (checked_div (ticks * nanos_per_second) timescale) overflow divided.1) in
    let same =
      (if-some (ltb divided.0 u64_mod) (ok_or-eq-ok (fit_u64 divided.0) overflow fitted.1)).1 in
    let total =
      (if-some (ltb (position + fitted.0) u64_mod)
        (ok_or-eq-ok (checked_add position fitted.0) overflow fitted.2)).1 in
    (ground arith, omega (arith, quotient.1, same, total))
  where
    if-divided :
        (b : Bool) {x y : ℕ} → (if b then none else some x) ≡ some y → (b ≡ false) × (x ≡ y)
    if-divided true h = cc
    if-divided false h = (refl, cc h)

-- For a timescale of at most one tick a nanosecond, the place in ticks of the position that lies
-- some ticks after another is the place of the other plus these ticks, or one less.
pub in_ticks-after_ticks :
    (position ticks timescale end before after : ℕ)
    → timescale ≤ nanos_per_second
    → after_ticks position ticks timescale ≡ ok end
    → in_ticks position timescale ≡ ok before
    → in_ticks end timescale ≡ ok after
    → (after ≤ before + ticks) × (before + ticks ≤ after + 1)
in_ticks-after_ticks position ticks timescale end before after h e f g =
    let moved = after_ticks-eq-ok position ticks timescale e in
    let bounds =
      rounded_twice position ticks timescale (ticks * nanos_per_second / timescale) moved.0 h
        refl in
    let later : after
        ≡ (position + ticks * nanos_per_second / timescale) * timescale / nanos_per_second =
      in_ticks-eq-ok end timescale g ∙ ap (λ p. p * timescale / nanos_per_second) moved.1 in
    (
      omega (arith, bounds.0, later, in_ticks-eq-ok position timescale f),
      omega (arith, bounds.1, later, in_ticks-eq-ok position timescale f),
    )
