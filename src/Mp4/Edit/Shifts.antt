-- ===== src/Mp4/Edit/Shifts.antt =====
-- The shifts of src/mp4/edit.rs are never negative.
use segmentor.Common.{
  ℕ, zero, suc, ◌+◌, ◌-◌, ◌*◌, ◌/◌, ◌≤◌, ◌<◌, ◌≡◌, refl, sym, ap, ◌∙◌, List, arith, All,
  All-get_elem?, get_elem?, some,
}
use segmentor.Common.Int.{ℤ, pos, ◌+ℤ◌, ◌-ℤ◌, ◌*ℤ◌}
use native.Mathlib.Nat.{le-div_iff_mul-le}
use segmentor.Error.{ok-injective, ok, Ensures, ensures-bind, ensures-mono}
use segmentor.Mp4.Edit.{Timed, i128, shared_offset, shift_of, div_euclid}
use segmentor.Mp4.Edit.Offset.{
  i128_lem, i128_is, positive_product, product, Reaches, shared_offset-Shared,
}

le_div : (m a b : ℕ) → 0 < b → m * b ≤ a → m ≤ a / b
le_div m a b p h = (le-div_iff_mul-le p).1 h

div_euclid_pos : (a b : ℕ) → 0 < b → div_euclid (pos a) (pos b) ≡ ok (pos (a / b))
unfolding div_euclid
div_euclid_pos a zero p = absurd (omega arith)
div_euclid_pos a (suc b) p = refl

-- In halves: the ticks that are rounded are no fewer than those of the edit's start.
enough_ticks :
    (movie n d : ℕ) (e : Timed)
    → Reaches movie n d e
    → e.0.media_time * (2 * (movie * d)) ≤ 2 * ((e.0.delay * d + n * movie) * e.1) + movie * d
enough_ticks movie n d (edit, timescale) h = omega (arith, h, halves, spread)
  where
    halves : edit.media_time * (2 * (movie * d)) ≡ 2 * (edit.media_time * movie * d)
    halves = grind arith

    spread :
        (edit.delay * d + n * movie) * timescale
        ≡ n * (timescale * movie) + edit.delay * timescale * d
    spread = grind arith

plus_pos : (a b : ℕ) → pos a +ℤ pos b ≡ pos (a + b)
plus_pos a b = ground arith

not_below : (a b : ℕ) → b ≤ a → (m : ℕ) × (pos a -ℤ pos b ≡ pos m)
not_below a b h = (a - b, ground arith)

-- The last step: the rounded ticks, less the edit's start.
rounded_pos :
    (movie n d : ℕ) (e : Timed) (ticks : ℤ)
    → 0 < movie
    → 0 < d
    → Reaches movie n d e
    → div_euclid (pos (2 * ((e.0.delay * d + n * movie) * e.1) + movie * d)) (pos (2 * (movie * d)))
      ≡ ok ticks
    → Ensures (i128 (ticks -ℤ pos e.0.media_time)) (λ z. (m : ℕ) × (z ≡ pos m))
rounded_pos movie n d e ticks r p h q =
    let whole = 2 * ((e.0.delay * d + n * movie) * e.1) + movie * d in
    let halves = 2 * (movie * d) in
    let positive : 0 < halves = omega (arith, positive_product movie d r p) in
    let ticks_is : ticks ≡ pos (whole / halves) =
      ok-injective (sym q ∙ div_euclid_pos whole halves positive) in
    let (m, m_is) =
      not_below (whole / halves) e.0.media_time
        (le_div e.0.media_time whole halves positive (enough_ticks movie n d e h)) in
    ensures-mono (λ z k. (m, k ∙ ap (λ t. t -ℤ pos e.0.media_time) ticks_is ∙ m_is))
      (i128_lem (ticks -ℤ pos e.0.media_time))

-- A shift from an offset that the edit reaches is not negative.
shift_of-pos :
    (movie n d : ℕ) (e : Timed)
    → 0 < movie
    → 0 < d
    → Reaches movie n d e
    → Ensures (shift_of movie (pos n, pos d) e) (λ z. (m : ℕ) × (z ≡ pos m))
unfolding shift_of
shift_of-pos movie n d e r p h = ensures-bind (i128 (pos e.0.delay *ℤ pos d)) λ waits e1.
    ensures-bind (i128 (pos n *ℤ pos movie)) λ starts e2.
      ensures-bind (i128 (waits +ℤ starts)) λ sum e3.
        ensures-bind (i128 (sum *ℤ pos e.1)) λ scaled e4.
          ensures-bind (i128 (pos movie *ℤ pos d)) λ denominator e5.
            ensures-bind (i128 (pos 2 *ℤ scaled)) λ twice e6.
              ensures-bind (i128 (twice +ℤ denominator)) λ dividend e7.
                ensures-bind (i128 (pos 2 *ℤ denominator)) λ divisor e8.
                  ensures-bind (div_euclid dividend divisor) λ ticks e9.
                    let waits_is = i128_is (pos e.0.delay *ℤ pos d) e1 (product e.0.delay d) in
                    let starts_is = i128_is (pos n *ℤ pos movie) e2 (product n movie) in
                    let sum_is : sum ≡ pos (e.0.delay * d + n * movie) =
                      i128_is (waits +ℤ starts) e3
                        (rw (waits_is, starts_is) (plus_pos (e.0.delay * d) (n * movie))) in
                    let scaled_is : scaled ≡ pos ((e.0.delay * d + n * movie) * e.1) =
                      i128_is (sum *ℤ pos e.1) e4
                        (rw sum_is (product (e.0.delay * d + n * movie) e.1)) in
                    let den_is = i128_is (pos movie *ℤ pos d) e5 (product movie d) in
                    let twice_is : twice ≡ pos (2 * ((e.0.delay * d + n * movie) * e.1)) =
                      i128_is (pos 2 *ℤ scaled) e6
                        (rw scaled_is (product 2 ((e.0.delay * d + n * movie) * e.1))) in
                    let dividend_is : dividend
                        ≡ pos (2 * ((e.0.delay * d + n * movie) * e.1) + movie * d) =
                      i128_is (twice +ℤ denominator) e7 (
                        rw (twice_is, den_is)
                          (plus_pos (2 * ((e.0.delay * d + n * movie) * e.1)) (movie * d))) in
                    let divisor_is : divisor ≡ pos (2 * (movie * d)) =
                      i128_is (pos 2 *ℤ denominator) e8 (rw den_is (product 2 (movie * d))) in
                    rounded_pos movie n d e ticks r p h (rw (dividend_is, divisor_is) at e9)

-- With positive timescales, the shared offset moves no track's start below zero: the shift of every
-- track from it, where it can be computed in the range of i128, is a number that is not negative.
pub shared_offset-shift_of :
    (movie : ℕ) (es : List Timed) (o : ℤ × ℤ) (i : ℕ) (e : Timed) (z : ℤ)
    → 0 < movie
    → All (λ e. 0 < e.1) es
    → shared_offset es movie ≡ ok o
    → get_elem? es i ≡ some e
    → shift_of movie o e ≡ ok z
    → (m : ℕ) × (z ≡ pos m)
shared_offset-shift_of movie es o i e z r q h at_i k =
    let s = (shared_offset-Shared movie es r q).holds o h in
    (shift_of-pos movie s.n' s.d' e r s.positive
        (All-get_elem? (Reaches movie s.n' s.d') es i s.reached at_i)).holds
      z (rw s.offset_is at k)
