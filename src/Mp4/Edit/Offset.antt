-- ===== src/Mp4/Edit/Offset.antt =====
-- The offset that the tracks of src/mp4/edit.rs share is no less than what each edit list asks for.
use segmentor.Common.{
  ℕ, suc, ◌+◌, ◌-◌, ◌*◌, ◌≤◌, ◌<◌, ◌≡◌, refl, sym, ap, ◌∙◌, Bool, true, false, List, [], ◌∷◌, arith,
  ltb, leb, All, leb→le, leb→gt, ltb→ge, ltb→lt, Bool-cases, inl, inr, if◌then◌else◌,
}
use segmentor.Common.Int.{ℤ, pos, negsuc, ◌-ℤ◌, ◌*ℤ◌, ltb_ℤ, sub_ℕ}
use native.Mathlib.Nat.{mul-le-mul_right, le_of_mul-le-mul_right}
use segmentor.Error.{ok, Ensures, ensures-ok, ensures-if, ensures-bind, ensures-mono, ensures-panic}
use segmentor.Mp4.Edit.{Timed, in_i128, i128, offset_step, offset_from, shared_offset}

pub i128_lem : (z : ℤ) → Ensures (i128 z) (λ w. w ≡ z)
unfolding i128
i128_lem z = ensures-if (in_i128 z) (λ _. ensures-ok refl) (λ _. ensures-panic)

pub i128_is : (z : ℤ) {w v : ℤ} → i128 z ≡ ok w → z ≡ v → w ≡ v
i128_is z {w} e h = (i128_lem z).holds w e ∙ h

pub positive_product : (a b : ℕ) → 0 < a → 0 < b → 0 < a * b
positive_product a b p q = grind arith

-- The offset `n / d` is no less than what the edit asks for, `media_time / timescale - delay / movie`,
-- without dividing.
abbrev pub Reaches : ℕ → ℕ → ℕ → Timed → Type 0
Reaches movie n d (edit, timescale) =
    edit.media_time * movie * d ≤ n * (timescale * movie) + edit.delay * timescale * d

-- An offset that is not negative, with a positive denominator.
record IsOffset (o : ℤ × ℤ) : Type 0 where
  n : ℕ
  d : ℕ
  offset_is : o ≡ (pos n, pos d)
  positive : 0 < d

pub product : (a b : ℕ) → pos a *ℤ pos b ≡ pos (a * b)
product a b = ground arith

negative : (c d : ℕ) → negsuc c *ℤ pos d ≡ sub_ℕ 0 (suc c * d)
negative c d = ground arith

-- `pos n / den < pos m / d`, without dividing.
less_pos : (n m d den : ℕ) → ltb_ℤ (pos n *ℤ pos den) (pos m *ℤ pos d) ≡ ltb (n * den) (m * d)
less_pos n m d den = rw (product n den, product m d) (ground arith)

-- Nothing below zero is above an offset.
less_neg : (n c d den : ℕ) → ltb_ℤ (pos n *ℤ pos den) (negsuc c *ℤ pos d) ≡ false
less_neg n c d den = rw (product n den, negative c d) (ground arith)

difference : (a b : ℕ) → b ≤ a → sub_ℕ a b ≡ pos (a - b)
difference a b h = ground arith

deficit : (a b : ℕ) → a < b → sub_ℕ a b ≡ negsuc (b - a - 1)
deficit a b h = ground arith

times_mono : (a b d : ℕ) → a ≤ b → a * d ≤ b * d
times_mono a b d h = grind arith

times_split : (a b d : ℕ) → b ≤ a → a * d ≡ (a - b) * d + b * d
times_split a b d h = let whole : a ≡ (a - b) + b = omega (arith, h) in grind arith

-- A larger offset reaches what the smaller one reached.
larger_reaches :
    (a b t n d n' d' : ℕ)
    → 0 < d
    → n * d' ≤ n' * d
    → a * d ≤ n * t + b * d
    → a * d' ≤ n' * t + b * d'
larger_reaches a b t n d n' d' p grows h =
    le_of_mul-le-mul_right
      (omega (arith, mul-le-mul_right d' h, mul-le-mul_right t grows, left, middle, right)) p
  where
    left : a * d' * d ≡ a * d * d'
    left = grind arith

    middle : (n * t + b * d) * d' ≡ n * d' * t + b * d' * d
    middle = grind arith

    right : (n' * t + b * d') * d ≡ n' * d * t + b * d' * d
    right = grind arith

-- What a step leaves: an offset that is no smaller, and that this edit reaches.
record Step (movie n d : ℕ) (e : Timed) (o : ℤ × ℤ) : Type 0 where
  n' : ℕ
  d' : ℕ
  offset_is : o ≡ (pos n', pos d')
  positive : 0 < d'
  grows : n * d' ≤ n' * d
  reaches : Reaches movie n' d' e

not_above :
    (n d a b den : ℕ)
    → ltb_ℤ (pos n *ℤ pos den) (sub_ℕ a b *ℤ pos d) ≡ false
    → a * d ≤ n * den + b * d
not_above n d a b den h = elim (Bool-cases (leb b a)) [
  | inl e ↦
      let le = leb→le b a e in
      let below = ltb→ge _ _ (sym (less_pos n (a - b) d den) ∙ rw (difference a b le) at h) in
      omega (arith, below, times_split a b d le)
  | inr e ↦ omega (arith, times_mono a b d (omega (arith, leb→gt b a e)))
]

-- An edit that asks for more has a start that is not negative.
above :
    (n d a b den : ℕ)
    → ltb_ℤ (pos n *ℤ pos den) (sub_ℕ a b *ℤ pos d) ≡ true
    → (b ≤ a) × (n * den ≤ (a - b) * d)
above n d a b den h = elim (Bool-cases (leb b a)) [
  | inl e ↦
      let le = leb→le b a e in
      let more = ltb→lt _ _ (sym (less_pos n (a - b) d den) ∙ rw (difference a b le) at h) in
      (le, omega (arith, more))
  | inr e ↦ cc (less_neg n (b - a - 1) d den, rw (deficit a b (leb→gt b a e)) at h)
]

kept_offset :
    (movie n d a b den : ℕ) (e : Timed)
    → 0 < d
    → a ≡ e.0.media_time * movie
    → b ≡ e.0.delay * e.1
    → den ≡ e.1 * movie
    → ltb_ℤ (pos n *ℤ pos den) (sub_ℕ a b *ℤ pos d) ≡ false
    → Step movie n d e (pos n, pos d)
kept_offset movie n d a b den e p ea eb ed h = record {
  n' = n;
  d' = d;
  offset_is = refl;
  positive = p;
  grows = omega arith;
  reaches = rw (ea, eb, ed) at (not_above n d a b den h);
}

taken_offset :
    (movie n d a b den : ℕ) (e : Timed)
    → 0 < den
    → a ≡ e.0.media_time * movie
    → b ≡ e.0.delay * e.1
    → den ≡ e.1 * movie
    → ltb_ℤ (pos n *ℤ pos den) (sub_ℕ a b *ℤ pos d) ≡ true
    → Step movie n d e (sub_ℕ a b, pos den)
taken_offset movie n d a b den e p ea eb ed h =
    let (le, more) = above n d a b den h in
    let split : a * den ≤ (a - b) * den + b * den = omega (arith, times_split a b den le) in
    record {
      n' = a - b;
      d' = den;
      offset_is = ap (λ z. (z, pos den)) (difference a b le);
      positive = p;
      grows = more;
      reaches = rw (← ea, ← eb, ← ed) split;
    }

-- One step, from an offset that is not negative.
chosen_offset :
    (movie n d a b den : ℕ) (e : Timed) (t : Bool)
    → 0 < d
    → 0 < den
    → a ≡ e.0.media_time * movie
    → b ≡ e.0.delay * e.1
    → den ≡ e.1 * movie
    → ltb_ℤ (pos n *ℤ pos den) (sub_ℕ a b *ℤ pos d) ≡ t
    → Step movie n d e (if t then (sub_ℕ a b, pos den) else (pos n, pos d))
chosen_offset movie n d a b den e true p q ea eb ed h =
    taken_offset movie n d a b den e q ea eb ed h
chosen_offset movie n d a b den e false p q ea eb ed h =
    kept_offset movie n d a b den e p ea eb ed h

pub minus_pos : (a b : ℕ) → pos a -ℤ pos b ≡ sub_ℕ a b
minus_pos a b = ground arith

offset_step-Step :
    (movie n d : ℕ) (e : Timed)
    → 0 < d
    → 0 < e.1
    → 0 < movie
    → Ensures (offset_step movie e (pos n, pos d)) (Step movie n d e)
unfolding offset_step
offset_step-Step movie n d e p q r =
    ensures-bind (i128 (pos e.0.media_time *ℤ pos movie)) λ ahead e1.
      ensures-bind (i128 (pos e.0.delay *ℤ pos e.1)) λ behind e2.
        ensures-bind (i128 (ahead -ℤ behind)) λ numerator e3.
          ensures-bind (i128 (pos e.1 *ℤ pos movie)) λ denominator e4.
            ensures-bind (i128 (numerator *ℤ pos d)) λ left e5.
              ensures-bind (i128 (pos n *ℤ denominator)) λ right e6.
                let a = e.0.media_time * movie in
                let b = e.0.delay * e.1 in
                let den = e.1 * movie in
                let ahead_is =
                  i128_is (pos e.0.media_time *ℤ pos movie) e1 (product e.0.media_time movie) in
                let behind_is = i128_is (pos e.0.delay *ℤ pos e.1) e2 (product e.0.delay e.1) in
                let numerator_is : numerator ≡ sub_ℕ a b =
                  i128_is (ahead -ℤ behind) e3 (rw (ahead_is, behind_is) (minus_pos a b)) in
                let denominator_is = i128_is (pos e.1 *ℤ pos movie) e4 (product e.1 movie) in
                let left_is = i128_is (numerator *ℤ pos d) e5 (ap (λ z. z *ℤ pos d) numerator_is) in
                let right_is =
                  i128_is (pos n *ℤ denominator) e6 (ap (λ z. pos n *ℤ z) denominator_is) in
                let positive = positive_product e.1 movie q r in
                ensures-ok (
                  rw (left_is, right_is, numerator_is, denominator_is)
                    (chosen_offset movie n d a b den e _ p positive refl refl refl refl))

-- What all the steps leave: an offset that is no smaller, and that every edit reaches.
pub record Shared (movie n d : ℕ) (es : List Timed) (o : ℤ × ℤ) : Type 0 where
  pub n' : ℕ
  pub d' : ℕ
  pub offset_is : o ≡ (pos n', pos d')
  pub positive : 0 < d'
  pub grows : n * d' ≤ n' * d
  pub reached : All (Reaches movie n' d') es

and_then :
    (movie n d : ℕ) (e : Timed) (es : List Timed) (o : ℤ × ℤ)
    → (s : Step movie n d e o) → (p : ℤ × ℤ) → Shared movie s.n' s.d' es p
    → Shared movie n d (e ∷ es) p
and_then movie n d e es o s p f = record {
  n' = f.n';
  d' = f.d';
  offset_is = f.offset_is;
  positive = f.positive;
  grows =
      omega (
        arith,
        larger_reaches n 0 d s.n' s.d' f.n' f.d' s.positive f.grows (omega (arith, s.grows)),
      );
  reached = (
    larger_reaches (e.0.media_time * movie) (e.0.delay * e.1) (e.1 * movie) s.n' s.d' f.n' f.d'
        s.positive f.grows s.reaches,
    f.reached,
  );
}

offset_from-Shared :
    (movie n d : ℕ) (es : List Timed)
    → 0 < d
    → 0 < movie
    → All (λ e. 0 < e.1) es
    → Ensures (offset_from movie es (pos n, pos d)) (Shared movie n d es)
unfolding offset_from
offset_from-Shared movie n d [] p r q =
    ensures-ok
      (record { n' = n; d' = d; offset_is = refl; positive = p; grows = omega arith; reached = tt })
offset_from-Shared movie n d (e ∷ es) p r q =
    ensures-bind (offset_step movie e (pos n, pos d)) λ o h.
      let s = (offset_step-Step movie n d e p q.0 r).holds o h in
      rw s.offset_is (
        ensures-mono (λ p f. and_then movie n d e es o s p f)
          (offset_from-Shared movie s.n' s.d' es s.positive r q.1))

pub shared_offset-Shared :
    (movie : ℕ) (es : List Timed)
    → 0 < movie
    → All (λ e. 0 < e.1) es
    → Ensures (shared_offset es movie) (Shared movie 0 1 es)
unfolding shared_offset
shared_offset-Shared movie es r q = offset_from-Shared movie 0 1 es (omega arith) r q
