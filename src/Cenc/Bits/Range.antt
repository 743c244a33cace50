-- ===== src/Cenc/Bits/Range.antt =====
-- What the reader of src/cenc/bits.rs returns lies in range, and so does the reader.
use segmentor.Common.{
  ℕ, zero, suc, ◌+◌, ◌*◌, ◌/◌, ◌^◌, ◌≤◌, ◌<◌, ◌≡◌, refl, sym, ap, ◌∙◌, Bool, true, false, length,
  get_elem?, get_elem?-lt, arith, ltb, ltb→lt, if◌then◌else◌,
}
use native.Mathlib.Nat.{pow-suc, mul-le-mul_right}
use segmentor.Error.{
  ok, ok_or, ok_or-eq-ok, Ensures, ensures-ok, ensures-err, ensures-bind, ensures-if, ensures-mono,
  invalid_media,
}
use segmentor.Cenc.Bits.{BitReader, read_bit, bits_loop, read_bits, truncated}

-- A reader `n` bits on in the same bytes, and not behind their end.
pub record Advanced (r : BitReader) (n : ℕ) (s : BitReader) : Type 0 where
  pub source_is : s.source ≡ r.source
  pub position_is : s.bit_position ≡ r.bit_position + n
  pub inside : s.bit_position ≤ 8 * length s.source

read_bit-Advanced : (r : BitReader) → Ensures (read_bit r) (λ p. Advanced r 1 p.1)
unfolding read_bit
read_bit-Advanced r =
    ensures-bind (ok_or (get_elem? r.source (r.bit_position / 8)) truncated) λ byte e.
      let found = ok_or-eq-ok (get_elem? r.source (r.bit_position / 8)) truncated e in
      let below = get_elem?-lt r.source (r.bit_position / 8) found in
      ensures-ok (record { source_is = refl; position_is = refl; inside = omega (arith, below) })

abbrev InRange : BitReader → ℕ → ℕ → ℕ × BitReader → Type 0
InRange r n value p = (p.0 < (value + 1) * 2 ^ n) × Advanced r n p.1

Advanced-after :
    (r s t : BitReader) (n : ℕ) → Advanced r 1 s → Advanced s n t → Advanced r (suc n) t
Advanced-after r s t n h k = record {
  source_is = k.source_is ∙ h.source_is;
  position_is = omega (arith, h.position_is, k.position_is);
  inside = k.inside;
}

-- One bit in front of `n` others.
with_bit :
    (value bit x n : ℕ) → bit ≤ 1 → x < (value * 2 + bit + 1) * 2 ^ n → x < (value + 1) * 2 ^ suc n
with_bit value bit x n h k =
    let wider : (value * 2 + bit + 1) * 2 ^ n ≤ ((value + 1) * 2) * 2 ^ n =
      mul-le-mul_right (2 ^ n) (omega arith) in
    let same : ((value + 1) * 2) * 2 ^ n ≡ (value + 1) * 2 ^ suc n =
      swap (value + 1) (2 ^ n) ∙ ap (λ p. (value + 1) * p) (sym (pow-suc 2 n)) in
    omega (arith, wider, same)
  where
    swap : (a p : ℕ) → a * 2 * p ≡ a * (p * 2)
    swap a p = grind arith

bit_le : (b : Bool) → (if b then 1 else 0) ≤ 1
bit_le true = omega arith
bit_le false = omega arith

bits_loop-InRange :
    (n value : ℕ) (r : BitReader)
    → r.bit_position ≤ 8 * length r.source
    → Ensures (bits_loop n value r) (InRange r n value)
unfolding bits_loop
bits_loop-InRange zero value r h =
    ensures-ok (omega arith, record { source_is = refl; position_is = omega arith; inside = h })
bits_loop-InRange (suc n) value r h = ensures-bind (read_bit r) λ p e.
    let one = (read_bit-Advanced r).holds p e in
    let bit : ℕ = if p.0 then 1 else 0 in
    ensures-mono
      (λ q k. (with_bit value bit q.0 n (bit_le p.0) k.0, Advanced-after r p.1 q.1 n one k.1))
      (bits_loop-InRange n (value * 2 + bit) p.1 one.inside)

read_bits-Ensures :
    (n : ℕ) (r : BitReader)
    → r.bit_position ≤ 8 * length r.source
    → Ensures (read_bits n r) (λ p. (p.0 < 2 ^ n) × (p.0 < 2 ^ 32) × Advanced r n p.1)
unfolding read_bits
read_bits-Ensures n r h =
    ensures-if (ltb 32 n) (λ _. ensures-err (invalid_media "a field is wider than 32 bits"))
      (λ _. ensures-bind (bits_loop n 0 r) λ p e.
        let k = (bits_loop-InRange n 0 r h).holds p e in
        ensures-if (ltb p.0 (2 ^ 32))
          (λ f. ensures-ok (omega (arith, k.0), ltb→lt p.0 (2 ^ 32) f, k.1))
          (λ _. ensures-err truncated))

-- From a reader inside its bytes, reading a field of n bits, when it succeeds, gives a number of n
-- bits that is a u32 too, and leaves the reader n bits on in the same bytes and not behind their
-- end.
pub read_bits-Advanced :
    (n : ℕ) (r s : BitReader) (value : ℕ)
    → r.bit_position ≤ 8 * length r.source
    → read_bits n r ≡ ok (value, s)
    → (value < 2 ^ n) × (value < 2 ^ 32) × Advanced r n s
read_bits-Advanced n r s value h e = (read_bits-Ensures n r h).holds (value, s) e
