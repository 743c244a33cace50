-- ===== src/Cenc/Bits/Codes.antt =====
-- The codes that the reader of src/cenc/bits.rs reads, against the bits that make them.
use segmentor.Common.{
  ℕ, zero, suc, ◌+◌, ◌-◌, ◌*◌, ◌/◌, ◌%◌, ◌^◌, ◌≤◌, ◌<◌, ◌≡◌, refl, sym, ap, ◌∙◌, Bool, true, false,
  some, List, [], ◌∷◌, ◌++◌, append_assoc, leb, ◌==◌, if◌then◌else◌, get_elem?, drop, replicate,
  arith, bool-holds, Bool-cases, inl, inr, leb→le, leb→gt, lt→ltb, ge→ltb,
}
use native.Mathlib.Nat.{pow-suc, pow-le-pow_right}
use segmentor.Common.Slices.{drop-first}
use segmentor.Common.Bytes.{Bytes}
use segmentor.Error.{Result, ok}
use segmentor.Cenc.Bits.{
  BitReader, moved_to, read_bit, bits_loop, read_bits, leading_zeros, read_ue, as_code,
}

-- The bits of some bytes, the most significant of each first.
abbrev pub bits_of : Bytes → List ℕ
bits_of [] = []
bits_of (b ∷ bs) =
    b / 128 % 2
    ∷ b / 64 % 2
    ∷ b / 32 % 2
    ∷ b / 16 % 2
    ∷ b / 8 % 2
    ∷ b / 4 % 2
    ∷ b / 2 % 2
    ∷ b / 1 % 2
    ∷ bits_of bs

-- What a reader has in front of it.
abbrev pub bits_ahead : BitReader → List ℕ
bits_ahead r = drop r.bit_position (bits_of r.source)

-- The low `n` bits of `v`.
unfoldable pub number_bits : ℕ → ℕ → List ℕ
number_bits zero v = []
number_bits (suc n) v = elim (leb (2 ^ n) v) [
  | true ↦ 1 ∷ number_bits n (v - 2 ^ n)
  | false ↦ 0 ∷ number_bits n v
]

-- The exp-Golomb code of 2 ^ k - 1 + v, for v below 2 ^ k.
abbrev pub ue_bits : ℕ → ℕ → List ℕ
ue_bits k v = replicate k 0 ++ 1 ∷ number_bits k v

bit_of :
    (bs : Bytes) (p : ℕ) {d : ℕ}
    → get_elem? (bits_of bs) p ≡ some d
    → (byte : ℕ) × (get_elem? bs (p / 8) ≡ some byte) × (d ≡ byte / 2 ^ (7 - p % 8) % 2)
bit_of [] p e = cc
bit_of (b ∷ bs) zero e = (b, refl, cc e)
bit_of (b ∷ bs) (suc zero) e = (b, refl, cc e)
bit_of (b ∷ bs) (suc (suc zero)) e = (b, refl, cc e)
bit_of (b ∷ bs) (suc (suc (suc zero))) e = (b, refl, cc e)
bit_of (b ∷ bs) (suc (suc (suc (suc zero)))) e = (b, refl, cc e)
bit_of (b ∷ bs) (suc (suc (suc (suc (suc zero))))) e = (b, refl, cc e)
bit_of (b ∷ bs) (suc (suc (suc (suc (suc (suc zero)))))) e = (b, refl, cc e)
bit_of (b ∷ bs) (suc (suc (suc (suc (suc (suc (suc zero))))))) e = (b, refl, cc e)
bit_of (b ∷ bs) (suc (suc (suc (suc (suc (suc (suc (suc p)))))))) e =
    let q : suc (suc (suc (suc (suc (suc (suc (suc p))))))) / 8 ≡ suc (p / 8) = omega arith in
    let r : suc (suc (suc (suc (suc (suc (suc (suc p))))))) % 8 ≡ p % 8 = omega arith in
    rw (q, r) (bit_of bs p e)

read_bit-ahead :
    (r : BitReader) {d : ℕ} {rest : List ℕ}
    → bits_ahead r ≡ d ∷ rest
    → (read_bit r ≡ ok (d == 1, moved_to (r.bit_position + 1) r))
      × (bits_ahead (moved_to (r.bit_position + 1) r) ≡ rest)
unfolding read_bit
read_bit-ahead r {d} e =
    let front = drop-first (bits_of r.source) r.bit_position e in
    let found = bit_of r.source r.bit_position front.0 in (rw (found.1, found.2) refl, front.1)

-- `result` is `a` and the reader `n` bits on, in front of `rest`.
abbrev Reads : {A : Type 0} → Result (A × BitReader) → A → BitReader → ℕ → List ℕ → Type 0
Reads result a r n rest =
    (result ≡ ok (a, moved_to (r.bit_position + n) r))
    × (bits_ahead (moved_to (r.bit_position + n) r) ≡ rest)

Reads-cast :
    {A : Type 0} {result : Result (A × BitReader)} (a b : A) (r : BitReader) (m n : ℕ)
    {rest : List ℕ}
    → a ≡ b
    → m ≡ n
    → Reads result a r m rest
    → Reads result b r n rest
Reads-cast a b r m n e f h = (
  h.0
      ∙ ap (λ x. ok (x, moved_to (r.bit_position + m) r)) e
      ∙ ap (λ k. ok (b, moved_to (r.bit_position + k) r)) f,
  ap (λ k. bits_ahead (moved_to (r.bit_position + k) r)) (sym f) ∙ h.1,
)

-- A reader `m` bits on, and then `n`.
Reads-after :
    {A : Type 0} {result : Result (A × BitReader)} (a : A) (r : BitReader) (m n : ℕ) {rest : List ℕ}
    → Reads result a (moved_to (r.bit_position + m) r) n rest
    → Reads result a r (m + n) rest
Reads-after a r m n h =
    let e : r.bit_position + m + n ≡ r.bit_position + (m + n) = omega arith in
    (h.0 ∙ ap (λ k. ok (a, moved_to k r)) e, ap (λ k. bits_ahead (moved_to k r)) (sym e) ∙ h.1)

number_bits-one :
    (n v : ℕ) → leb (2 ^ n) v ≡ true → number_bits (suc n) v ≡ 1 ∷ number_bits n (v - 2 ^ n)
unfolding number_bits
number_bits-one n v e =
    bool-holds (λ ds. ds ≡ 1 ∷ number_bits n (v - 2 ^ n)) (leb (2 ^ n) v) (λ _. refl)
      (λ f. cc (e, f))

number_bits-zero : (n v : ℕ) → leb (2 ^ n) v ≡ false → number_bits (suc n) v ≡ 0 ∷ number_bits n v
unfolding number_bits
number_bits-zero n v e =
    bool-holds (λ ds. ds ≡ 0 ∷ number_bits n v) (leb (2 ^ n) v) (λ f. cc (e, f)) (λ _. refl)

bits_loop-suc :
    (n value : ℕ) (r s : BitReader) (b : Bool)
    → read_bit r ≡ ok (b, s)
    → bits_loop (suc n) value r ≡ bits_loop n (value * 2 + (if b then 1 else 0)) s
unfolding bits_loop
bits_loop-suc n value r s b e = rw e refl

leading_zeros-one :
    (left n : ℕ) (r s : BitReader) → read_bit r ≡ ok (true, s) → leading_zeros left n r ≡ ok (n, s)
unfolding leading_zeros
leading_zeros-one zero n r s e = rw e refl
leading_zeros-one (suc left) n r s e = rw e refl

leading_zeros-zero :
    (left n : ℕ) (r s : BitReader)
    → read_bit r ≡ ok (false, s)
    → leading_zeros (suc left) n r ≡ leading_zeros left (n + 1) s
unfolding leading_zeros
leading_zeros-zero left n r s e = rw e refl

doubled : (value d p : ℕ) → (value * 2 + d) * p ≡ value * (p * 2) + d * p
doubled value d p = grind arith

bits_loop-Reads :
    (n value v : ℕ) (r : BitReader) (rest : List ℕ)
    → v < 2 ^ n
    → bits_ahead r ≡ number_bits n v ++ rest
    → Reads (bits_loop n value r) (value * 2 ^ n + v) r n rest
unfolding bits_loop number_bits
bits_loop-Reads zero value v r rest h e =
    Reads-cast value (value * 1 + v) r 0 0 (omega arith) refl (none value r e)
  where
    none :
        (value : ℕ) (r : BitReader)
        → bits_ahead r ≡ rest
        → Reads (bits_loop 0 value r) value r 0 rest
    none value r e = let p : r.bit_position + 0 ≡ r.bit_position = omega arith in rw p (refl, e)
bits_loop-Reads (suc n) value v r rest h e = elim (Bool-cases (leb (2 ^ n) v)) [
  | inl f ↦
      let le : 2 ^ n ≤ v = leb→le (2 ^ n) v f in
      let short : v - 2 ^ n < 2 ^ n = omega (arith, h, pow-suc 2 n) in
      step 1 (value * 2 + 1) (v - 2 ^ n) (e ∙ ap (λ ds. ds ++ rest) (number_bits-one n v f)) refl
        (omega (arith, doubled value 1 (2 ^ n), scaled value n))
        (bits_loop-Reads n (value * 2 + 1) (v - 2 ^ n) (next r) rest short)
  | inr f ↦
      step 0 (value * 2 + 0) v (e ∙ ap (λ ds. ds ++ rest) (number_bits-zero n v f)) refl
        (omega (arith, doubled value 0 (2 ^ n), scaled value n))
        (bits_loop-Reads n (value * 2 + 0) v (next r) rest (leb→gt (2 ^ n) v f))
]
  where
    scaled : (value n : ℕ) → value * 2 ^ suc n ≡ value * (2 ^ n * 2)
    scaled value n = ap (λ p. value * p) (pow-suc 2 n)

    next : BitReader → BitReader
    next r = moved_to (r.bit_position + 1) r

    step :
        (d value' w : ℕ)
        → bits_ahead r ≡ d ∷ number_bits n w ++ rest
        → value * 2 + (if d == 1 then 1 else 0) ≡ value'
        → value' * 2 ^ n + w ≡ value * 2 ^ suc n + v
        → (bits_ahead (next r) ≡ number_bits n w ++ rest
            → Reads (bits_loop n value' (next r)) (value' * 2 ^ n + w) (next r) n rest)
        → Reads (bits_loop (suc n) value r) (value * 2 ^ suc n + v) r (suc n) rest
    step d value' w e f g more =
        let here = read_bit-ahead r e in
        let rest_is = more here.1 in
        let whole : Reads (bits_loop (suc n) value r) (value' * 2 ^ n + w) r (1 + n) rest =
          Reads-after (value' * 2 ^ n + w) r 1 n (
            bits_loop-suc n value r (next r) (d == 1) here.0
                ∙ ap (λ x. bits_loop n x (next r)) f
                ∙ rest_is.0,
            rest_is.1,
          ) in
        Reads-cast (value' * 2 ^ n + w) (value * 2 ^ suc n + v) r (1 + n) (suc n) g (omega arith)
          whole

leading_zeros-Reads :
    (left k n : ℕ) (r : BitReader) (rest : List ℕ)
    → k ≤ left
    → bits_ahead r ≡ replicate k 0 ++ 1 ∷ rest
    → Reads (leading_zeros left n r) (n + k) r (k + 1) rest
leading_zeros-Reads left zero n r rest h e = first left (read_bit-ahead r e)
  where
    first :
        (left : ℕ)
        → (read_bit r ≡ ok (true, moved_to (r.bit_position + 1) r))
          × (bits_ahead (moved_to (r.bit_position + 1) r) ≡ rest)
        → Reads (leading_zeros left n r) (n + 0) r (0 + 1) rest
    first left here =
        Reads-cast n (n + 0) r 1 (0 + 1) (omega arith) refl
          (leading_zeros-one left n r (moved_to (r.bit_position + 1) r) here.0, here.1)
leading_zeros-Reads zero (suc k) n r rest h e = absurd (omega arith)
leading_zeros-Reads (suc left) (suc k) n r rest h e =
    let here = read_bit-ahead r e in
    let next : BitReader = moved_to (r.bit_position + 1) r in
    let more = leading_zeros-Reads left k (n + 1) next rest (omega arith) here.1 in
    let whole : Reads (leading_zeros (suc left) n r) (n + 1 + k) r (1 + (k + 1)) rest =
      Reads-after (n + 1 + k) r 1 (k + 1)
        (leading_zeros-zero left n r next here.0 ∙ more.0, more.1) in
    Reads-cast (n + 1 + k) (n + suc k) r (1 + (k + 1)) (suc k + 1) (omega arith) (omega arith) whole

as_code-eq : (value : ℕ) (r : BitReader) → value < 2 ^ 32 → as_code value r ≡ ok (value, r)
as_code-eq value r h = rw (lt→ltb value (2 ^ 32) h) refl

read_bits-Reads :
    (n v : ℕ) (r : BitReader) (rest : List ℕ)
    → n ≤ 31
    → v < 2 ^ n
    → bits_ahead r ≡ number_bits n v ++ rest
    → Reads (read_bits n r) v r n rest
unfolding read_bits
read_bits-Reads n v r rest h k e =
    let small : 2 ^ n ≤ 2 ^ 31 = pow-le-pow_right (omega arith) h in
    let loop =
      Reads-cast (0 * 2 ^ n + v) v r n n (omega arith) refl (bits_loop-Reads n 0 v r rest k e) in
    (rw (ge→ltb 32 n (omega arith), loop.0, lt→ltb v (2 ^ 32) (omega (arith, small))) refl, loop.1)

-- A reader in front of an exp-Golomb code of at most 31 leading zeros, made of the zeros, a one and
-- as many bits of the rest, reads the number that the code stands for, and then stands behind the
-- code.
pub read_ue-ue_bits :
    (k v : ℕ) (r : BitReader) (rest : List ℕ)
    → k ≤ 31
    → v < 2 ^ k
    → bits_ahead r ≡ ue_bits k v ++ rest
    → (read_ue r ≡ ok (2 ^ k - 1 + v, moved_to (r.bit_position + (2 * k + 1)) r))
      × (bits_ahead (moved_to (r.bit_position + (2 * k + 1)) r) ≡ rest)
unfolding read_ue
read_ue-ue_bits k v r rest h l e =
    let tail : BitReader = moved_to (r.bit_position + (k + 1)) r in
    let front : Reads (leading_zeros 31 0 r) k r (k + 1) (number_bits k v ++ rest) =
      Reads-cast (0 + k) k r (k + 1) (k + 1) (omega arith) refl (
        leading_zeros-Reads 31 k 0 r (number_bits k v ++ rest) h
          (e ∙ append_assoc (replicate k 0) (1 ∷ number_bits k v) rest)) in
    let suffix = read_bits-Reads k v tail rest h l front.1 in
    let small : 2 ^ k ≤ 2 ^ 31 = pow-le-pow_right (omega arith) h in
    let whole : Reads (read_ue r) (2 ^ k - 1 + v) r (k + 1 + k) rest =
      Reads-after (2 ^ k - 1 + v) r (k + 1) k (
        then_code r tail (moved_to (r.bit_position + (k + 1) + k) r) front.0 suffix.0
            ∙ as_code-eq (2 ^ k - 1 + v) (moved_to (r.bit_position + (k + 1) + k) r)
                (omega (arith, small)),
        suffix.1,
      ) in
    Reads-cast (2 ^ k - 1 + v) (2 ^ k - 1 + v) r (k + 1 + k) (2 * k + 1) refl (omega arith) whole
  where
    then_code :
        (r s t : BitReader)
        → leading_zeros 31 0 r ≡ ok (k, s)
        → read_bits k s ≡ ok (v, t)
        → read_ue r ≡ as_code (2 ^ k - 1 + v) t
    then_code r s t e f = rw (e, f) refl
