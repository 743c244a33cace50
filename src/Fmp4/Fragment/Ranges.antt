-- ===== src/Fmp4/Fragment/Ranges.antt =====
-- The byte ranges that src/fmp4/fragment.rs reads for a segment.
use segmentor.Common.{
  ℕ, zero, suc, ◌+◌, ◌≡◌, refl, ap, ◌∙◌, sym, true, List, [], ◌∷◌, ◌++◌, arith, append_assoc,
}
use segmentor.Error.{
  ok, ok_or, checked_add, invalid_media, Ensures, ensures-ok, ensures-if, ensures-bind,
  ensures-mono, ok_or-eq-ok, ok-injective,
}
use segmentor.Media.Sample.{Sample}
use segmentor.Fmp4.Fragment.{
  ByteRange, range_end, ends_at, range_of_sample, coalesce_from, coalesced_ranges, payload_from,
}

-- The positions in the source of `count` bytes from `offset` on.
abbrev pub positions : ℕ → ℕ → List ℕ
positions offset zero = []
positions offset (suc count) = offset ∷ positions (suc offset) count

-- The positions that ranges read, in the order in which they read them.
abbrev pub range_positions : List ByteRange → List ℕ
range_positions [] = []
range_positions (r ∷ rs) = positions r.offset r.length ++ range_positions rs

-- The positions of the bytes of samples, one sample behind the other.
abbrev pub sample_positions : List Sample → List ℕ
sample_positions [] = []
sample_positions (s ∷ ss) = positions s.offset s.size ++ sample_positions ss

abbrev pub total_length : List ByteRange → ℕ
total_length [] = 0
total_length (r ∷ rs) = r.length + total_length rs

abbrev pub total_size : List Sample → ℕ
total_size [] = 0
total_size (s ∷ ss) = s.size + total_size ss

positions-plus :
    (offset a b : ℕ) → positions offset (a + b) ≡ positions offset a ++ positions (offset + a) b
positions-plus offset zero b = rw (none_added, here)
  where
    none_added : 0 + b ≡ b
    none_added = omega arith

    here : offset + 0 ≡ offset
    here = omega arith
positions-plus offset (suc a) b = rw (next, positions-plus (suc offset) a b, there)
  where
    next : suc a + b ≡ suc (a + b)
    next = omega arith

    there : offset + suc a ≡ suc offset + a
    there = omega arith

ends_at_lem :
    (r : ByteRange) (offset : ℕ)
    → ends_at (range_end r) offset ≡ true
    → r.offset + r.length ≡ offset
unfolding ends_at range_end
ends_at_lem r offset h = ground arith

merged_positions :
    (previous : ByteRange) (s : Sample) (length : ℕ) (rest : List ℕ)
    → length ≡ previous.length + s.size
    → previous.offset + previous.length ≡ s.offset
    → positions previous.offset length ++ rest
      ≡ positions previous.offset previous.length ++ (positions s.offset s.size ++ rest)
merged_positions previous s length rest e h =
    rw (e, positions-plus previous.offset previous.length s.size, h)
      (append_assoc (positions previous.offset previous.length) (positions s.offset s.size) rest)

coalesce_from_lem :
    (previous : ByteRange) (ss : List Sample)
    → Ensures (coalesce_from previous ss) (λ rs.
      (range_positions rs ≡ positions previous.offset previous.length ++ sample_positions ss)
      × (total_length rs ≡ previous.length + total_size ss))
unfolding coalesce_from
coalesce_from_lem previous [] = ensures-ok (refl, refl)
coalesce_from_lem previous (s ∷ ss) =
    ensures-if (ends_at (range_end previous) s.offset)
      (λ h.
        ensures-bind
          (ok_or (checked_add previous.length s.size) (invalid_media "sample range size overflow"))
          λ length e.
            let e1 = ok_or-eq-ok _ _ e in
            let e2 : length ≡ previous.length + s.size = ground arith in
            ensures-mono
              (λ rs k. (
                k.0
                    ∙ merged_positions previous s length (sample_positions ss) e2
                        (ends_at_lem previous s.offset h),
                omega (arith, k.1, e2),
              ))
              (coalesce_from_lem (record { offset = previous.offset; length = length }) ss))
      (λ h. ensures-bind (coalesce_from (range_of_sample s) ss) λ rest e.
        let k = (coalesce_from_lem (range_of_sample s) ss).holds rest e in
        ensures-ok
          (ap (λ ps. positions previous.offset previous.length ++ ps) k.0, omega (arith, k.1)))

-- The ranges read the bytes of the samples, in order and each once.
pub coalesced_ranges_lem :
    (ss : List Sample) (rs : List ByteRange)
    → coalesced_ranges ss ≡ ok rs
    → (range_positions rs ≡ sample_positions ss) × (total_length rs ≡ total_size ss)
unfolding coalesced_ranges
coalesced_ranges_lem [] rs e = let h : rs ≡ [] = ok-injective (sym e) in rw h (refl, refl)
coalesced_ranges_lem (s ∷ ss) rs e = (coalesce_from_lem (range_of_sample s) ss).holds rs e

payload_from_lem :
    (total : ℕ) (ss : List Sample)
    → Ensures (payload_from total ss) (λ n. n ≡ total + total_size ss)
unfolding payload_from
payload_from_lem total [] = ensures-ok (omega arith)
payload_from_lem total (s ∷ ss) = ensures-bind (ok_or (checked_add total s.size) _) λ sum e.
    let e1 = ok_or-eq-ok _ _ e in
    let e2 : sum ≡ total + s.size = ground arith in
    ensures-mono (λ n h. omega (arith, h, e2)) (payload_from_lem sum ss)

pub payload_from-total_size :
    (ss : List Sample) (n : ℕ) → payload_from 0 ss ≡ ok n → n ≡ total_size ss
payload_from-total_size ss n e = omega (arith, (payload_from_lem 0 ss).holds n e)
