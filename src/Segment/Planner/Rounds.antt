-- ===== src/Segment/Planner/Rounds.antt =====
-- The rounds of the loop of src/segment/planner.rs that cuts where every sample can start a segment.
use segmentor.Common.{
  ℕ, zero, suc, ◌+◌, ◌≤◌, ◌<◌, ◌≢◌, arith, leb, max, Bool-cases, inl, inr, leb→gt,
}
use segmentor.Error.{panic, saturating_add, >>=-ne-panic}
use segmentor.Media.SampleIndex as Samples
use segmentor.Media.SampleIndex.{SampleIndex}
use segmentor.Segment.Planner.{cut_anywhere}

-- The lookups of a window do not panic.
abbrev pub Looks : SampleIndex → Type 0
Looks s =
    ((time : ℕ) → Samples.partition_by_decode_time s time ≢ panic)
    × ((i : ℕ) → i < Samples.len s → Samples.decode_time s i ≢ panic)

-- With a round for each sample behind the current one, and one more, the loop that cuts where every
-- sample can start a segment ends: in a window whose lookups do not panic it does not panic either.
pub cut_anywhere-ne-panic :
    (fuel : ℕ) (s : SampleIndex) (ticks current target : ℕ)
    → 0 < fuel
    → Samples.len s ≤ current + fuel
    → Looks s
    → cut_anywhere fuel s ticks current target ≢ panic
unfolding cut_anywhere
cut_anywhere-ne-panic zero s ticks current target p h l = absurd (omega arith)
cut_anywhere-ne-panic (suc fuel) s ticks current target p h l =
    >>=-ne-panic (Samples.partition_by_decode_time s target) _ (l.0 target) λ found _.
      elim (Bool-cases (leb (Samples.len s) (max found (current + 1)))) [
        | inl e ↦ rw e (λ q. cc)
        | inr e ↦
            let inside = leb→gt _ _ e in
            rw e (
              >>=-ne-panic (Samples.decode_time s (max found (current + 1))) _ (l.1 _ inside)
                λ time _.
                  >>=-ne-panic
                    (cut_anywhere fuel s ticks (max found (current + 1))
                      (saturating_add time ticks))
                    _
                    (cut_anywhere-ne-panic fuel s ticks (max found (current + 1))
                      (saturating_add time ticks) (omega (arith, inside)) (omega (arith, inside)) l)
                    (λ more _ q. cc))
      ]
