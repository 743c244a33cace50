-- ===== src/Segment/Planner/Windows.antt =====
-- Windows of a window: `SampleIndex::window` of src/media/samples.rs.
use segmentor.Common.{ℕ, ◌+◌, ◌-◌, ◌≤◌, ◌<◌, ◌≡◌, refl, arith, lt→ltb}
use segmentor.Error.{ok, Ensures, ensures-ok, ensures-panic, ensures-if}
use segmentor.Media.SampleIndex as Samples
use segmentor.Media.SampleIndex.{SampleIndex, window, get, in_window, sample_at, absolute}
use segmentor.Segment.Planner.Boundaries.{IsWindow}

-- Sample `i` of the part from `from` on is sample `from + i` of the whole.
pub record IsPart (s : SampleIndex) (from to : ℕ) (p : SampleIndex) : Type 0 where
  pub valid : IsWindow p
  pub len_is : Samples.len p ≡ to - from
  pub get_is : (i : ℕ) → i < to - from → get p i ≡ get s (from + i)

get_in_part :
    (s : SampleIndex) (from to i : ℕ)
    → from ≤ to
    → to ≤ Samples.len s
    → i < to - from
    → get (record s { start = s.start + from; end = s.start + to }) i ≡ get s (from + i)
unfolding get absolute
get_in_part s from to i h k l =
    rw
      (
        lt→ltb i (s.start + to - (s.start + from)) (omega arith),
        lt→ltb (from + i) (s.end - s.start) (omega arith),
        same_place,
      )
      refl
  where
    same_place : s.start + from + i ≡ s.start + (from + i)
    same_place = omega arith

window-Ensures :
    (s : SampleIndex) (from to : ℕ) → IsWindow s → Ensures (window s from to) (IsPart s from to)
unfolding window
window-Ensures s from to w =
    ensures-if (in_window s from to)
      (λ e.
        let h : from ≤ to = ground arith in
        let k : to ≤ Samples.len s = ground arith in
        ensures-ok (record {
          valid = record {
            forward = omega arith;
            inside = omega (arith, w.inside, w.forward);
            numbered = w.numbered;
            sync_climbs = w.sync_climbs;
          };
          len_is = omega arith;
          get_is = λ i l. get_in_part s from to i h k l;
        }))
      (λ _. ensures-panic)

-- A part of a valid window, where it is one, is a valid window again of as many samples as its
-- range has, and reading its sample i gives, shifts and failures included, what reading sample from
-- + i of the whole gives.
pub window-IsPart :
    (s p : SampleIndex) (from to : ℕ) → IsWindow s → window s from to ≡ ok p → IsPart s from to p
window-IsPart s p from to w e = (window-Ensures s from to w).holds p e
