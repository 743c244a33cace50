-- ===== src/Segment/Planner/Start.antt =====
-- The check of src/segment/planner.rs that the reference track begins with a sync sample.
use segmentor.Common.{
  ℕ, ◌+◌, ◌-◌, ◌<◌, ◌^◌, ◌≡◌, refl, true, false, Bool, Option, none, some, List, ltb, ◌==◌, arith,
  get_elem?, drop-get_elem?, Option-cases, Bool-cases, inl, inr, lt→ltb, All-drop, if◌then◌else◌,
}
use segmentor.Error.{ok, ◌>>=◌, >>=-eq-ok, ok-injective}
use segmentor.Media.Sample.{index, partition_point}
use segmentor.Media.SampleIndex as Samples
use segmentor.Media.SampleIndex.{SampleIndex}
use segmentor.Media.Tables as Tables
use segmentor.Media.Tables.{contains, listed}
use segmentor.Media.Ascending.{Climbs-drop, contains_self}
use segmentor.Segment.Planner.{starts_with_sync}
use segmentor.Segment.Planner.Boundaries.{IsWindow, IsSync}

-- The entry that a guarded read returned.
first_entry :
    (sync : List ℕ) (low : ℕ) (b : Bool) (start i : ℕ)
    → (if b then (index sync low >>= λ j. ok (some (j - start))) else ok none) ≡ ok (some i)
    → (j : ℕ) × (get_elem? sync low ≡ some j) × (i ≡ j - start)
first_entry sync low true start i h = elim (Option-cases (get_elem? sync low)) [
  | inl e ↦ cc (rw e at h)
  | inr (j, e) ↦ (j, e, cc (rw e at h))
]
first_entry sync low false start i h = cc

-- What the first sync sample of a window is, where there is one.
first_listed :
    (s : SampleIndex) (o : Option (List ℕ)) (i : ℕ)
    → IsWindow s
    → s.tables.sync ≡ o
    → Samples.nth_listed s o 0 ≡ ok (some i)
    → listed o (s.start + i) ≡ true
unfolding Samples.nth_listed Samples.sync_bounds listed
first_listed s none i w e h = refl
first_listed s (some sync) i w e h =
    let low = partition_point (λ (i : ℕ). ltb i s.start) sync in
    let e0 : low + 0 ≡ low = omega arith in
    let (j, at_low, i_is) = first_entry sync low _ s.start i (rw e0 at h) in
    let split = drop-get_elem? sync low at_low in
    let climbs = rw split at (Climbs-drop s.start 0 _ sync (w.sync_climbs sync e)) in
    let held = rw split at (All-drop _ low sync (contains_self sync)) in
    let back : s.start + i ≡ j = omega (arith, climbs.0) in
    rw (back, held.0, lt→ltb j (2 ^ 32) (omega (arith, climbs.1, w.numbered)))

is_zero : (i : ℕ) → ok (i == 0) ≡ ok true → i ≡ 0
is_zero i e = ground (arith, ok-injective e)

-- When the check of the reference track passes on a valid window, the window has a sample and its
-- first sample is a sync sample.
pub starts_with_sync-IsSync :
    (s : SampleIndex) → IsWindow s → starts_with_sync s ≡ ok true → (0 < Samples.len s) × IsSync s 0
unfolding starts_with_sync Samples.nth_sync Tables.is_sync
starts_with_sync-IsSync s w e = elim (Bool-cases (s.start == s.end)) [
  | inl h ↦ cc (rw h at e)
  | inr h ↦
      let (found, e1, e2) = >>=-eq-ok (Samples.nth_listed s s.tables.sync 0) _ (rw h at e) in
      elim (Option-cases found) [
        | inl n ↦ cc (rw n at e2)
        | inr (i, n) ↦
            let zero_is : i ≡ 0 = is_zero i (rw n at e2) in
            (
              ground (arith, w.forward),
              rw zero_is at (first_listed s s.tables.sync i w refl (rw n at e1)),
            )
      ]
]
