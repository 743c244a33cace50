-- ===== src/Segment/Planner/Boundaries.antt =====
-- Where `reference_boundaries` of src/segment/planner.rs cuts.
use segmentor.Common.{
  ℕ, zero, suc, ◌+◌, ◌-◌, ◌≤◌, ◌<◌, ◌^◌, ◌≡◌, refl, true, Option, none, some, List, [], ◌∷◌, ◌++◌,
  leb, ltb, arith, lt→ltb, max, length, slice, ◌&&◌, All, All-slice, map,
}
use segmentor.Error.{
  ok, saturating_add, Ensures, ensures-ok, ensures-panic, ensures-if, ensures-bind, ensures-mono,
}
use segmentor.Media.SampleIndex as Samples
use segmentor.Media.SampleIndex.{SampleIndex}
use segmentor.Media.Ascending.{
  Climbs, Climbs-weaken, between-Climbs, Climbs-minus, contains_self, All-moved,
}
use segmentor.Media.Sample.{partition_point}
use segmentor.Media.Tables as Tables
use segmentor.Media.Tables.{range_of, contains, listed}
use segmentor.Segment.Planner.{
  cut_anywhere, cut_at_sync, drop_zeros, inner_boundaries, reference_boundaries,
}

cut_anywhere-Climbs :
    (fuel : ℕ) (s : SampleIndex) (ticks current target : ℕ)
    → Ensures (cut_anywhere fuel s ticks current target) (Climbs (suc current) (Samples.len s))
unfolding cut_anywhere
cut_anywhere-Climbs zero s ticks current target = ensures-panic
cut_anywhere-Climbs (suc fuel) s ticks current target =
    ensures-bind (Samples.partition_by_decode_time s target) λ found _.
      ensures-if (leb (Samples.len s) (max found (current + 1))) (λ _. ensures-ok tt)
        λ more. ensures-bind (Samples.decode_time s (max found (current + 1))) λ time _.
          ensures-bind
            (cut_anywhere fuel s ticks (max found (current + 1)) (saturating_add time ticks))
            λ rest e. ensures-ok (
              omega arith,
              ground arith,
              (cut_anywhere-Climbs fuel s ticks (max found (current + 1))
                    (saturating_add time ticks)).holds
                  rest e,
            )

cut_at_sync-Climbs :
    (s : SampleIndex) (ticks lo hi target : ℕ) (is : List ℕ)
    → Climbs lo hi is
    → Ensures (cut_at_sync s ticks target is) (Climbs lo hi)
unfolding cut_at_sync
cut_at_sync-Climbs s ticks lo hi target [] c = ensures-ok tt
cut_at_sync-Climbs s ticks lo hi target (i ∷ is) c =
    ensures-bind (Samples.decode_time s i) λ time _.
      ensures-if (leb target time)
        (λ _. ensures-bind (cut_at_sync s ticks (saturating_add time ticks) is) λ more e.
          ensures-ok (
            c.0,
            c.1,
            (cut_at_sync-Climbs s ticks (suc i) hi (saturating_add time ticks) is c.2).holds more e,
          ))
        (λ _.
          ensures-mono (λ bs. Climbs-weaken (suc i) lo hi hi bs (omega arith) (omega arith))
            (cut_at_sync-Climbs s ticks (suc i) hi target is c.2))

-- Behind a positive number no zero is left to drop.
drop_zeros-above :
    (lo hi : ℕ) (is : List ℕ) → 0 < lo → Climbs lo hi is → Climbs lo hi (drop_zeros is)
unfolding drop_zeros
drop_zeros-above lo hi [] h c = tt
drop_zeros-above lo hi (zero ∷ is) h c = absurd (omega arith)
drop_zeros-above lo hi (suc i ∷ is) h c =
    (c.0, c.1, drop_zeros-above (suc (suc i)) hi is (omega arith) c.2)

drop_zeros-Climbs : (hi : ℕ) (is : List ℕ) → Climbs 0 hi is → Climbs 1 hi (drop_zeros is)
unfolding drop_zeros
drop_zeros-Climbs hi [] c = tt
drop_zeros-Climbs hi (zero ∷ is) c = drop_zeros-above 1 hi is (omega arith) c.2
drop_zeros-Climbs hi (suc i ∷ is) c =
    (omega arith, c.1, drop_zeros-above (suc (suc i)) hi is (omega arith) c.2)

range_of-Ensures {κ} :
    {P : List ℕ → Type κ} (xs : List ℕ) (from to : ℕ)
    → P (slice xs from to)
    → Ensures (range_of xs from to) P
range_of-Ensures xs from to h =
    ensures-if (leb from to && leb to (length xs)) (λ _. ensures-ok h) (λ _. ensures-panic)

cut_at_sync-All {κ} :
    (P : ℕ → Type κ) (s : SampleIndex) (ticks target : ℕ) (is : List ℕ)
    → All P is
    → Ensures (cut_at_sync s ticks target is) (All P)
unfolding cut_at_sync
cut_at_sync-All P s ticks target [] c = ensures-ok tt
cut_at_sync-All P s ticks target (i ∷ is) c = ensures-bind (Samples.decode_time s i) λ time _.
    ensures-if (leb target time)
      (λ _. ensures-bind (cut_at_sync s ticks (saturating_add time ticks) is) λ more e.
        ensures-ok
          (c.0, (cut_at_sync-All P s ticks (saturating_add time ticks) is c.1).holds more e))
      (λ _. cut_at_sync-All P s ticks target is c.1)

drop_zeros-All {κ} : (P : ℕ → Type κ) (is : List ℕ) → All P is → All P (drop_zeros is)
unfolding drop_zeros
drop_zeros-All P [] c = tt
drop_zeros-All P (zero ∷ is) c = drop_zeros-All P is c.1
drop_zeros-All P (suc i ∷ is) c = (c.0, drop_zeros-All P is c.1)

-- A window that lies in its tables, whose sync samples climb.
pub record IsWindow (s : SampleIndex) : Type 0 where
  pub forward : s.start ≤ s.end
  pub inside : s.end ≤ length s.tables.sizes
  pub numbered : length s.tables.sizes ≤ 2 ^ 32
  pub sync_climbs :
      (sync : List ℕ) → s.tables.sync ≡ some sync → Climbs 0 (length s.tables.sizes) sync

-- Sample `i` of the window is a sync sample.
abbrev pub IsSync : SampleIndex → ℕ → Type 0
IsSync s i = Tables.is_sync s.tables (s.start + i) ≡ true

-- Numbers that climb inside the window, each the number of a sync sample.
abbrev CutsOf : Option (List ℕ) → ℕ → SampleIndex → List ℕ → Type 0
CutsOf o lo s is = Climbs lo (Samples.len s) is × All (λ i. listed o (s.start + i) ≡ true) is

abbrev pub Cuts : ℕ → SampleIndex → List ℕ → Type 0
Cuts lo s is = Climbs lo (Samples.len s) is × All (IsSync s) is

listed_part :
    (sync : List ℕ) (lo hi : ℕ) (part : List ℕ)
    → hi ≤ 2 ^ 32
    → Climbs lo hi part
    → All (λ i. contains sync i ≡ true) part
    → All (λ i. listed (some sync) i ≡ true) part
unfolding listed
listed_part sync lo hi [] h c k = tt
listed_part sync lo hi (i ∷ part) h c k =
    (rw (k.0, lt→ltb i (2 ^ 32) (omega arith)), listed_part sync (suc i) hi part h c.2 k.1)

window_part :
    (s : SampleIndex) (sync part : List ℕ)
    → IsWindow s
    → Climbs s.start s.end part
    → All (λ i. contains sync i ≡ true) part
    → CutsOf (some sync) 0 s (map (λ i. i - s.start) part)
window_part s sync part w c k = (
  Climbs-weaken (s.start - s.start) 0 (Samples.len s) (Samples.len s) _ (omega arith) (omega arith)
      (Climbs-minus s.start s.start s.end part (omega arith) c),
  All-moved (λ i. listed (some sync) i ≡ true) s.start s.start s.end part (omega arith) c
      (listed_part sync s.start s.end part (omega (arith, w.inside, w.numbered)) c k),
)

-- Where every sample is a sync sample, so are all that climb.
every_listed : (s : SampleIndex) (is : List ℕ) → All (λ i. listed none (s.start + i) ≡ true) is
unfolding listed
every_listed s [] = tt
every_listed s (i ∷ is) = (refl, every_listed s is)

listed_indices-Cuts :
    (s : SampleIndex) (sync : List ℕ)
    → IsWindow s
    → Climbs 0 (length s.tables.sizes) sync
    → Ensures (Samples.listed_indices s (some sync)) (CutsOf (some sync) 0 s)
unfolding Samples.listed_indices Samples.sync_bounds
listed_indices-Cuts s sync w c =
    let low = partition_point (λ (i : ℕ). ltb i s.start) sync in
    let high = partition_point (λ (i : ℕ). ltb i s.end) sync in
    let part : Ensures (range_of sync low high)
        (λ part. CutsOf (some sync) 0 s (map (λ i. i - s.start) part)) =
      range_of-Ensures sync low high (
        window_part s sync _ w (between-Climbs s.start s.end _ sync w.forward c)
          (All-slice (λ i. contains sync i ≡ true) sync low high (contains_self sync))) in
    ensures-bind (range_of sync low high) λ found e. ensures-ok (part.holds found e)

drop_zeros-Cuts :
    (o : Option (List ℕ)) (s : SampleIndex) (is : List ℕ)
    → CutsOf o 0 s is
    → CutsOf o 1 s (drop_zeros is)
drop_zeros-Cuts o s is c = (drop_zeros-Climbs (Samples.len s) is c.0, drop_zeros-All _ is c.1)

cut_at_sync-Cuts :
    (o : Option (List ℕ)) (s : SampleIndex) (ticks lo target : ℕ) (is : List ℕ)
    → CutsOf o lo s is
    → Ensures (cut_at_sync s ticks target is) (CutsOf o lo s)
cut_at_sync-Cuts o s ticks lo target is c = record {
  holds = λ bs e. (
    (cut_at_sync-Climbs s ticks lo (Samples.len s) target is c.0).holds bs e,
    (cut_at_sync-All _ s ticks target is c.1).holds bs e,
  );
}

inner-Cuts :
    (s : SampleIndex) (ticks target : ℕ) (o : Option (List ℕ))
    → IsWindow s
    → s.tables.sync ≡ o
    → Ensures (inner_boundaries s ticks target (Samples.is_unlisted o)) (CutsOf o 1 s)
unfolding inner_boundaries Samples.is_unlisted Samples.sync_indices
inner-Cuts s ticks target none w e = record {
  holds = λ bs h.
      ((cut_anywhere-Climbs (suc (Samples.len s)) s ticks 0 target).holds bs h, every_listed s bs);
}
inner-Cuts s ticks target (some sync) w e = ensures-bind (Samples.sync_indices s) λ is h.
    cut_at_sync-Cuts (some sync) s ticks 1 target (drop_zeros is) (
      drop_zeros-Cuts (some sync) s is
        ((listed_indices-Cuts s sync w (w.sync_climbs sync e)).holds is (rw e at h)))

-- In a valid window the boundaries that are computed are 0, then sample numbers that climb strictly
-- inside the window and are sync samples, then the window's length.
pub reference_boundaries-Cuts :
    (s : SampleIndex) (ticks : ℕ) (bs : List ℕ)
    → IsWindow s
    → reference_boundaries s ticks ≡ ok bs
    → (inner : List ℕ) × (bs ≡ 0 ∷ (inner ++ (Samples.len s ∷ []))) × Cuts 1 s inner
unfolding reference_boundaries Samples.every_sample_is_sync Tables.is_sync
reference_boundaries-Cuts s ticks bs w e = all.holds bs e
  where
    all :
        Ensures
          (reference_boundaries s ticks)
          (λ bs. (inner : List ℕ) × (bs ≡ 0 ∷ (inner ++ (Samples.len s ∷ []))) × Cuts 1 s inner)
    all = ensures-bind (Samples.decode_time s 0) λ start _. ensures-bind _ λ inner h. ensures-ok (
      inner,
      refl,
      (inner-Cuts s ticks (saturating_add start ticks) s.tables.sync w refl).holds inner h,
    )
