-- ===== src/Cenc/Schedule/Places.antt =====
-- Where `schedule` of src/cenc/schedule.rs places the periods.
use segmentor.Common.{
  ℕ, ◌<◌, ◌≡◌, refl, ap, Bool, true, false, Option, none, some, List, [], ◌∷◌, ◌++◌, leb→gt, All,
  bool-holds, Bool-cases, if◌then◌else◌, inl, inr, ◌⊎◌,
}
use segmentor.Error.{ok, err, ◌>>=◌, Ensures, ensures-ok, ensures-err, ensures-bind, invalid_media}
use segmentor.Media.Track.{Track}
use segmentor.Segment.Planner.{Segment}
use segmentor.Cenc.Schedule.{
  KeyPeriod, ScheduledPeriod, starts_after, first_segment_of, is_taken, place_periods, schedule,
  base_time,
}

-- Segment number `index` is the first of the plan that passes the test.
pub record IsFirst (test : Segment → Bool) (plan : List Segment) (index : ℕ) : Type 0 where
  pub before : List Segment
  pub segment : Segment
  pub after : List Segment
  pub plan_is : plan ≡ before ++ segment ∷ after
  pub passes : test segment ≡ true
  pub none_before : All (λ s. test s ≡ false) before
  pub index_is : segment.index ≡ index

first_segment_of-IsFirst :
    (test : Segment → Bool) (plan : List Segment) (s : Segment)
    → first_segment_of test plan ≡ some s
    → IsFirst test plan s.index
unfolding first_segment_of
first_segment_of-IsFirst test [] s e = cc
first_segment_of-IsFirst test (t ∷ ts) s e = elim (Bool-cases (test t)) [
  | inl f ↦
      let same : t ≡ s = here (test t) (first_segment_of test ts) f e in
      record {
        before = [];
        segment = t;
        after = ts;
        plan_is = refl;
        passes = f;
        none_before = tt;
        index_is = ap (λ x. x.index) same;
      }
  | inr f ↦
      let rest =
        first_segment_of-IsFirst test ts s (later (test t) (first_segment_of test ts) f e) in
      record {
        before = t ∷ rest.before;
        segment = rest.segment;
        after = rest.after;
        plan_is = ap (◌∷◌ t) rest.plan_is;
        passes = rest.passes;
        none_before = (f, rest.none_before);
        index_is = rest.index_is;
      }
]
  where
    here : (b : Bool) (o : Option Segment) → b ≡ true → (if b then some t else o) ≡ some s → t ≡ s
    here true o f h = cc h
    here false o f h = cc f

    later :
        (b : Bool) (o : Option Segment)
        → b ≡ false
        → (if b then some t else o) ≡ some s
        → o ≡ some s
    later true o f h = cc f
    later false o f h = h

-- Behind the period before.
abbrev pub IsBehind : Option ℕ → ℕ → Type 0
IsBehind none index = Unit
IsBehind (some previous) index = previous < index

is_taken-IsBehind :
    (previous : Option ℕ) (index : ℕ) → is_taken previous index ≡ false → IsBehind previous index
is_taken-IsBehind none index e = tt
is_taken-IsBehind (some previous) index e = leb→gt index previous e

module _ {K : Type 0} where
  -- One of the periods.
  abbrev pub Among : KeyPeriod K → List (KeyPeriod K) → Type 0
  Among p [] = ⊥
  Among p (q ∷ qs) = (p ≡ q) ⊎ Among p qs

  -- A period of this encryption that begins at this segment.
  abbrev pub IsPlaced :
      List Track → ℕ → List Segment → List (KeyPeriod K) → ScheduledPeriod K → Type 0
  IsPlaced tracks base plan periods q =
      (p : KeyPeriod K) × Among p periods
      × (p.encryption ≡ q.encryption)
      × IsFirst (starts_after tracks base p.start_ms) plan q.first_segment

  -- Periods that are placed, each behind the one before it.
  abbrev pub Placed :
      List Track
      → ℕ
      → List Segment
      → List (KeyPeriod K)
      → Option ℕ
      → List (ScheduledPeriod K)
      → Type 0
  Placed tracks base plan periods previous [] = Unit
  Placed tracks base plan periods previous (q ∷ qs) =
      IsBehind previous q.first_segment
      × IsPlaced tracks base plan periods q
      × Placed tracks base plan periods (some q.first_segment) qs

  place_periods-Placed :
      (tracks : List Track) (base : ℕ) (plan : List Segment) (all : List (KeyPeriod K))
      (previous : Option ℕ) (ps : List (KeyPeriod K))
      → ((p : KeyPeriod K) → Among p ps → Among p all)
      → Ensures (place_periods tracks base plan previous ps) (Placed tracks base plan all previous)
  unfolding place_periods
  place_periods-Placed tracks base plan all previous [] h = ensures-ok tt
  place_periods-Placed tracks base plan all previous (p ∷ ps) h =
      with_segment (first_segment_of (starts_after tracks base p.start_ms) plan) refl
        (place_periods-Placed tracks base plan all previous ps λ q k. h q (inr k))
        (λ s. place_periods-Placed tracks base plan all (some s.index) ps λ q k. h q (inr k))
    where
      with_segment :
          (o : Option Segment)
          → first_segment_of (starts_after tracks base p.start_ms) plan ≡ o
          → Ensures
              (place_periods tracks base plan previous ps)
              (Placed tracks base plan all previous)
          → ((s : Segment)
              → Ensures
                  (place_periods tracks base plan (some s.index) ps)
                  (Placed tracks base plan all (some s.index)))
          → Ensures
              (elim o [
                | none ↦ place_periods tracks base plan previous ps
                | some s ↦ elim (is_taken previous s.index) [
                  | true ↦ err (invalid_media "two encryption periods begin in the same segment")
                  | false ↦ place_periods tracks base plan (some s.index) ps >>= λ rest.
                      ok (record { first_segment = s.index; encryption = p.encryption } ∷ rest)
                ]
              ])
              (Placed tracks base plan all previous)
      with_segment none e k l = k
      with_segment (some s) e k l =
          bool-holds (λ r. Ensures r (Placed tracks base plan all previous))
            (is_taken previous s.index)
            (λ _. ensures-err (invalid_media "two encryption periods begin in the same segment"))
            (λ f. ensures-bind (place_periods tracks base plan (some s.index) ps) λ rest g.
              ensures-ok (
                is_taken-IsBehind previous s.index f,
                (
                  p,
                  h p (inl refl),
                  refl,
                  first_segment_of-IsFirst (starts_after tracks base p.start_ms) plan s e,
                ),
                (l s).holds rest g,
              ))

  -- The periods that a rotating asset is scheduled in begin at segments that climb strictly, and
  -- each of them has the encryption of a key period and begins at the first segment of the plan
  -- that starts at or after that period.
  pub schedule-Placed :
      (encryption : K) (p : KeyPeriod K) (ps : List (KeyPeriod K)) (tracks : List Track)
      (plan : List Segment) (periods : List (ScheduledPeriod K))
      → schedule encryption (p ∷ ps) tracks plan ≡ ok periods
      → Placed tracks (base_time tracks plan) plan (p ∷ ps) none periods
  unfolding schedule
  schedule-Placed encryption p ps tracks plan periods e =
      (place_periods-Placed tracks (base_time tracks plan) plan (p ∷ ps) none (p ∷ ps)
          λ q k. k).holds
        periods e
