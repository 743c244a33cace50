-- ===== src/Segment/Planner/Tiling.antt =====
-- What a whole plan of src/segment/planner.rs is, seen from the reference track.
use segmentor.Common.{
  ℕ, suc, ◌+◌, ◌≤◌, ◌<◌, ◌^◌, ◌≡◌, refl, true, false, some, List, [], ◌∷◌, ◌++◌, not, ltb, leb,
  ◌==◌, arith, length, All,
}
use segmentor.Error.{
  ok, guard, ok_or, checked_sub, Ensures, ensures-ok, ensures-bind, guard-eq-ok, ok_or-eq-ok,
  invalid_media, unsupported,
}
use segmentor.Config.Limits.{LimitsConfig}
use segmentor.Media.SampleIndex as Samples
use segmentor.Media.SampleIndex.{SampleIndex}
use segmentor.Media.Ascending.{Climbs}
use segmentor.Media.Track.{Track}
use segmentor.Segment.Planner.{
  TrackSegment, Segment, time_or, reference_part, follower_parts, over_limit, plan_segment,
  plan_segments, tracks_of, reference_of, others, starts_with_sync, ticks_of, track_end, plan,
  reference_boundaries,
}
use segmentor.Segment.Planner.Boundaries.{IsWindow, IsSync, reference_boundaries-Cuts}
use segmentor.Segment.Planner.Start.{starts_with_sync-IsSync}

-- No part has more samples than the limit allows.
abbrev pub WithinLimit : ℕ → TrackSegment → Type 0
WithinLimit limit p = p.end_sample ≤ p.first_sample + limit

over_limit-All :
    (limit : ℕ) (ps : List TrackSegment)
    → over_limit limit ps ≡ ok false
    → All (WithinLimit limit) ps
unfolding over_limit
over_limit-All limit [] e = tt
over_limit-All limit (p ∷ ps) e = ground (arith, over_limit-All limit ps)

-- The part of the reference track from sample `a` to sample `b`, `end` being the track's end.
pub record IsCut (t : Track) (end a b : ℕ) (p : TrackSegment) : Type 0 where
  pub id_is : p.track_id ≡ t.id
  pub first_is : p.first_sample ≡ a
  pub end_is : p.end_sample ≡ b
  pub starts_at : Samples.decode_time t.samples a ≡ ok p.decode_time
  pub ends_at : time_or t.samples b (ok end) ≡ ok (p.decode_time + p.duration)

pub reference_part-IsCut :
    (t : Track) (end a b : ℕ) → Ensures (reference_part t end a b) (λ q. IsCut t end a b q.0)
unfolding reference_part
reference_part-IsCut t end a b = ensures-bind (Samples.decode_time t.samples a) λ time e1.
    ensures-bind (time_or t.samples b (ok end)) λ end_time e2.
      ensures-bind
        (ok_or (checked_sub end_time time) (invalid_media "samples are not in decode order"))
        λ duration e3.
          let e4 = ok_or-eq-ok _ _ e3 in
          let e5 : end_time ≡ time + duration = ground arith in
          ensures-ok (record {
            id_is = refl;
            first_is = refl;
            end_is = refl;
            starts_at = e1;
            ends_at = rw e5 at e2;
          })

-- One segment: its number, the reference track's part first, and no part above the limit.
pub record IsSegment (limit : ℕ) (t : Track) (end number a b : ℕ) (g : Segment) : Type 0 where
  pub part : TrackSegment
  pub rest : List TrackSegment
  pub number_is : g.index ≡ number
  pub tracks_are : g.tracks ≡ part ∷ rest
  pub cut : IsCut t end a b part
  pub limited : All (WithinLimit limit) g.tracks

plan_segment-IsSegment :
    (limits : LimitsConfig) (t : Track) (fs : List Track) (end number a b : ℕ)
    → Ensures
        (plan_segment limits t fs end number a b)
        (IsSegment limits.max_samples_per_segment t end number a b)
unfolding plan_segment
plan_segment-IsSegment limits t fs end number a b = ensures-bind (reference_part t end a b) λ q e1.
    ensures-bind (follower_parts t q.0.decode_time q.1 (b == Samples.len t.samples) fs) λ parts _.
      ensures-bind (over_limit limits.max_samples_per_segment (q.0 ∷ parts)) λ over e2.
        ensures-bind
          (guard (not over) (invalid_media "segment sample count exceeds configured limit"))
          λ _ e3.
            ensures-bind (guard (ltb number (2 ^ 32)) (invalid_media "segment index overflow"))
              λ _ _.
                let e4 = guard-eq-ok (not over) _ e3 in
                let e5 : over ≡ false = ground arith in
                ensures-ok (record {
                  part = q.0;
                  rest = parts;
                  number_is = refl;
                  tracks_are = refl;
                  cut = (reference_part-IsCut t end a b).holds q e1;
                  limited =
                      over_limit-All limits.max_samples_per_segment (q.0 ∷ parts) (rw e5 at e2);
                })

-- The segments from number `number` on cut the samples from `a` up to `z` without a gap or an
-- overlap, and each begins with a sync sample and holds one sample at least.
abbrev pub Covers : ℕ → Track → ℕ → ℕ → ℕ → ℕ → List Segment → Type 0
Covers limit t end number a z [] = a ≡ z
Covers limit t end number a z (g ∷ gs) =
    (b : ℕ) × (a < b)
    × IsSync t.samples a
    × IsSegment limit t end number a b g
    × Covers limit t end (number + 1) b z gs

plan_segments-Covers :
    (limits : LimitsConfig) (t : Track) (fs : List Track) (end number a z : ℕ) (inner : List ℕ)
    → a < z
    → Climbs (suc a) z inner
    → All (IsSync t.samples) (a ∷ inner)
    → Ensures
        (plan_segments limits t fs end number (a ∷ (inner ++ (z ∷ []))))
        (Covers limits.max_samples_per_segment t end number a z)
unfolding plan_segments
plan_segments-Covers limits t fs end number a z [] h c k =
    ensures-bind (plan_segment limits t fs end number a z) λ g e.
      ensures-ok (z, h, k.0, (plan_segment-IsSegment limits t fs end number a z).holds g e, refl)
plan_segments-Covers limits t fs end number a z (b ∷ inner) h c k =
    ensures-bind (plan_segment limits t fs end number a b) λ g e1.
      ensures-bind (plan_segments limits t fs end (number + 1) (b ∷ (inner ++ (z ∷ [])))) λ gs e2.
        ensures-ok (
          b,
          omega arith,
          k.0,
          (plan_segment-IsSegment limits t fs end number a b).holds g e1,
          (plan_segments-Covers limits t fs end (number + 1) b z inner c.1 c.2 k.1).holds gs e2,
        )

-- A plan that is made: the boundaries of its reference track `t`, and the run of the loop over them.
pub record Planned (tracks : List Track) (limits : LimitsConfig) (t : Track)
    (segments : List Segment) : Type 0 where
  pub end : ℕ
  pub inner : List ℕ
  pub end_is : track_end t ≡ ok end
  pub begins : (0 < Samples.len t.samples) × IsSync t.samples 0
  pub climbs : Climbs 1 (Samples.len t.samples) inner
  pub syncs : All (IsSync t.samples) inner
  pub runs :
      plan_segments limits t
        (others t.id (tracks_of false tracks))
        end
        0
        (0 ∷ (inner ++ (Samples.len t.samples ∷ [])))
      ≡ ok segments

pub plan-Planned :
    (tracks : List Track) (ms : ℕ) (limits : LimitsConfig) (t : Track)
    → reference_of (tracks_of true tracks) (tracks_of false tracks) ≡ some t
    → IsWindow t.samples
    → Ensures (plan tracks ms limits) (Planned tracks limits t)
unfolding plan
plan-Planned tracks ms limits t r w =
    ensures-bind
      (guard (leb (length (tracks_of true tracks)) 1) (
        unsupported "input must contain at most one video track, found {}"
          (length (tracks_of true tracks) ∷ [])))
      λ _ _. rw r (
        ensures-bind (starts_with_sync t.samples) λ starts e1.
          ensures-bind
            (guard starts (invalid_media "the first track must begin with a sync sample"))
            λ _ e2. ensures-bind (ticks_of ms t.timescale) λ ticks _.
              ensures-bind (reference_boundaries t.samples ticks) λ bs e3.
                ensures-bind (track_end t) λ end e4.
                  let starts_is = guard-eq-ok starts _ e2 in
                  let (inner, shape, cuts) = reference_boundaries-Cuts t.samples ticks bs w e3 in
                  record {
                    holds = λ segments e5. record {
                      end = end;
                      inner = inner;
                      end_is = e4;
                      begins = starts_with_sync-IsSync t.samples w (rw starts_is at e1);
                      climbs = cuts.0;
                      syncs = cuts.1;
                      runs = rw shape at e5;
                    };
                  })

-- A plan covers the reference track: when that track's samples are a valid window and planning
-- succeeds, the segments are numbered from 0, cut its samples from the first to the last without a
-- gap or an overlap, each begins with a sync sample and spans the decode times of its cut, and no
-- track's part of a segment has more samples than the limit.
pub plan-Covers :
    (tracks : List Track) (ms : ℕ) (limits : LimitsConfig) (t : Track) (segments : List Segment)
    → reference_of (tracks_of true tracks) (tracks_of false tracks) ≡ some t
    → IsWindow t.samples
    → plan tracks ms limits ≡ ok segments
    → (end : ℕ) × (track_end t ≡ ok end)
      × Covers limits.max_samples_per_segment t end 0 0 (Samples.len t.samples) segments
plan-Covers tracks ms limits t segments r w e =
    let p = (plan-Planned tracks ms limits t r w).holds segments e in
    let fs : List Track = others t.id (tracks_of false tracks) in
    (
      p.end,
      p.end_is,
      (plan_segments-Covers limits t fs p.end 0 0 (Samples.len t.samples) p.inner p.begins.0
            p.climbs (p.begins.1, p.syncs)).holds
          segments p.runs,
    )
