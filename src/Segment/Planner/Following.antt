-- ===== src/Segment/Planner/Following.antt =====
-- The parts of the audio tracks in one segment of src/segment/planner.rs, and what a run of segments
-- holds of one of them.
pub mod Chain
use segmentor.Common.{
  ℕ, ◌+◌, ◌-◌, ◌≤◌, ◌≡◌, refl, sym, Bool, true, false, List, [], ◌∷◌, not, ltb, ◌==◌, arith, All,
  ◌⊎◌, inl, inr, if-cases, ==_iff, All-map, ◌^◌, min, max,
}
use mathlib.Core.Path.{subst}
use segmentor.Error.{
  ok, ok-injective, guard, ok_or, checked_sub, Ensures, ensures-ok, ensures-bind, guard-eq-ok,
  ok_or-eq-ok, invalid_media,
}
use segmentor.Config.Limits.{LimitsConfig}
use segmentor.Common.Int.{pos, ◌-ℤ◌}
use segmentor.Media.Tables as Table
use segmentor.Media.SampleIndex as Samples
use segmentor.Media.SampleIndex.{SampleIndex}
use segmentor.Media.Track.{Track}
use segmentor.Segment.Planner.{
  TrackSegment, Segment, audio_segment, rescale, time_or, reference_part, follower_parts,
  over_limit, plan_segment,
}
use segmentor.Segment.Planner.Followers.{FollowsCut, audio_segment-FollowsCut}
use segmentor.Segment.Planner.Tiling.{IsCut, reference_part-IsCut}

-- The sample of the follower `f` at which an instant of the reference track `v` falls.
abbrev pub Falls : Track → Track → ℕ → ℕ → Type 0
Falls f v time x =
    (at : ℕ) × (rescale time v.timescale f.timescale ≡ ok at)
    × (Samples.partition_by_decode_time f.samples at ≡ ok x)

abbrev pub In : {A : Type 0} → A → List A → Type 0
In p [] = ⊥
In p (q ∷ qs) = (p ≡ q) ⊎ In p qs

-- One segment: the samples of `f` from `x` up to `y` are a part of it, unless the track has already
-- ended at `x`; the reference track's part is the first one.
pub record Serves (f v : Track) (x y : ℕ) (g : Segment) (part : TrackSegment) : Type 0 where
  pub own : TrackSegment
  pub rest : List TrackSegment
  pub tracks_are : g.tracks ≡ part ∷ rest
  pub id_is : own.track_id ≡ f.id
  pub first_is : own.first_sample ≡ x
  pub end_is : own.end_sample ≡ y
  pub begins : Falls f v part.decode_time x
  pub inside : y ≤ Samples.len f.samples
  pub served : (x ≡ Samples.len f.samples) ⊎ (In own rest × (x ≤ y))

-- Where a segment ends in `f`: at the end of its track in the last segment, and in the others where
-- the end of the reference track's part falls.
abbrev pub Ends : Track → Track → TrackSegment → ℕ → List Segment → Type 0
Ends f v part y [] = y ≡ Samples.len f.samples
Ends f v part y (g ∷ gs) = Falls f v (part.decode_time + part.duration) y

-- The segments hold the samples of `f` from `x` on, each from where the one before it ends.
abbrev pub Follows : Track → Track → ℕ → List Segment → Type 0
Follows f v x [] = x ≡ Samples.len f.samples
Follows f v x (g ∷ gs) =
    (y : ℕ) × (part : TrackSegment) × Serves f v x y g part × Ends f v part y gs × Follows f v y gs

partition-le :
    (s : SampleIndex) (time : ℕ)
    → Ensures (Samples.partition_by_decode_time s time) (λ x. x ≤ Samples.len s)
unfolding Samples.partition_by_decode_time
partition-le s time =
    ensures-bind (Table.partition_by_decode_time s.tables (pos time -ℤ s.shift)) λ found _.
      let inside : min (max found s.start) s.end - s.start ≤ s.end - s.start = omega arith in
      ensures-ok inside

over_limit-le :
    (limit : ℕ) (ps : List TrackSegment)
    → over_limit limit ps ≡ ok false
    → All (λ p. p.first_sample ≤ p.end_sample) ps
unfolding over_limit
over_limit-le limit [] e = tt
over_limit-le limit (p ∷ ps) e = ground (arith, over_limit-le limit ps)

pub All-In : {A : Type 0} (P : A → Type 0) (p : A) (ps : List A) → All P ps → In p ps → P p
All-In P p [] h i = absurd i
All-In P p (q ∷ qs) h (inl e) = subst P (sym e) h.0
All-In P p (q ∷ qs) h (inr i) = All-In P p qs h.1 i

-- A part of a follower that has not ended is among the parts.
abbrev pub Kept : Track → Track → ℕ → ℕ → Bool → List TrackSegment → Type 0
Kept f v start end is_final parts =
    (p : TrackSegment) × FollowsCut f v start end is_final p
    × ((p.first_sample ≡ Samples.len f.samples) ⊎ In p parts)

Kept-later :
    (v : Track) (start end : ℕ) (is_final : Bool) (p : TrackSegment) (parts : List TrackSegment)
    (f : Track)
    → Kept f v start end is_final parts
    → Kept f v start end is_final (p ∷ parts)
Kept-later v start end is_final p parts f (q, h, inl e) = (q, h, inl e)
Kept-later v start end is_final p parts f (q, h, inr i) = (q, h, inr (inr i))

follower_parts-Kept :
    (v : Track) (start end : ℕ) (is_final : Bool) (fs : List Track)
    → Ensures
        (follower_parts v start end is_final fs)
        (λ parts. All (λ f. Kept f v start end is_final parts) fs)
unfolding follower_parts
follower_parts-Kept v start end is_final [] = ensures-ok tt
follower_parts-Kept v start end is_final (t ∷ ts) =
    ensures-bind (audio_segment t v start end is_final) λ p e.
      ensures-bind (follower_parts v start end is_final ts) λ parts h.
        let cut = (audio_segment-FollowsCut t v start end is_final).holds p e in
        let rest = (follower_parts-Kept v start end is_final ts).holds parts h in
        ensures-ok (
          if-cases (λ ps. All (λ f. Kept f v start end is_final ps) (t ∷ ts))
            (p.first_sample == Samples.len t.samples)
            (λ b. ((p, cut, inl ((==_iff p.first_sample (Samples.len t.samples)).0 b)), rest))
            (λ b. (
              (p, cut, inr (inl refl)),
              All-map (Kept-later v start end is_final p parts) ts rest,
            )))

reference_part-end :
    (t : Track) (end a b : ℕ)
    → Ensures (reference_part t end a b) (λ q. q.1 ≡ q.0.decode_time + q.0.duration)
unfolding reference_part
reference_part-end t end a b = ensures-bind (Samples.decode_time t.samples a) λ time _.
    ensures-bind (time_or t.samples b (ok end)) λ end_time _.
      ensures-bind
        (ok_or (checked_sub end_time time) (invalid_media "samples are not in decode order"))
        λ duration e.
          let found = ok_or-eq-ok _ _ e in
          let whole : end_time ≡ time + duration = ground arith in ensures-ok whole

-- A segment from sample `a` to sample `b` of the reference track, seen from its followers.
pub record Served (v : Track) (end a b : ℕ) (fs : List Track) (g : Segment) : Type 0 where
  pub part : TrackSegment
  pub rest : List TrackSegment
  pub tracks_are : g.tracks ≡ part ∷ rest
  pub cut : IsCut v end a b part
  pub kept :
      All
        (λ f.
          Kept f v part.decode_time
            (part.decode_time + part.duration)
            (b == Samples.len v.samples)
            rest)
        fs
  pub ordered : All (λ p. p.first_sample ≤ p.end_sample) rest

pub plan_segment-Served :
    (limits : LimitsConfig) (v : Track) (fs : List Track) (end number a b : ℕ)
    → Ensures (plan_segment limits v fs end number a b) (Served v end a b fs)
unfolding plan_segment
plan_segment-Served limits v fs end number a b = ensures-bind (reference_part v end a b) λ q e1.
    ensures-bind (follower_parts v q.0.decode_time q.1 (b == Samples.len v.samples) fs) λ parts e2.
      ensures-bind (over_limit limits.max_samples_per_segment (q.0 ∷ parts)) λ over e3.
        ensures-bind
          (guard (not over) (invalid_media "segment sample count exceeds configured limit"))
          λ _ e4.
            ensures-bind (guard (ltb number (2 ^ 32)) (invalid_media "segment index overflow"))
              λ _ _.
                let test = guard-eq-ok (not over) _ e4 in
                let within : over ≡ false = ground arith in
                let whole = (reference_part-end v end a b).holds q e1 in
                ensures-ok (record {
                  part = q.0;
                  rest = parts;
                  tracks_are = refl;
                  cut = (reference_part-IsCut v end a b).holds q e1;
                  kept =
                      subst
                        (λ at.
                          All (λ f. Kept f v q.0.decode_time at (b == Samples.len v.samples) parts)
                            fs)
                        whole
                        ((follower_parts-Kept v q.0.decode_time q.1 (b == Samples.len v.samples)
                            fs).holds
                          parts e2);
                  ordered =
                      (over_limit-le limits.max_samples_per_segment (q.0 ∷ parts)
                        (rw within at e3)).1;
                })

-- Where a follower's part ends is inside its track.
end-le :
    (f v : Track) (start end : ℕ) (is_final : Bool) (p : TrackSegment)
    → FollowsCut f v start end is_final p
    → p.end_sample ≤ Samples.len f.samples
end-le f v start end true p c =
    let same : Samples.len f.samples ≡ p.end_sample = ok-injective c.end_is in omega (arith, same)
end-le f v start end false p c = (partition-le f.samples c.to).holds p.end_sample c.end_is

pub serves :
    (f v : Track) (part : TrackSegment) (rest : List TrackSegment) (end : ℕ) (is_final : Bool)
    (g : Segment)
    → g.tracks ≡ part ∷ rest
    → All (λ p. p.first_sample ≤ p.end_sample) rest
    → (k : Kept f v part.decode_time end is_final rest)
    → Serves f v k.0.first_sample k.0.end_sample g part
serves f v part rest end is_final g e ordered (p, c, kept) = record {
  own = p;
  rest = rest;
  tracks_are = e;
  id_is = c.id_is;
  first_is = refl;
  end_is = refl;
  begins = (c.from, c.from_is, c.first_is);
  inside = end-le f v part.decode_time end is_final p c;
  served = among kept;
}
  where
    among :
        (p.first_sample ≡ Samples.len f.samples) ⊎ In p rest
        → (p.first_sample ≡ Samples.len f.samples) ⊎ (In p rest × (p.first_sample ≤ p.end_sample))
    among (inl h) = inl h
    among (inr i) = inr (i, All-In (λ p. p.first_sample ≤ p.end_sample) p rest ordered i)
