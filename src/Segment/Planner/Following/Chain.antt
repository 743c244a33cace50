-- ===== src/Segment/Planner/Following/Chain.antt =====
-- The audio tracks through a whole plan of src/segment/planner.rs: every segment cuts them where it
-- cuts the reference track.
use segmentor.Common.{
  ℕ, suc, ◌+◌, ◌<◌, ◌≡◌, refl, sym, true, false, List, [], ◌∷◌, ◌++◌, ◌==◌, arith, ==_iff, some,
}
use mathlib.Core.Path.{subst}
use segmentor.Error.{ok, ok-injective, Ensures, ensures-ok, ensures-bind}
use segmentor.Config.Limits.{LimitsConfig}
use segmentor.Media.SampleIndex as Samples
use segmentor.Media.SampleIndex.{SampleIndex}
use segmentor.Media.Ascending.{Climbs}
use segmentor.Media.Track.{Track}
use segmentor.Segment.Planner.{
  TrackSegment, Segment, time_or, plan_segment, plan_segments, tracks_of, reference_of, others,
  plan,
}
use segmentor.Segment.Planner.Boundaries.{IsWindow}
use segmentor.Segment.Planner.Tiling.{plan-Planned}
use segmentor.Segment.Planner.Following.{
  Falls, In, Ends, Follows, All-In, Kept, Served, plan_segment-Served, serves,
}

-- The segments from sample `a` of the reference track on.
record Chain (f v : Track) (a : ℕ) (gs : List Segment) : Type 0 where
  x : ℕ
  time : ℕ
  time_is : Samples.decode_time v.samples a ≡ ok time
  falls : Falls f v time x
  follows : Follows f v x gs

Falls-unique : (f v : Track) (time x y : ℕ) → Falls f v time x → Falls f v time y → x ≡ y
Falls-unique f v time x y (at, e, h) (at', e', h') =
    let same : at ≡ at' = cc (e, e') in cc (h, h', same)

last_Chain :
    (f v : Track) (fs : List Track) (end a : ℕ) (g : Segment)
    → In f fs
    → Served v end a (Samples.len v.samples) fs g
    → Chain f v a (g ∷ [])
last_Chain f v fs end a g i s =
    let n : ℕ = Samples.len v.samples in
    let final : (n == n) ≡ true = (==_iff n n).1 refl in
    let k =
      All-In (λ f. Kept f v s.part.decode_time (s.part.decode_time + s.part.duration) true s.rest) f
        fs (rw final at s.kept) i in
    let till : k.0.end_sample ≡ Samples.len f.samples = sym (ok-injective k.1.end_is) in
    record {
      x = k.0.first_sample;
      time = s.part.decode_time;
      time_is = s.cut.starts_at;
      falls = (k.1.from, k.1.from_is, k.1.first_is);
      follows = (
        k.0.end_sample,
        s.part,
        serves f v s.part s.rest (s.part.decode_time + s.part.duration) true g s.tracks_are
            s.ordered k,
        till,
        till,
      );
    }

ends :
    (f v : Track) (part : TrackSegment) (y : ℕ) (gs : List Segment)
    → Falls f v (part.decode_time + part.duration) y
    → Follows f v y gs
    → Ends f v part y gs
ends f v part y [] h k = k
ends f v part y (g ∷ gs) h k = h

next_Chain :
    (f v : Track) (fs : List Track) (end a b : ℕ) (g : Segment) (gs : List Segment)
    → In f fs
    → b < Samples.len v.samples
    → Served v end a b fs g
    → Chain f v b gs
    → Chain f v a (g ∷ gs)
unfolding time_or
next_Chain f v fs end a b g gs i h s c =
    let till : ℕ = s.part.decode_time + s.part.duration in
    let inner : (b == Samples.len v.samples) ≡ false =
      ground (arith, ==_iff b (Samples.len v.samples)) in
    let k =
      All-In (λ f. Kept f v s.part.decode_time till false s.rest) f fs (rw inner at s.kept) i in
    let at_cut : Samples.decode_time v.samples b ≡ ok till = rw inner at s.cut.ends_at in
    let same_time : c.time ≡ till = cc (c.time_is, at_cut) in
    let falls : Falls f v till k.0.end_sample = (k.1.to, k.1.to_is, k.1.end_is) in
    let meets : c.x ≡ k.0.end_sample =
      Falls-unique f v till c.x k.0.end_sample (subst (λ t. Falls f v t c.x) same_time c.falls)
        falls in
    let follows : Follows f v k.0.end_sample gs = subst (λ x. Follows f v x gs) meets c.follows in
    record {
      x = k.0.first_sample;
      time = s.part.decode_time;
      time_is = s.cut.starts_at;
      falls = (k.1.from, k.1.from_is, k.1.first_is);
      follows = (
        k.0.end_sample,
        s.part,
        serves f v s.part s.rest till false g s.tracks_are s.ordered k,
        ends f v s.part k.0.end_sample gs falls follows,
        follows,
      );
    }

plan_segments-Chain :
    (limits : LimitsConfig) (f v : Track) (fs : List Track) (end number a : ℕ) (inner : List ℕ)
    → In f fs
    → Climbs (suc a) (Samples.len v.samples) inner
    → Ensures
        (plan_segments limits v fs end number (a ∷ (inner ++ (Samples.len v.samples ∷ []))))
        (Chain f v a)
unfolding plan_segments
plan_segments-Chain limits f v fs end number a [] i c =
    ensures-bind (plan_segment limits v fs end number a (Samples.len v.samples)) λ g e. ensures-ok (
      last_Chain f v fs end a g i
        ((plan_segment-Served limits v fs end number a (Samples.len v.samples)).holds g e))
plan_segments-Chain limits f v fs end number a (b ∷ inner) i c =
    ensures-bind (plan_segment limits v fs end number a b) λ g e1.
      ensures-bind
        (plan_segments limits v fs end (number + 1) (b ∷ (inner ++ (Samples.len v.samples ∷ []))))
        λ gs e2. ensures-ok (
          next_Chain f v fs end a b g gs i c.1
            ((plan_segment-Served limits v fs end number a b).holds g e1)
            ((plan_segments-Chain limits f v fs end (number + 1) b inner i c.2).holds gs e2))

-- A plan cuts every audio track where it cuts the reference track: when the reference track's
-- samples are a valid window and planning succeeds, each segment holds the samples of an audio
-- track with another id from where the reference track's part begins, in the audio track's time, up
-- to where the next segment's begin, and the last segment up to the end of that track; a part is
-- left out only where the track has already ended.
pub plan-Follows :
    (tracks : List Track) (ms : ℕ) (limits : LimitsConfig) (t f : Track) (segments : List Segment)
    → reference_of (tracks_of true tracks) (tracks_of false tracks) ≡ some t
    → IsWindow t.samples
    → In f (others t.id (tracks_of false tracks))
    → plan tracks ms limits ≡ ok segments
    → (x : ℕ) × Follows f t x segments
plan-Follows tracks ms limits t f segments r w i e =
    let p = (plan-Planned tracks ms limits t r w).holds segments e in
    let fs : List Track = others t.id (tracks_of false tracks) in
    let c =
      (plan_segments-Chain limits f t fs p.end 0 0 p.inner i p.climbs).holds segments p.runs in
    (c.x, c.follows)
