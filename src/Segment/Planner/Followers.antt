-- ===== src/Segment/Planner/Followers.antt =====
-- How the audio tracks of src/segment/planner.rs follow the cuts of the reference track.
use segmentor.Common.{ℕ, ◌≡◌, refl, false, Bool, ltb, if◌then◌else◌}
use segmentor.Error.{ok, Ensures, ensures-ok, ensures-bind}
use segmentor.Media.SampleIndex as Samples
use segmentor.Media.Track.{Track}
use segmentor.Segment.Planner.{TrackSegment, audio_segment, rescale, time_or, track_end}

-- What one part of a follower is: the samples between the two rescaled instants.
pub record FollowsCut (t v : Track) (start end : ℕ) (is_final : Bool) (p : TrackSegment)
    : Type 0 where
  pub from : ℕ
  pub to : ℕ
  pub from_is : rescale start v.timescale t.timescale ≡ ok from
  pub to_is : rescale end v.timescale t.timescale ≡ ok to
  pub first_is : Samples.partition_by_decode_time t.samples from ≡ ok p.first_sample
  pub end_is :
      (if is_final
        then ok (Samples.len t.samples)
        else Samples.partition_by_decode_time t.samples to)
      ≡ ok p.end_sample
  pub id_is : p.track_id ≡ t.id

pub audio_segment-FollowsCut :
    (t v : Track) (start end : ℕ) (is_final : Bool)
    → Ensures (audio_segment t v start end is_final) (FollowsCut t v start end is_final)
unfolding audio_segment
audio_segment-FollowsCut t v start end is_final =
    ensures-bind (rescale start v.timescale t.timescale) λ from e1.
      ensures-bind (rescale end v.timescale t.timescale) λ to e2.
        ensures-bind (Samples.partition_by_decode_time t.samples from) λ first e3.
          ensures-bind
            (if is_final
              then ok (Samples.len t.samples)
              else Samples.partition_by_decode_time t.samples to)
            λ last e4.
              ensures-bind
                (if ltb first (Samples.len t.samples)
                  then Samples.decode_time t.samples first
                  else ok from)
                λ time _. ensures-bind (time_or t.samples last (track_end t)) λ actual _.
                  ensures-ok (record {
                    from = from;
                    to = to;
                    from_is = e1;
                    to_is = e2;
                    first_is = e3;
                    end_is = e4;
                    id_is = refl;
                  })

-- Two consecutive segments share their cut in every follower: when both parts are computed, the
-- second begins with the sample behind the first one's last sample.
pub audio_segment-abuts :
    (t v : Track) (start cut end : ℕ) (is_final : Bool) (p q : TrackSegment)
    → audio_segment t v start cut false ≡ ok p
    → audio_segment t v cut end is_final ≡ ok q
    → p.end_sample ≡ q.first_sample
audio_segment-abuts t v start cut end is_final p q e h =
    let f = (audio_segment-FollowsCut t v start cut false).holds p e in
    let g = (audio_segment-FollowsCut t v cut end is_final).holds q h in
    let same : f.to ≡ g.from = cc (f.to_is, g.from_is) in cc (f.end_is, g.first_is, same)
