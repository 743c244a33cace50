-- ===== src/Segment/Planner.antt =====
-- src/segment/planner.rs: where a track's samples are cut into segments.
pub mod Boundaries
pub mod Start
pub mod Rounds
pub mod Windows
pub mod Tiling
pub mod Followers
pub mod Following
use segmentor.Common.{
  ℕ, zero, suc, ◌+◌, ◌-◌, ◌*◌, ◌/◌, ◌^◌, Bool, true, false, Option, none, some, List, [], ◌∷◌, ◌++◌,
  not, ltb, leb, ◌==◌, if◌then◌else◌, length, max,
}
use segmentor.Error.{
  Error, Result, ok, err, panic, ◌>>=◌, ◌>>◌, guard, ok_or, checked_add, checked_mul, checked_sub,
  saturating_add, unsupported, invalid_media,
}
use segmentor.Config.Limits.{LimitsConfig}
use segmentor.Media.Sample.{Sample, audio, video}
use segmentor.Media.SampleIndex as Samples
use segmentor.Media.SampleIndex.{SampleIndex}
use segmentor.Media.Tables.{minus}
use segmentor.Media.Track.{Track, is_video}

pub record TrackSegment : Type 0 where
  pub track_id : ℕ
  pub first_sample : ℕ
  pub end_sample : ℕ
  pub decode_time : ℕ
  pub duration : ℕ

pub record Segment : Type 0 where
  pub index : ℕ
  pub tracks : List TrackSegment

unfoldable pub rescale : ℕ → ℕ → ℕ → Result ℕ
rescale value from_timescale to_timescale = do
  scaled ← ok_or (checked_mul value to_timescale) (invalid_media "timestamp rescaling overflow")
  if from_timescale == 0
      then err (invalid_media "timestamp rescaling overflow")
      else ok (scaled / from_timescale)

unfoldable pub track_end : Track → Result ℕ
unfolding Samples.last
track_end track = do
  found ← Samples.last track.samples
  last ← ok_or found (invalid_media "track contains no samples")
  ok_or (checked_add last.decode_time last.duration) (invalid_media "track duration overflow")

-- The boundaries after `current` where every sample can start a segment.
unfoldable pub cut_anywhere : ℕ → SampleIndex → ℕ → ℕ → ℕ → Result (List ℕ)
cut_anywhere zero s target_ticks current target = panic
cut_anywhere (suc fuel) s target_ticks current target = do
  found ← Samples.partition_by_decode_time s target
  let next = max found (current + 1)
  if leb (Samples.len s) next then ok [] else (do
    time ← Samples.decode_time s next
    more ← cut_anywhere fuel s target_ticks next (saturating_add time target_ticks)
    ok (next ∷ more))

-- The boundaries among the sync samples.
unfoldable pub cut_at_sync : SampleIndex → ℕ → ℕ → List ℕ → Result (List ℕ)
cut_at_sync s target_ticks target [] = ok []
cut_at_sync s target_ticks target (next ∷ rest) = do
  time ← Samples.decode_time s next
  if leb target time
      then (do
        more ← cut_at_sync s target_ticks (saturating_add time target_ticks) rest
        ok (next ∷ more))
      else cut_at_sync s target_ticks target rest

-- `.filter(|&index| index > 0)`
unfoldable pub drop_zeros : List ℕ → List ℕ
drop_zeros [] = []
drop_zeros (zero ∷ is) = drop_zeros is
drop_zeros (suc i ∷ is) = suc i ∷ drop_zeros is

unfoldable pub inner_boundaries : SampleIndex → ℕ → ℕ → Bool → Result (List ℕ)
unfolding cut_anywhere cut_at_sync drop_zeros Samples.sync_indices
inner_boundaries s target_ticks target true =
    cut_anywhere (suc (Samples.len s)) s target_ticks 0 target
inner_boundaries s target_ticks target false = do
  sync ← Samples.sync_indices s
  cut_at_sync s target_ticks target (drop_zeros sync)

-- Each round moves past a sample, so a round for each sample, and one more, is enough.
unfoldable pub reference_boundaries : SampleIndex → ℕ → Result (List ℕ)
unfolding inner_boundaries Samples.every_sample_is_sync
reference_boundaries s target_ticks = do
  start ← Samples.decode_time s 0
  inner ←
      inner_boundaries s target_ticks (saturating_add start target_ticks)
        (Samples.every_sample_is_sync s)
  ok (0 ∷ (inner ++ (Samples.len s ∷ [])))

-- The decode time of sample `i`, or `otherwise` where the track has no such sample.
unfoldable pub time_or : SampleIndex → ℕ → Result ℕ → Result ℕ
time_or s i otherwise = if i == Samples.len s then otherwise else Samples.decode_time s i

unfoldable pub audio_segment : Track → Track → ℕ → ℕ → Bool → Result TrackSegment
unfolding rescale time_or track_end
audio_segment audio_track video_track video_start video_end is_final_segment = do
  start ← rescale video_start video_track.timescale audio_track.timescale
  end ← rescale video_end video_track.timescale audio_track.timescale
  let s = audio_track.samples
  first_sample ← Samples.partition_by_decode_time s start
  end_sample ←
      (if is_final_segment then ok (Samples.len s) else Samples.partition_by_decode_time s end)
  decode_time ←
      (if ltb first_sample (Samples.len s) then Samples.decode_time s first_sample else ok start)
  actual_end ← time_or s end_sample (track_end audio_track)
  ok (record {
    track_id = audio_track.id;
    first_sample = first_sample;
    end_sample = end_sample;
    decode_time = decode_time;
    duration = actual_end - decode_time;
  })

-- The followers' parts of one segment; a track that has already ended is left out.
unfoldable pub follower_parts : Track → ℕ → ℕ → Bool → List Track → Result (List TrackSegment)
unfolding audio_segment
follower_parts reference start end is_final [] = ok []
follower_parts reference start end is_final (track ∷ rest) = do
  part ← audio_segment track reference start end is_final
  parts ← follower_parts reference start end is_final rest
  ok (if part.first_sample == Samples.len track.samples then parts else part ∷ parts)

unfoldable pub over_limit : ℕ → List TrackSegment → Result Bool
over_limit limit [] = ok false
over_limit limit (t ∷ ts) = do
  count ← minus t.end_sample t.first_sample
  if ltb limit count then ok true else over_limit limit ts

unfoldable pub reference_part : Track → ℕ → ℕ → ℕ → Result (TrackSegment × ℕ)
unfolding time_or
reference_part reference reference_end first_sample end_sample = do
  decode_time ← Samples.decode_time reference.samples first_sample
  end_time ← time_or reference.samples end_sample (ok reference_end)
  duration ←
      ok_or (checked_sub end_time decode_time) (invalid_media "samples are not in decode order")
  ok (
    record {
      track_id = reference.id;
      first_sample = first_sample;
      end_sample = end_sample;
      decode_time = decode_time;
      duration = duration;
    },
    end_time,
  )

unfoldable pub plan_segment : LimitsConfig → Track → List Track → ℕ → ℕ → ℕ → ℕ → Result Segment
unfolding reference_part follower_parts over_limit
plan_segment limits reference followers reference_end number first_sample end_sample = do
  (part, end_time) ← reference_part reference reference_end first_sample end_sample
  parts ←
      follower_parts reference part.decode_time end_time
        (end_sample == Samples.len reference.samples) followers
  over ← over_limit limits.max_samples_per_segment (part ∷ parts)
  guard (not over) (invalid_media "segment sample count exceeds configured limit")
  guard (ltb number (2 ^ 32)) (invalid_media "segment index overflow")
  ok (record { index = number; tracks = part ∷ parts })

-- `boundaries.windows(2).enumerate()`, from segment `number` on.
unfoldable pub plan_segments :
    LimitsConfig → Track → List Track → ℕ → ℕ → List ℕ → Result (List Segment)
unfolding plan_segment
plan_segments limits reference followers reference_end number [] = ok []
plan_segments limits reference followers reference_end number (first ∷ []) = ok []
plan_segments limits reference followers reference_end number (first ∷ next ∷ rest) = do
  segment ← plan_segment limits reference followers reference_end number first next
  segments ← plan_segments limits reference followers reference_end (number + 1) (next ∷ rest)
  ok (segment ∷ segments)

unfoldable pub tracks_of : Bool → List Track → List Track
tracks_of wanted [] = []
tracks_of true (t ∷ ts) = if is_video t.kind then t ∷ tracks_of true ts else tracks_of true ts
tracks_of false (t ∷ ts) = if is_video t.kind then tracks_of false ts else t ∷ tracks_of false ts

-- The video track, or with no video the first audio track.
unfoldable pub reference_of : List Track → List Track → Option Track
reference_of (v ∷ vs) audio_tracks = some v
reference_of [] (a ∷ audio_tracks) = some a
reference_of [] [] = none

-- `.filter(|track| track.id != reference.id)`
unfoldable pub others : ℕ → List Track → List Track
others id [] = []
others id (t ∷ ts) = if t.id == id then others id ts else t ∷ others id ts

unfoldable pub starts_with_sync : SampleIndex → Result Bool
unfolding Samples.nth_sync
starts_with_sync s =
    if Samples.is_empty s
    then ok false
    else (do found ← Samples.nth_sync s 0; ok (elim found [ none ↦ false | some i ↦ i == 0 ]))

unfoldable pub ticks_of : ℕ → ℕ → Result ℕ
ticks_of target_duration_ms timescale = do
  ticks ←
      ok_or (checked_mul target_duration_ms timescale)
        (invalid_media "invalid target segment duration")
  guard (not (ticks / 1000 == 0)) (invalid_media "invalid target segment duration")
  ok (ticks / 1000)

unfoldable pub plan : List Track → ℕ → LimitsConfig → Result (List Segment)
unfolding tracks_of reference_of others starts_with_sync ticks_of reference_boundaries track_end
    plan_segments
plan tracks target_duration_ms limits = do
  let video_tracks = tracks_of true tracks
  let audio_tracks = tracks_of false tracks
  guard (leb (length video_tracks) 1) (
      unsupported "input must contain at most one video track, found {}" (length video_tracks ∷ []))
  reference ←
      ok_or (reference_of video_tracks audio_tracks)
        (unsupported "input has no audio or video track" [])
  starts ← starts_with_sync reference.samples
  guard starts (invalid_media "the first track must begin with a sync sample")
  target_ticks ← ticks_of target_duration_ms reference.timescale
  boundaries ← reference_boundaries reference.samples target_ticks
  reference_end ← track_end reference
  plan_segments limits reference (others reference.id audio_tracks) reference_end 0 boundaries
