-- ===== src/Tests/Planner.antt =====
-- Runs of the code of src/segment/planner.rs: a track of four samples, of which 0 and 2 are sync.
use segmentor.Common.{◌≢◌, ℕ, inl, ◌<◌, ◌≡◌, refl, true, false, some, List, [], ◌∷◌, ◌++◌, arith}
use segmentor.Common.Int.{pos}
use segmentor.Error.{ok, panic}
use segmentor.Segment.Planner.{cut_anywhere}
use segmentor.Segment.Planner.Windows.{IsPart, window-IsPart}
use segmentor.Segment.Planner.Rounds.{Looks, cut_anywhere-ne-panic}
use segmentor.Config.Limits.{LimitsConfig}
use segmentor.Media.Sample.{audio, video, partition_point, sum}
use segmentor.Media.SampleIndex as Samples
use segmentor.Media.SampleIndex.{SampleIndex}
use segmentor.Media.Tables as Table
use segmentor.Media.Tables.{Tables}
use segmentor.Media.Track.{Track}
use segmentor.Segment.Planner.{
  TrackSegment, Segment, plan, audio_segment, starts_with_sync, reference_boundaries, reference_of,
  tracks_of, track_end, inner_boundaries, cut_at_sync, drop_zeros, others, ticks_of, plan_segments,
  plan_segment, reference_part, follower_parts, over_limit, time_or, rescale,
}
use segmentor.Segment.Planner.Boundaries.{IsWindow, IsSync, Cuts, reference_boundaries-Cuts}
use segmentor.Segment.Planner.Start.{starts_with_sync-IsSync}
use segmentor.Segment.Planner.Tiling.{Covers, plan-Covers}
use segmentor.Segment.Planner.Following.{Follows}
use segmentor.Segment.Planner.Following.Chain.{plan-Follows}
use segmentor.Segment.Planner.Followers.{audio_segment-abuts}

abbrev pub frames : SampleIndex
frames = record {
  tables = record {
    sizes = 5 ∷ 6 ∷ 7 ∷ 8 ∷ [];
    chunk_first = 0 ∷ [];
    chunk_offset = 100 ∷ [];
    time_first = 0 ∷ [];
    time_start = 0 ∷ [];
    time_duration = 10 ∷ [];
    composition_first = [];
    composition_offset = [];
    sync = some (0 ∷ 2 ∷ []);
  };
  start = 0;
  end = 4;
  shift = pos 0;
}

abbrev pub film : Track
film = record {
  id = 1;
  key = record { kind = video; ordinal = 1 };
  kind = video;
  timeline_shift = 0;
  timescale = 1000;
  duration = 40;
  samples = frames;
}

abbrev pub sound : Track
sound = record film { id = 2; kind = audio; key = record { kind = audio; ordinal = 1 } }

abbrev pub limits : LimitsConfig
limits = record {
  max_assets = 0;
  max_source_bytes = 0;
  max_metadata_bytes = 0;
  max_fragments = 0;
  metadata_concurrency = 0;
  tolerate_truncated_tail = false;
  max_tracks = 0;
  max_samples_per_track = 9;
  max_samples_per_segment = 9;
  max_segment_bytes = 0;
  max_segment_jobs = 0;
  segment_queue_timeout_ms = 0;
  stream_chunk_bytes = 0;
  max_request_header_bytes = 0;
  request_timeout_ms = 0;
  max_startup_parses = 0;
  max_concurrent_requests = 0;
  response_idle_timeout_ms = 0;
  max_index_bytes = 0;
  max_connections = 0;
  header_read_timeout_ms = 0;
  max_subtitles = 0;
  max_subtitle_bytes = 0;
  max_subtitles_total_bytes = 0;
  max_renditions = 0;
  max_clips = 0;
  max_sequence_files = 0;
}

frames-IsWindow : IsWindow frames
frames-IsWindow = record {
  forward = omega arith;
  inside = omega arith;
  numbered = omega arith;
  sync_climbs = λ sync e. ground arith;
}

boundaries_run : reference_boundaries frames 20 ≡ ok (0 ∷ 2 ∷ 4 ∷ [])
unfolding reference_boundaries inner_boundaries cut_at_sync drop_zeros Samples.every_sample_is_sync
    Samples.is_unlisted Samples.sync_indices Samples.listed_indices Samples.sync_bounds
    Samples.decode_time Samples.absolute Samples.moved Table.decode_time Table.run_of
    Table.time_in_run partition_point
boundaries_run = refl

reference_boundaries-Cuts_example :
    (inner : List ℕ) × (0 ∷ 2 ∷ 4 ∷ [] ≡ 0 ∷ (inner ++ (Samples.len frames ∷ [])))
    × Cuts 1 frames inner
reference_boundaries-Cuts_example =
    reference_boundaries-Cuts frames 20 (0 ∷ 2 ∷ 4 ∷ []) frames-IsWindow boundaries_run

starts_run : starts_with_sync frames ≡ ok true
unfolding starts_with_sync Samples.nth_sync Samples.nth_listed Samples.sync_bounds partition_point
starts_run = refl

starts_with_sync-IsSync_example : (0 < Samples.len frames) × IsSync frames 0
starts_with_sync-IsSync_example = starts_with_sync-IsSync frames frames-IsWindow starts_run

abbrev pub first_part : ℕ → TrackSegment
first_part id = record {
  track_id = id;
  first_sample = 0;
  end_sample = 2;
  decode_time = 0;
  duration = 20;
}

abbrev second_part : ℕ → TrackSegment
second_part id = record {
  track_id = id;
  first_sample = 2;
  end_sample = 4;
  decode_time = 20;
  duration = 20;
}

abbrev planned : List Segment
planned =
    record { index = 0; tracks = first_part 1 ∷ first_part 2 ∷ [] }
    ∷ record { index = 1; tracks = second_part 1 ∷ second_part 2 ∷ [] }
    ∷ []

first_run : audio_segment sound film 0 20 false ≡ ok (first_part 2)
unfolding audio_segment rescale time_or Samples.partition_by_decode_time
    Table.partition_by_decode_time Table.partition_in_run Table.within_run Table.steps_of
    Samples.decode_time Samples.absolute Samples.moved Table.decode_time Table.run_of
    Table.time_in_run partition_point
first_run = refl

second_run : audio_segment sound film 20 40 true ≡ ok (second_part 2)
unfolding audio_segment rescale time_or track_end Samples.last Samples.get Samples.sample_at
    Table.duration Table.composition_offset Table.offset_of_run Table.is_sync Table.listed
    Table.contains Table.offset sum Samples.partition_by_decode_time Table.partition_by_decode_time
    Table.partition_in_run Table.within_run Table.steps_of Samples.decode_time Samples.absolute
    Samples.moved Table.decode_time Table.run_of Table.time_in_run partition_point
second_run = refl

audio_segment-abuts_example : (first_part 2).end_sample ≡ (second_part 2).first_sample
audio_segment-abuts_example =
    audio_segment-abuts sound film 0 20 40 true (first_part 2) (second_part 2) first_run second_run

film_is_reference :
    reference_of (tracks_of true (film ∷ sound ∷ [])) (tracks_of false (film ∷ sound ∷ []))
    ≡ some film
unfolding reference_of tracks_of
film_is_reference = refl

plan_run : plan (film ∷ sound ∷ []) 20 limits ≡ ok planned
unfolding plan reference_of tracks_of others ticks_of track_end plan_segments plan_segment
    reference_part follower_parts over_limit audio_segment rescale time_or Samples.last Samples.get
    Samples.sample_at Table.duration Table.composition_offset Table.offset_of_run Table.is_sync
    Table.listed Table.contains Table.offset sum Samples.partition_by_decode_time
    Table.partition_by_decode_time Table.partition_in_run Table.within_run Table.steps_of
    Samples.decode_time Samples.absolute Samples.moved Table.decode_time Table.run_of
    Table.time_in_run partition_point starts_with_sync Samples.nth_sync Samples.nth_listed
    Samples.sync_bounds reference_boundaries inner_boundaries cut_at_sync drop_zeros
    Samples.every_sample_is_sync Samples.is_unlisted Samples.sync_indices Samples.listed_indices
plan_run = refl

plan-Covers_example : (end : ℕ) × (track_end film ≡ ok end) × Covers 9 film end 0 0 4 planned
plan-Covers_example =
    plan-Covers (film ∷ sound ∷ []) 20 limits film planned film_is_reference frames-IsWindow
      plan_run

plan-Follows_example : (x : ℕ) × Follows sound film x planned
unfolding others tracks_of
plan-Follows_example =
    plan-Follows (film ∷ sound ∷ []) 20 limits film sound planned film_is_reference frames-IsWindow
      (inl refl) plan_run

frames-Looks : Looks frames
unfolding Samples.partition_by_decode_time Table.partition_by_decode_time Table.partition_in_run
    Table.within_run Table.steps_of Samples.decode_time Samples.absolute Samples.moved
    Table.decode_time Table.run_of Table.time_in_run partition_point
frames-Looks = (λ time. ground arith, λ i h. ground arith)

cut_anywhere-ne-panic_example : cut_anywhere 5 frames 20 0 20 ≢ panic
cut_anywhere-ne-panic_example =
    cut_anywhere-ne-panic 5 frames 20 0 20 (omega arith) (omega arith) frames-Looks

abbrev second_half : SampleIndex
second_half = record frames { start = 2 }

window_run : Samples.window frames 2 4 ≡ ok second_half
unfolding Samples.window
window_run = refl

window-IsPart_example : IsPart frames 2 4 second_half
window-IsPart_example = window-IsPart frames second_half 2 4 frames-IsWindow window_run
