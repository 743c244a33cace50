-- ===== src/Clip.antt =====
-- src/clip.rs: one file's samples cut down to a window, and placed on a sequence's timeline. The
-- hash that names a version is not modelled.
pub mod Time
pub mod Rounding
pub mod Accepted
use segmentor.Common.{
  ℕ, zero, suc, ◌+◌, ◌-◌, max, Bool, true, false, Option, none, some, List, [], ◌∷◌, ◌&&◌, ltb, leb,
  not, ◌==◌, if◌then◌else◌,
}
use segmentor.Common.Int.{ℤ, pos, ◌+ℤ◌, ◌-ℤ◌, ltb_ℤ}
use segmentor.Error.{
  Result, ok, err, panic, ◌>>=◌, ◌>>◌, guard, ok_or, expect, checked_add, checked_sub,
  saturating_add, unsupported, invalid_media, invalid_media_with,
}
use segmentor.Media.Iter as Iter
use segmentor.Media.Sample.{Sample, TrackKind, audio, video}
use segmentor.Media.SampleIndex as Samples
use segmentor.Media.SampleIndex.{SampleIndex, to_u64}
use segmentor.Media.Track.{Track, is_video}
use segmentor.Clip.Time.{
  in_ticks, after_ticks, overflow, ms_to_ticks, ticks_to_ms, rescale_ticks, end_of_sample,
  presented,
}

-- The fields of `MediaIndex` that are read; the others are carried along.
pub record MediaIndex : Type 0 where
  pub movie_timescale : ℕ
  pub duration : ℕ
  pub presentation_offset_ms : ℕ
  pub tracks : List Track

pub record ClipWindow : Type 0 where
  pub from_ms : ℕ
  pub to_ms : Option ℕ

pub data Trailing : Type 0 where
  keep cut : Trailing

pub record Trimmed : Type 0 where
  pub index : MediaIndex
  pub end : ℕ
  pub served_from_ms : ℕ
  pub served_to_ms : ℕ
  pub span_from_ms : ℕ
  pub span_to_ms : ℕ
  pub lead_ms : ℕ

unfoldable pub find_kind : Bool → List Track → Option Track
find_kind wants_video [] = none
find_kind wants_video (t ∷ ts) =
    let rest = find_kind wants_video ts in
    if same wants_video (is_video t.kind) then some t else rest
  where
    same : Bool → Bool → Bool
    same true b = b
    same false true = false
    same false false = true

unfoldable pub reference_track : MediaIndex → Result Track
unfolding find_kind
reference_track index =
    ok_or
      (elim (find_kind true index.tracks) [ none ↦ find_kind false index.tracks | some t ↦ some t ])
      (unsupported "input has no audio or video track" [])

-- The last of some sync samples that is shown at or before `from`.
unfoldable pub last_shown : SampleIndex → ℤ → Option ℕ → List ℕ → Result (Option ℕ)
unfolding Samples.get
last_shown samples from found [] = ok found
last_shown samples from found (i ∷ is) = do
  sample ← Samples.get samples i
  last_shown samples from (if ltb_ℤ from (presented sample) then found else some i) is

abbrev pub or_first : Option ℕ → List ℕ → ℕ
or_first (some i) is = i
or_first none [] = 0
or_first none (i ∷ is) = i

-- The position of the last sample that is shown before `to`.
unfoldable pub last_before : ℤ → ℕ → Option ℕ → List Sample → Option ℕ
last_before to position found [] = found
last_before to position found (s ∷ ss) =
    last_before to (position + 1) (if ltb_ℤ (presented s) to then some position else found) ss

abbrev pub end_behind : ℕ → Option ℕ → ℕ
end_behind first none = first + 1
end_behind first (some position) = first + position + 1

unfoldable pub video_window : SampleIndex → ℕ → Option ℕ → Result (ℕ × ℕ)
unfolding Samples.sync_indices last_shown last_before Iter.to_vec
video_window samples from to = do
  sync ← Samples.sync_indices samples
  shown ← last_shown samples (pos from) none sync
  let first = or_first shown sync
  end ← elim to [
    | none ↦ ok (Samples.len samples)
    | some to ↦ (do
      kept ← Iter.to_vec samples first (Samples.len samples)
      ok (end_behind first (last_before (pos to) 0 none kept)))
  ]
  ok (first, max end (first + 1))

unfoldable pub audio_window : SampleIndex → ℕ → Option ℕ → Result (ℕ × ℕ)
unfolding Samples.partition_by_decode_time
audio_window samples from to = do
  behind ← Samples.partition_by_decode_time samples (saturating_add from 1)
  end ← elim to [
    | none ↦ ok (Samples.len samples)
    | some to ↦ Samples.partition_by_decode_time samples to
  ]
  ok (behind - 1, max end (behind - 1 + 1))

unfoldable pub follower_window : Track → ℕ → ℕ → Bool → Result (ℕ × ℕ)
unfolding Samples.partition_by_decode_time
follower_window track start end to_the_end = do
  first ← Samples.partition_by_decode_time track.samples start
  last ←
      (if to_the_end
        then ok (Samples.len track.samples)
        else Samples.partition_by_decode_time track.samples end)
  ok (first, max last first)

abbrev pub last_sample : SampleIndex → Result Sample
last_sample samples = do
  found ← Samples.last samples
  ok_or found (invalid_media "track contains no samples")

-- An instant of the window, in ticks of the reference.
abbrev pub window_ticks : ℕ → ℕ → ℕ → Result ℕ
window_ticks offset timescale ms = do
  moved ← ok_or (checked_add ms offset) overflow
  ms_to_ticks moved timescale

abbrev pub optional_ticks : ℕ → ℕ → Option ℕ → Result (Option ℕ)
optional_ticks offset timescale none = ok none
optional_ticks offset timescale (some ms) = do to ← window_ticks offset timescale ms; ok (some to)

-- `to` is behind `from`, or the end of the file.
abbrev pub is_later : ℕ → Option ℕ → Bool
is_later from none = true
is_later from (some to) = ltb from to

-- `Option::filter`: a window that reaches the end keeps every sample.
abbrev pub before_end : ℕ → Option ℕ → Option ℕ
before_end reference_end none = none
before_end reference_end (some to) = if ltb to reference_end then some to else none

abbrev pub window_of_kind : TrackKind → SampleIndex → ℕ → Option ℕ → Result (ℕ × ℕ)
window_of_kind video = video_window
window_of_kind audio = audio_window

unfoldable pub reference_window : MediaIndex → Track → ClipWindow → Result (ℕ × ℕ)
unfolding Samples.last end_of_sample ms_to_ticks video_window audio_window
reference_window index reference window = do
  last ← last_sample reference.samples
  reference_end ← end_of_sample last
  from ← window_ticks index.presentation_offset_ms reference.timescale window.from_ms
  guard (ltb from reference_end)
      (invalid_media_with "from_ms {} is at or past the end of the file" (window.from_ms ∷ []))
  to ← optional_ticks index.presentation_offset_ms reference.timescale window.to_ms
  guard (is_later from to) (invalid_media "to_ms must be later than from_ms")
  window_of_kind reference.kind reference.samples from (before_end reference_end to)

unfoldable pub moved_track : Track → ℕ × ℕ → ℕ → ℕ → Result Track
unfolding Samples.window Samples.decode_time Samples.shifted Samples.last end_of_sample
moved_track track range origin base = do
  kept ← Samples.window track.samples range.0 range.1
  guard (not (Samples.is_empty kept))
      (invalid_media_with "the window leaves track `{}` with no samples" (track.key.ordinal ∷ []))
  start ← Samples.decode_time kept 0
  guard (leb origin start) overflow
  samples ← Samples.shifted kept (pos base -ℤ pos origin) "clip timing overflow"
  found ← Samples.last samples
  last ← expect found
  end ← end_of_sample last
  moved_start ← Samples.decode_time samples 0
  duration ← ok_or (checked_sub end moved_start) overflow
  ok (record track { duration = duration; samples = samples })

-- `Iterator::min` of the instants at which samples are shown.
unfoldable pub earliest_shown : Option ℤ → List Sample → Option ℤ
earliest_shown found [] = found
earliest_shown none (s ∷ ss) = earliest_shown (some (presented s)) ss
earliest_shown (some least) (s ∷ ss) =
    earliest_shown (some (if ltb_ℤ (presented s) least then presented s else least)) ss

abbrev pub or_zero : Option ℕ → ℕ
or_zero none = 0
or_zero (some n) = n

-- What of the reference track is kept: its samples, the decode times where they begin and end, and
-- how much later the clip is moved.
pub record Kept : Type 0 where
  pub first : ℕ
  pub end : ℕ
  pub origin : ℕ
  pub kept_end : ℕ
  pub lead : ℕ

-- The range, the origin and the lead of one track.
unfoldable pub placed : Track → Kept → Bool → Track → Result ((ℕ × ℕ) × ℕ × ℕ)
unfolding follower_window rescale_ticks
placed reference k to_the_end track =
    if track.id == reference.id then ok ((k.first, k.end), k.origin, k.lead) else (do
      track_origin ← rescale_ticks k.origin reference.timescale track.timescale
      span_end ← rescale_ticks k.kept_end reference.timescale track.timescale
      range ← follower_window track track_origin span_end to_the_end
      track_lead ← rescale_ticks k.lead reference.timescale track.timescale
      ok (range, track_origin, track_lead))

unfoldable pub trimmed_tracks : Track → Kept → Bool → ℕ → List Track → Result (List Track)
unfolding placed in_ticks moved_track
trimmed_tracks reference k to_the_end start [] = ok []
trimmed_tracks reference k to_the_end start (track ∷ tracks) = do
  place ← placed reference k to_the_end track
  start_ticks ← in_ticks start track.timescale
  base ← ok_or (checked_add start_ticks place.2) overflow
  moved ← moved_track track place.0 place.1 base
  rest ← trimmed_tracks reference k to_the_end start tracks
  ok (moved ∷ rest)

abbrev pub is_kept_to_end : Trailing → ℕ → ℕ → Bool
is_kept_to_end cut end len = false
is_kept_to_end keep end len = end == len

unfoldable pub trim : MediaIndex → ClipWindow → ℕ → Trailing → Result Trimmed
unfolding reference_track reference_window Samples.window Samples.decode_time Samples.last
    end_of_sample Iter.to_vec earliest_shown trimmed_tracks rescale_ticks after_ticks ticks_to_ms
trim index window start trailing = do
  reference ← reference_track index
  range ← reference_window index reference window
  kept ← Samples.window reference.samples range.0 range.1
  origin ← Samples.decode_time reference.samples range.0
  found ← Samples.last kept
  last ← expect found
  kept_end ← end_of_sample last
  shown ← Iter.to_vec kept 0 (Samples.len kept)
  earliest ← expect (earliest_shown none shown)
  let lead = or_zero (to_u64 (pos origin -ℤ earliest))
  let k : Kept = record {
    first = range.0;
    end = range.1;
    origin = origin;
    kept_end = kept_end;
    lead = lead;
  }
  tracks ←
      trimmed_tracks reference k (is_kept_to_end trailing range.1 (Samples.len reference.samples))
        start index.tracks
  span ← ok_or (checked_sub kept_end origin) overflow
  length ← ok_or (checked_add span lead) overflow
  duration ← rescale_ticks length reference.timescale index.movie_timescale
  end ← after_ticks start length reference.timescale
  ok (record {
    index = record index { duration = duration; tracks = tracks };
    end = end;
    served_from_ms =
        ticks_to_ms (or_zero (to_u64 earliest)) reference.timescale - index.presentation_offset_ms;
    served_to_ms = ticks_to_ms kept_end reference.timescale - index.presentation_offset_ms;
    span_from_ms = ticks_to_ms origin reference.timescale;
    span_to_ms = ticks_to_ms kept_end reference.timescale;
    lead_ms = ticks_to_ms lead reference.timescale;
  })
