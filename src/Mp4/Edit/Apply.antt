-- ===== src/Mp4/Edit/Apply.antt =====
-- `apply` and `trim_tail` of src/mp4/edit.rs. The samples that an iterator is asked for are read
-- together, before the first of them is tested.
use segmentor.Common.{
  ℕ, Bool, true, false, Option, none, some, List, [], ◌∷◌, ◌&&◌, not, leb, ◌==◌, if◌then◌else◌,
  length,
}
use segmentor.Common.Int.{pos, ◌+ℤ◌, ltb_ℤ}
use segmentor.Error.{
  Result, ok, ◌>>=◌, ◌>>◌, guard, ok_or, checked_add, saturating_add, unsupported, invalid_media,
  invalid_media_with,
}
use segmentor.Media.Iter.{to_vec}
use segmentor.Media.Sample.{Sample, partition_point}
use segmentor.Media.SampleIndex as Samples
use segmentor.Media.SampleIndex.{SampleIndex}
use segmentor.Media.Track.{Track, is_video}
use segmentor.Mp4.Edit.{TrackEdit}

unfoldable pub sample_end : Sample → ℕ
sample_end s = saturating_add s.decode_time s.duration

-- `presents_at(&sample) < end`
unfoldable pub presents_before : ℕ → Sample → Bool
presents_before end s = ltb_ℤ (pos s.decode_time +ℤ s.composition_offset) (pos end)

-- `Iterator::any`
unfoldable pub any_before : ℕ → List Sample → Bool
unfolding presents_before
any_before end [] = false
any_before end (s ∷ ss) = if presents_before end s then true else any_before end ss

-- The samples that present before `end`; what is cut off is a suffix.
unfoldable pub trim_tail : ℕ → SampleIndex → ℕ → Result SampleIndex
unfolding presents_before any_before to_vec Samples.window
trim_tail track_id s end = do
  samples ← to_vec s 0 (Samples.len s)
  let first_cut = partition_point (presents_before end) samples
  if first_cut == length samples then ok s else (do
    cut ← to_vec s first_cut (Samples.len s)
    guard (not (any_before end cut))
        (unsupported "track {}: edit list ends inside a run of reordered samples" (track_id ∷ []))
    guard (not (first_cut == 0))
        (invalid_media_with "track {}: edit list ends before the first sample" (track_id ∷ []))
    Samples.window s 0 first_cut)

unfoldable pub trim_to : ℕ → SampleIndex → Option ℕ → Result SampleIndex
unfolding trim_tail
trim_to track_id s none = ok s
trim_to track_id s (some end) = trim_tail track_id s end

-- An audio track without the whole samples that end before the edit starts.
unfoldable pub trim_head : Bool → SampleIndex → ℕ → Result SampleIndex
unfolding sample_end to_vec Samples.window
trim_head true s media_time = ok s
trim_head false s media_time = do
  samples ← to_vec s 0 (Samples.len s)
  let keep_from = partition_point (λ sample. leb (sample_end sample) media_time) samples
  Samples.window s keep_from (Samples.len s)

-- `edit == TrackEdit::NONE`
unfoldable pub is_no_edit : TrackEdit → Bool
is_no_edit edit =
    edit.media_time == 0
    && edit.delay == 0
    && (elim edit.media_end [ none ↦ true | some _ ↦ false ])

unfoldable pub apply : Track → TrackEdit → ℕ → Result Track
unfolding is_no_edit trim_to trim_head sample_end Samples.last Samples.shifted
apply track edit shift = if is_no_edit edit && shift == 0 then ok track else (do
  trimmed ← trim_to track.id track.samples edit.media_end
  kept ← trim_head (is_video track.kind) trimmed edit.media_time
  found ← Samples.last kept
  last ← ok_or found (invalid_media_with "track {}: edit list removes every sample" (track.id ∷ []))
  samples ← Samples.shifted kept (pos shift) "decode timestamp overflow"
  duration ← ok_or (checked_add (sample_end last) shift) (invalid_media "track duration overflow")
  ok (record track { samples = samples; timeline_shift = shift; duration = duration }))
