-- ===== src/Mp4/Edit.antt =====
-- src/mp4/edit.rs: edit lists, and the shift of each track onto one timeline. A product or a sum of
-- `i128` that leaves its range panics.
pub mod Apply
pub mod Offset
pub mod Shifts
use segmentor.Common.{
  ℕ, zero, suc, ◌+◌, ◌-◌, ◌*◌, ◌/◌, ◌^◌, Bool, true, false, Option, none, some, List, [], ◌∷◌, ◌&&◌,
  ◌||◌, not, ltb, leb, min, ◌==◌, if◌then◌else◌, length, String,
}
use segmentor.Common.Int.{ℤ, pos, negsuc, ◌+ℤ◌, ◌-ℤ◌, ◌*ℤ◌, ltb_ℤ}
use segmentor.Error.{
  Error, Result, ok, err, panic, ◌>>=◌, ◌>>◌, guard, ok_or, checked_add, saturating_add, u64_mod,
  unsupported, invalid_media, invalid_media_with,
}
use segmentor.Media.Iter as Iter
use segmentor.Media.Sample.{Sample, TrackKind, audio, video}
use segmentor.Media.SampleIndex as Samples
use segmentor.Media.SampleIndex.{to_u64}
use segmentor.Media.Track.{Track, is_video}

pub record ElstEntry : Type 0 where
  pub segment_duration : ℕ
  pub media_time : ℕ
  pub media_rate : ℕ
  pub media_rate_fraction : ℕ

pub record TrackEdit : Type 0 where
  pub media_time : ℕ
  pub delay : ℕ
  pub media_end : Option ℕ

-- `TrackEdit::NONE`
abbrev pub no_edit : TrackEdit
no_edit = record { media_time = 0; delay = 0; media_end = none }

-- `u64::MAX` or `u32::MAX`
unfoldable pub is_empty_edit : ElstEntry → ℕ → Bool
is_empty_edit entry version =
    if version == 1 then entry.media_time == 2 ^ 64 - 1 else entry.media_time == 2 ^ 32 - 1

abbrev bad_shape : ℕ → ℕ → Error
bad_shape track_id count =
    unsupported
      "track {}: edit list shape is not supported ({} entries; only one edit, optionally after one empty edit, is)"
      (track_id ∷ count ∷ [])

-- The delay and the one edit that plays media; none for an empty list.
unfoldable pub shape_of : ℕ → ℕ → List ElstEntry → Result (Option (ℕ × ElstEntry))
unfolding is_empty_edit
shape_of track_id version [] = ok none
shape_of track_id version (edit ∷ []) =
    if is_empty_edit edit version then err (bad_shape track_id 1) else ok (some (0, edit))
shape_of track_id version (gap ∷ edit ∷ []) =
    if is_empty_edit gap version && not (is_empty_edit edit version)
    then ok (some (gap.segment_duration, edit))
    else err (bad_shape track_id 2)
shape_of track_id version (a ∷ b ∷ c ∷ rest) = err (bad_shape track_id (length (a ∷ b ∷ c ∷ rest)))

-- Where the edit ends: a duration of zero means to the end. `u128` holds the product.
unfoldable pub end_of : ElstEntry → ℕ → ℕ → Option ℕ
end_of edit movie_timescale track_timescale =
    if edit.segment_duration == 0
    then none
    else some (
        min (edit.media_time + edit.segment_duration * track_timescale / movie_timescale)
          (u64_mod - 1))

unfoldable pub edit_of : ℕ → ℕ → ℕ → ℕ → ℕ × ElstEntry → Result TrackEdit
unfolding end_of
edit_of track_id version movie_timescale track_timescale (delay, edit) = do
  guard (edit.media_rate == 1 && edit.media_rate_fraction == 0) (
      unsupported "track {}: edit list plays media at rate {}.{}, only rate 1 is supported"
        (track_id ∷ edit.media_rate ∷ edit.media_rate_fraction ∷ []))
  guard (leb edit.media_time (if version == 1 then 2 ^ 63 - 1 else 2 ^ 31 - 1))
      (invalid_media_with "track {}: edit list media_time is negative" (track_id ∷ []))
  guard (not (movie_timescale == 0 || track_timescale == 0))
      (invalid_media_with "track {}: timescale is zero" (track_id ∷ []))
  ok (record {
    media_time = edit.media_time;
    delay = delay;
    media_end = end_of edit movie_timescale track_timescale;
  })

-- `MAX_EDIT_ENTRIES` is 16.
unfoldable pub parse_edit_list : ℕ → ℕ → List ElstEntry → ℕ → ℕ → Result TrackEdit
unfolding shape_of edit_of
parse_edit_list track_id version entries movie_timescale track_timescale = do
  guard (leb (length entries) 16)
      (unsupported "track {}: edit list has {} entries" (track_id ∷ length entries ∷ []))
  shape ← shape_of track_id version entries
  elim shape [
    | none ↦ ok no_edit
    | some found ↦ edit_of track_id version movie_timescale track_timescale found
  ]

abbrev pub in_i128 : ℤ → Bool
in_i128 (pos n) = ltb n (2 ^ 127)
in_i128 (negsuc n) = ltb n (2 ^ 127)

-- The result of an operation on `i128`.
unfoldable pub i128 : ℤ → Result ℤ
i128 z = if in_i128 z then ok z else panic

-- An edit and its track's timescale.
abbrev pub Timed : Type 0
Timed = TrackEdit × ℕ

-- The offset so far, a numerator and a denominator, or the one that this edit asks for.
unfoldable pub offset_step : ℕ → Timed → ℤ × ℤ → Result (ℤ × ℤ)
unfolding i128
offset_step movie (edit, timescale) (n, d) = do
  ahead ← i128 (pos edit.media_time *ℤ pos movie)
  behind ← i128 (pos edit.delay *ℤ pos timescale)
  numerator ← i128 (ahead -ℤ behind)
  denominator ← i128 (pos timescale *ℤ pos movie)
  left ← i128 (numerator *ℤ d)
  right ← i128 (n *ℤ denominator)
  ok (if ltb_ℤ right left then (numerator, denominator) else (n, d))

unfoldable pub offset_from : ℕ → List Timed → ℤ × ℤ → Result (ℤ × ℤ)
unfolding offset_step
offset_from movie [] offset = ok offset
offset_from movie (edit ∷ edits) offset = do
  next ← offset_step movie edit offset
  offset_from movie edits next

unfoldable pub shared_offset : List Timed → ℕ → Result (ℤ × ℤ)
unfolding offset_from
shared_offset edits movie = offset_from movie edits (pos 0, pos 1)

-- `div_euclid`, and `/` on numbers that are not negative: the quotient rounded down.
unfoldable pub div_euclid : ℤ → ℤ → Result ℤ
div_euclid a (negsuc b) = panic
div_euclid a (pos zero) = panic
div_euclid (pos a) (pos (suc b)) = ok (pos (a / suc b))
div_euclid (negsuc a) (pos (suc b)) = ok (negsuc (a / suc b))

unfoldable pub shared_offset_millis : List Timed → ℕ → Result ℕ
unfolding shared_offset i128 div_euclid
shared_offset_millis edits movie = do
  (n, d) ← shared_offset edits movie
  twice ← i128 (pos 2 *ℤ n)
  scaled ← i128 (twice *ℤ pos 1000)
  dividend ← i128 (scaled +ℤ d)
  divisor ← i128 (pos 2 *ℤ d)
  millis ← div_euclid dividend divisor
  ok (elim (to_u64 millis) [ none ↦ 0 | some m ↦ m ])

-- The shift of one track, before it is checked to be a `u64`.
unfoldable pub shift_of : ℕ → ℤ × ℤ → Timed → Result ℤ
unfolding i128 div_euclid
shift_of movie (n, d) (edit, timescale) = do
  waits ← i128 (pos edit.delay *ℤ d)
  starts ← i128 (n *ℤ pos movie)
  sum ← i128 (waits +ℤ starts)
  scaled ← i128 (sum *ℤ pos timescale)
  denominator ← i128 (pos movie *ℤ d)
  twice ← i128 (pos 2 *ℤ scaled)
  dividend ← i128 (twice +ℤ denominator)
  divisor ← i128 (pos 2 *ℤ denominator)
  ticks ← div_euclid dividend divisor
  i128 (ticks -ℤ pos edit.media_time)

unfoldable pub shifts_from : ℕ → ℤ × ℤ → List Timed → Result (List ℕ)
unfolding shift_of
shifts_from movie offset [] = ok []
shifts_from movie offset (edit ∷ edits) = do
  ticks ← shift_of movie offset edit
  shift ← ok_or (to_u64 ticks) (invalid_media "edit list timeline shift is out of range")
  shifts ← shifts_from movie offset edits
  ok (shift ∷ shifts)

unfoldable pub timeline_shifts : List Timed → ℕ → Result (List ℕ)
unfolding shared_offset shifts_from
timeline_shifts edits movie = do offset ← shared_offset edits movie; shifts_from movie offset edits
