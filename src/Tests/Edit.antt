-- ===== src/Tests/Edit.antt =====
-- Runs of the code of src/mp4/edit.rs: audio that starts 1024 ticks into its track, beside video
-- that waits for 500 ms.
use segmentor.Common.{◌^◌, ℕ, ◌≡◌, refl, none, List, [], ◌∷◌, arith}
use segmentor.Common.Int.{pos}
use segmentor.Error.{ok, panic}
use segmentor.Mp4.Edit.{
  Timed, parse_edit_list, shape_of, edit_of, end_of, is_empty_edit, i128, offset_step, offset_from,
  shared_offset, shared_offset_millis, div_euclid, shift_of, shifts_from, timeline_shifts,
}
use segmentor.Mp4.Edit.Shifts.{shared_offset-shift_of}

abbrev edits : List Timed
edits =
    (record { media_time = 1024; delay = 0; media_end = none }, 48000)
    ∷ (record { media_time = 0; delay = 500; media_end = none }, 90000)
    ∷ []

-- The delayed track's edit list, as it is read.
parsed :
    parse_edit_list 2 0
      (record {
        segment_duration = 500;
        media_time = 0xffffffff;
        media_rate = 1;
        media_rate_fraction = 0;
      }
        ∷ record { segment_duration = 0; media_time = 0; media_rate = 1; media_rate_fraction = 0 }
        ∷ [])
      1000
      90000
    ≡ ok (record { media_time = 0; delay = 500; media_end = none })
unfolding parse_edit_list shape_of edit_of end_of is_empty_edit
parsed = refl

shared : shared_offset edits 1000 ≡ ok (pos 1024000, pos 48000000)
unfolding shared_offset offset_from offset_step i128
shared = refl

shifts : timeline_shifts edits 1000 ≡ ok (0 ∷ 46920 ∷ [])
unfolding timeline_shifts shifts_from shift_of div_euclid shared_offset offset_from offset_step i128
shifts = refl

millis : shared_offset_millis edits 1000 ≡ ok 21
unfolding shared_offset_millis div_euclid shared_offset offset_from offset_step i128
millis = refl

shift_run :
    shift_of 1000
      (pos 1024000, pos 48000000)
      (record { media_time = 0; delay = 500; media_end = none }, 90000)
    ≡ ok (pos 46920)
unfolding shift_of div_euclid i128
shift_run = refl

shared_offset-shift_of_example : (m : ℕ) × (pos 46920 ≡ pos m)
shared_offset-shift_of_example =
    shared_offset-shift_of 1000 edits (pos 1024000, pos 48000000) 1
      (record { media_time = 0; delay = 500; media_end = none }, 90000) (pos 46920) (omega arith)
      (omega arith, (omega arith, tt)) shared refl shift_run

-- An edit list of version 1 can ask for so late a start that the comparison of two tracks' offsets
-- leaves the range of `i128`.
abbrev late : Timed
late = (record { media_time = 2 ^ 62; delay = 0; media_end = none }, 0xffffffff)

late_parsed :
    parse_edit_list 1 1
      (record { segment_duration = 0; media_time = 2 ^ 62; media_rate = 1; media_rate_fraction = 0 }
        ∷ [])
      0xffffffff
      0xffffffff
    ≡ ok (record { media_time = 2 ^ 62; delay = 0; media_end = none })
unfolding parse_edit_list shape_of edit_of end_of is_empty_edit
late_parsed = refl

late_overflow : shared_offset (late ∷ late ∷ []) 0xffffffff ≡ panic
unfolding shared_offset offset_from offset_step i128
late_overflow = refl
