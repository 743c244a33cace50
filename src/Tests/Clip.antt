-- ===== src/Tests/Clip.antt =====
-- Runs of the code of src/clip.rs: cuts of a film of 40 ticks, whose samples 0 and 2 are sync.
use segmentor.Common.{ℕ, ◌+◌, ◌≤◌, ◌<◌, ◌≡◌, refl, some, List, [], ◌∷◌, arith, false}
use segmentor.Common.Int.{pos}
use segmentor.Error.{ok}
use segmentor.Media.Iter as Iter
use segmentor.Media.Sample.{Sample, partition_point}
use segmentor.Media.SampleIndex as Samples
use segmentor.Media.Tables as Table
use segmentor.Clip.{MediaIndex, ClipWindow, video_window, last_shown, last_before}
use segmentor.Clip.Time.{in_ticks, after_ticks, presented}
use segmentor.Clip.Rounding.{in_ticks-after_ticks}
use segmentor.Clip.Accepted.{BeginsWithSync, video_window-BeginsWithSync}
use segmentor.Tests.Planner.{film, frames}

abbrev movie : MediaIndex
movie = record {
  movie_timescale = 1000;
  duration = 40;
  presentation_offset_ms = 0;
  tracks = film ∷ [];
}

abbrev from_to : ℕ → ℕ → ClipWindow
from_to from to = record { from_ms = from; to_ms = some to }

abbrev last_frame : Sample
last_frame = record {
  offset = 118;
  size = 8;
  decode_time = 30;
  duration = 10;
  composition_offset = pos 0;
  is_sync = false;
}

video_window-BeginsWithSync_example :
    (sync : List ℕ) × (Samples.sync_indices frames ≡ ok sync) × BeginsWithSync sync 2 × (2 < 3)
unfolding video_window last_shown last_before Samples.sync_indices Samples.listed_indices
    Samples.sync_bounds Samples.get Samples.absolute Samples.sample_at Samples.moved Table.offset
    Table.decode_time Table.duration Table.composition_offset Table.is_sync Iter.to_vec Iter.range
    Iter.collect Iter.next Iter.step Iter.sync_from Iter.advance Iter.advance_chunk Iter.next_sync
    Iter.composition_at partition_point presented Table.run_of Table.time_in_run
video_window-BeginsWithSync_example = video_window-BeginsWithSync frames 25 (some 30) 2 3 refl

-- A third of a second later, at 90 ticks a millisecond.
in_ticks-after_ticks_example : (30000 ≤ 0 + 30001) × (0 + 30001 ≤ 30000 + 1)
unfolding in_ticks after_ticks
in_ticks-after_ticks_example =
    in_ticks-after_ticks 0 30001 90000 333344444 0 30000 (omega arith) refl refl refl
