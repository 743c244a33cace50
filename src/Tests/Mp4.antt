-- ===== src/Tests/Mp4.antt =====
-- Runs of the code of src/mp4/boxes.rs and src/mp4/tables.rs.
use segmentor.Common.{ℕ, ◌≡◌, ◌≢◌, refl, ltb, ◌&&◌, some, none, List, [], ◌∷◌, arith, length}
use segmentor.Common.Bytes.{Bytes, be_value}
use segmentor.Error.{ok, panic}
use segmentor.Media.Ascending.{Climbs}
use segmentor.Common.Int.{pos}
use segmentor.Media.SampleIndex.{SampleIndex, new, len}
use segmentor.Mp4.Tables.Chunks.{
  chunks, map_entries, map_entry, map_chunk, chunk_end, record_chunk, copy_offset,
}
use segmentor.Mp4.Tables.Parse.{SampleTables, constant}
use segmentor.Mp4.Tables.{
  sample_index, insert_sorted, dedup_from, count_of, size_list, composition_tables, sync_table,
}
use segmentor.Mp4.Tables.Index.{sample_index-IsWindow}
use segmentor.Segment.Planner.Boundaries.{IsWindow}
use segmentor.Tests.Planner.{limits}
use segmentor.Media.Tables as Table
use segmentor.Media.Tables.{Tables, contains}
use segmentor.Mp4.Boxes.{RawBox, child_boxes, child_boxes_loop, box_payload, box_size, fits}
use segmentor.Mp4.Boxes.Walk.{child_boxes-ne-panic, child_boxes-Tiles, Tiles, total_size}
use segmentor.Mp4.Tables.{sync_indexes, sort, dedup, timing_runs, timing_loop, TimingRuns}
use segmentor.Mp4.Tables.Sync.{sync_table-Climbs, contains-sync_table}
use segmentor.Mp4.Tables.Timing.{timing_runs-expanded, expanded}

-- A `free` box with one byte, and an empty `mdat` box that reaches to the end.
abbrev two_boxes : Bytes
two_boxes =
    0 ∷ 0 ∷ 0 ∷ 9 ∷ b'f' ∷ b'r' ∷ b'e' ∷ b'e' ∷ 7 ∷ 0 ∷ 0 ∷ 0 ∷ 0 ∷ b'm' ∷ b'd' ∷ b'a' ∷ b't' ∷ []

abbrev walked : List RawBox
walked =
    record { name = b'f' ∷ b'r' ∷ b'e' ∷ b'e' ∷ []; payload = 7 ∷ []; size = 9 }
    ∷ record { name = b'm' ∷ b'd' ∷ b'a' ∷ b't' ∷ []; payload = []; size = 8 }
    ∷ []

two_boxes-walked : child_boxes two_boxes ≡ ok walked
unfolding child_boxes child_boxes_loop box_payload box_size fits be_value
two_boxes-walked = refl

child_boxes-ne-panic_example : child_boxes two_boxes ≢ panic
child_boxes-ne-panic_example = child_boxes-ne-panic two_boxes

child_boxes-Tiles_example : Tiles two_boxes walked × (total_size walked ≡ length two_boxes)
child_boxes-Tiles_example = child_boxes-Tiles two_boxes walked two_boxes-walked

abbrev numbers : List ℕ
numbers = 5 ∷ 0 ∷ 1 ∷ 5 ∷ 9 ∷ []

sync_table-Climbs_example : Climbs 0 8 (dedup (sort (sync_indexes 8 numbers)))
sync_table-Climbs_example = sync_table-Climbs 8 numbers

contains-sync_table_example :
    contains (dedup (sort (sync_indexes 8 numbers))) 4 ≡ (ltb 4 8 && contains numbers 5)
contains-sync_table_example = contains-sync_table 8 4 numbers

abbrev runs : List (ℕ × ℕ)
runs = (2, 10) ∷ (0, 3) ∷ (3, 20) ∷ []

abbrev timing : TimingRuns
timing = record { first = 0 ∷ 2 ∷ []; start = 0 ∷ 20 ∷ []; duration = 10 ∷ 20 ∷ [] }

abbrev timed : Tables
timed = record {
  sizes = 1 ∷ 1 ∷ 1 ∷ 1 ∷ 1 ∷ [];
  chunk_first = 0 ∷ [];
  chunk_offset = 0 ∷ [];
  time_first = 0 ∷ 2 ∷ [];
  time_start = 0 ∷ 20 ∷ [];
  time_duration = 10 ∷ 20 ∷ [];
  composition_first = [];
  composition_offset = [];
  sync = none;
}

timing_runs-run : timing_runs runs 5 ≡ ok timing
unfolding timing_runs timing_loop
timing_runs-run = refl

timing_runs-expanded_example :
    (time : ℕ) × (delta : ℕ) × (expanded 0 runs 3 ≡ some (time, delta))
    × (Table.decode_time timed 3 ≡ ok time)
    × (Table.duration timed 3 ≡ ok delta)
timing_runs-expanded_example =
    timing_runs-expanded runs 5 3 timing timed timing_runs-run refl refl refl (omega arith)

abbrev stbl : SampleTables
stbl = record {
  time_to_sample = runs;
  composition = none;
  sync = some numbers;
  sample_to_chunk = (1, 5) ∷ [];
  sizes = constant 1 5;
  chunk_offsets = 100 ∷ [];
}

abbrev indexed : SampleIndex
indexed = record {
  tables = record timed { chunk_offset = 100 ∷ []; sync = some (0 ∷ 4 ∷ []) };
  start = 0;
  end = 5;
  shift = pos 0;
}

sample_index-run : sample_index stbl 105 limits ≡ ok indexed
unfolding sample_index count_of size_list timing_runs timing_loop composition_tables sync_table
    sync_indexes sort insert_sorted dedup dedup_from chunks map_entries map_entry map_chunk
    chunk_end record_chunk copy_offset new
sample_index-run = refl

sample_index-IsWindow_example : IsWindow indexed × (len indexed ≡ count_of stbl.sizes)
sample_index-IsWindow_example =
    sample_index-IsWindow stbl 105 limits indexed (omega arith) sample_index-run
