-- ===== src/Tests/Fragment.antt =====
-- Runs of the code of src/fmp4/fragment.rs and src/mp4/fragments.rs: a segment of the film is
-- prepared, and its header is read back.
use segmentor.Common.{ℕ, ◌≡◌, refl, true, false, List, [], ◌∷◌, All}
use segmentor.Common.Int.{pos}
use segmentor.Common.Bytes.{Bytes, to_be_bytes, be_value}
use segmentor.Error.{Result, ok, err, panic}
use segmentor.Config.Limits.{LimitsConfig}
use segmentor.Media.Iter as Iter
use segmentor.Media.Sample.{Sample, partition_point, sum}
use segmentor.Media.SampleIndex as Samples
use segmentor.Media.Tables as Table
use segmentor.Fmp4.Write.{
  write_box, write_box_header, write_full_box_fields, sample_flags, signed_bytes, trun_entries,
  build_traf, concat, moof_of, build_moof,
}
use segmentor.Fmp4.Fragment.{
  PreparedSegment, prepare_media_segment, prepare_samples, payload_from, coalesced_ranges,
  coalesce_from, range_end, ends_at, finish,
}
use segmentor.Fmp4.Write.ReadBack.{write_boxes, boxes_of, child_boxes-write_boxes}
use segmentor.Fmp4.Fragment.Layout.{IsPrepared, prepare_media_segment-IsPrepared}
use segmentor.Mp4.Boxes.{
  box_payload, box_size, fits, child_boxes, child_boxes_loop, find_named, optional_child,
  required_child,
}
use segmentor.Mp4.Boxes.Reader.{full_box, full_box_flags, unsigned, take_bytes, skip, read_i32}
use segmentor.Mp4.Fragments.{
  Fragment, track_samples, read_fragments, read_trafs, read_traf, read_runs, base_of, start_time,
  parse_decode_time, children_named,
}
use segmentor.Mp4.Fragments.Trun.{
  has_flag, parse_track_fragment_header, no_defaults, read_run, read_entries, read_entry,
  read_composition, unlisted_flags, add_sample, entry_size, data_start,
}
use segmentor.Mp4.Fragments.Runs.{Chained, InSource}
use segmentor.Mp4.Fragments.Order.{track_samples-Chained}
use segmentor.Tests.Planner.{film, limits, first_part}

abbrev or_empty : Result PreparedSegment → PreparedSegment
or_empty (ok p) = p
or_empty (err _) = record { header = []; ranges = []; content_length = 0 }
or_empty panic = record { header = []; ranges = []; content_length = 0 }

abbrev roomy : LimitsConfig
roomy = record limits { max_segment_bytes = 100 }

abbrev prepared : PreparedSegment
prepared = or_empty (prepare_media_segment film (first_part 1) 7 roomy)

prepared_run : prepare_media_segment film (first_part 1) 7 roomy ≡ ok prepared
unfolding prepare_media_segment prepare_samples payload_from coalesced_ranges coalesce_from
    range_end ends_at finish write_box write_box_header write_full_box_fields sample_flags
    signed_bytes trun_entries build_traf concat moof_of build_moof to_be_bytes Iter.range
    Iter.sync_from Iter.advance Iter.advance_chunk Iter.next_sync Iter.composition_at Iter.step
    Iter.next Iter.collect Iter.to_vec Samples.moved Table.offset Table.run_of Table.time_in_run
    partition_point sum
prepared_run = refl

prepare_media_segment-IsPrepared_example : IsPrepared film (first_part 1) 7 100 prepared
prepare_media_segment-IsPrepared_example =
    prepare_media_segment-IsPrepared film (first_part 1) 7 roomy prepared prepared_run

abbrev bytes_or_empty : Result Bytes → Bytes
bytes_or_empty (ok b) = b
bytes_or_empty (err _) = []
bytes_or_empty panic = []

abbrev read_back : List Sample
read_back =
    record {
      offset = 1128;
      size = 5;
      decode_time = 30;
      duration = 10;
      composition_offset = pos 2;
      is_sync = true;
    }
    ∷ record {
      offset = 1133;
      size = 6;
      decode_time = 40;
      duration = 10;
      composition_offset = pos 0;
      is_sync = false;
    }
    ∷ []

-- One fragment at position 1000 of the source.
abbrev fragments : List Fragment
fragments =
    record {
      offset = 1000;
      bytes = bytes_or_empty (build_moof 1 film.kind read_back 30 7 (pos 128) [] []);
    }
    ∷ []

read_back_run : track_samples fragments 1 no_defaults 1139 limits ≡ ok read_back
unfolding track_samples read_fragments read_trafs read_traf read_runs base_of start_time
    parse_decode_time children_named has_flag parse_track_fragment_header read_run read_entries
    read_entry read_composition unlisted_flags add_sample entry_size data_start full_box
    full_box_flags unsigned take_bytes skip read_i32 box_payload box_size fits child_boxes
    child_boxes_loop find_named optional_child required_child be_value write_box write_box_header
    write_full_box_fields sample_flags signed_bytes trun_entries build_traf concat moof_of
    build_moof to_be_bytes
read_back_run = refl

track_samples-Chained_example : (hi : ℕ) × Chained 0 hi read_back × All (InSource 1139) read_back
track_samples-Chained_example =
    track_samples-Chained fragments 1 no_defaults 1139 limits read_back read_back_run

abbrev rows : List (Bytes × Bytes)
rows = (b'f' ∷ b'r' ∷ b'e' ∷ b'e' ∷ [], 1 ∷ 2 ∷ []) ∷ (b'm' ∷ b'd' ∷ b'a' ∷ b't' ∷ [], []) ∷ []

write_boxes-run : write_boxes rows ≡ ok (bytes_or_empty (write_boxes rows))
unfolding write_box write_box_header to_be_bytes
write_boxes-run = refl

child_boxes-write_boxes_example :
    child_boxes (bytes_or_empty (write_boxes rows)) ≡ ok (boxes_of rows)
child_boxes-write_boxes_example =
    child_boxes-write_boxes rows (bytes_or_empty (write_boxes rows)) (refl, (refl, tt))
      write_boxes-run
