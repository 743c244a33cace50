-- ===== src/Fmp4/Fragment.antt =====
-- src/fmp4/fragment.rs: the header of a media segment, and the byte ranges of its samples; and
-- `ByteRange` of src/source/mod.rs. The field for encryption, which this code leaves empty, is left
-- out, and the bytes of a source are read by a function.
pub mod Ranges
pub mod Layout
use segmentor.Common.{
  ℕ, zero, suc, ◌+◌, ◌^◌, Bool, true, false, Option, none, some, List, [], ◌∷◌, ◌++◌, ◌&&◌, not,
  ltb, leb, ◌==◌, if◌then◌else◌, length, replicate,
}
use segmentor.Common.Int.{ℤ, pos}
use segmentor.Common.Bytes.{Bytes}
use segmentor.Error.{Result, ok, err, ◌>>=◌, ◌>>◌, guard, ok_or, checked_add, invalid_media}
use segmentor.Config.Limits.{LimitsConfig}
use segmentor.Fmp4.Write.{write_box_header, build_moof, build_traf, moof_of}
use segmentor.Media.Iter.{to_vec}
use segmentor.Media.Sample.{Sample}
use segmentor.Media.SampleIndex as Samples
use segmentor.Media.Tables.{plus}
use segmentor.Media.Track.{Track}
use segmentor.Segment.Planner.{TrackSegment}

pub record ByteRange : Type 0 where
  pub offset : ℕ
  pub length : ℕ

unfoldable pub range_end : ByteRange → Option ℕ
range_end r = checked_add r.offset r.length

unfoldable pub ends_at : Option ℕ → ℕ → Bool
ends_at none offset = false
ends_at (some end) offset = end == offset

abbrev pub range_of_sample : Sample → ByteRange
range_of_sample s = record { offset = s.offset; length = s.size }

-- The ranges from `previous` on, which is the last one so far.
unfoldable pub coalesce_from : ByteRange → List Sample → Result (List ByteRange)
unfolding range_end ends_at
coalesce_from previous [] = ok (previous ∷ [])
coalesce_from previous (s ∷ ss) =
    if ends_at (range_end previous) s.offset
    then (do
      length ←
          ok_or (checked_add previous.length s.size) (invalid_media "sample range size overflow")
      coalesce_from (record { offset = previous.offset; length = length }) ss)
    else (do rest ← coalesce_from (range_of_sample s) ss; ok (previous ∷ rest))

unfoldable pub coalesced_ranges : List Sample → Result (List ByteRange)
unfolding coalesce_from
coalesced_ranges [] = ok []
coalesced_ranges (s ∷ ss) = coalesce_from (range_of_sample s) ss

-- `try_fold(total, ..)` on the sizes
unfoldable pub payload_from : ℕ → List Sample → Result ℕ
payload_from total [] = ok total
payload_from total (s ∷ ss) = do
  sum ← ok_or (checked_add total s.size) (invalid_media "fragment payload size overflow")
  payload_from sum ss

pub record PreparedSegment : Type 0 where
  pub header : Bytes
  pub ranges : List ByteRange
  pub content_length : ℕ

abbrev pub data_offset_of : ℕ → Result ℕ
data_offset_of moof_length = do
  data_offset ← plus moof_length 8
  guard (ltb data_offset (2 ^ 31)) (invalid_media "fragment header is too large")
  ok data_offset

-- The segment of the `moof`, whose media data has `payload_len` bytes.
unfoldable pub finish : Bytes → ℕ → Result (List ByteRange) → Result PreparedSegment
unfolding write_box_header
finish moof payload_len ranges = do
  mdat_size ← plus payload_len 8
  mdat ← write_box_header mdat_size (b'm' ∷ b'd' ∷ b'a' ∷ b't' ∷ [])
  content_length ←
      ok_or (checked_add (length (moof ++ mdat)) payload_len)
        (invalid_media "fragment size overflow")
  found ← ranges
  ok (record { header = moof ++ mdat; ranges = found; content_length = content_length })

unfoldable pub prepare_samples :
    Track → TrackSegment → ℕ → LimitsConfig → List Sample → Result PreparedSegment
unfolding build_moof payload_from coalesced_ranges finish
prepare_samples track segment sequence_number limits samples = do
  guard (not (length samples == 0)) (invalid_media "segment contains no samples")
  provisional ←
      build_moof track.id track.kind samples segment.decode_time sequence_number (pos 0) [] []
  data_offset ← data_offset_of (length provisional)
  moof ←
      build_moof track.id track.kind samples segment.decode_time sequence_number (pos data_offset)
        [] []
  payload_len ← payload_from 0 samples
  guard (leb payload_len limits.max_segment_bytes)
      (invalid_media "segment payload exceeds configured limit")
  _ ← ok_or (checked_add (length moof) 8) (invalid_media "fragment header size overflow")
  finish moof payload_len (coalesced_ranges samples)

-- `segment.first_sample > segment.end_sample || segment.end_sample > track.samples.len()`
abbrev pub in_track : Track → TrackSegment → Bool
in_track track segment =
    leb segment.first_sample segment.end_sample
    && leb segment.end_sample (Samples.len track.samples)

unfoldable pub prepare_media_segment :
    Track → TrackSegment → ℕ → LimitsConfig → Result PreparedSegment
unfolding to_vec prepare_samples
prepare_media_segment track segment sequence_number limits = do
  guard (in_track track segment) (invalid_media "segment sample range is invalid")
  samples ← to_vec track.samples segment.first_sample segment.end_sample
  prepare_samples track segment sequence_number limits samples

-- `source.read_range(range)` for each range, one behind the other
unfoldable pub read_ranges : (ByteRange → Result Bytes) → List ByteRange → Result Bytes
read_ranges read_range [] = ok []
read_ranges read_range (r ∷ rs) = do
  bytes ← read_range r
  rest ← read_ranges read_range rs
  ok (bytes ++ rest)

unfoldable pub write_media_segment :
    (ByteRange → Result Bytes) → Track → TrackSegment → ℕ → LimitsConfig → Result Bytes
unfolding prepare_media_segment read_ranges
write_media_segment read_range track segment sequence_number limits = do
  prepared ← prepare_media_segment track segment sequence_number limits
  payload ← read_ranges read_range prepared.ranges
  ok (prepared.header ++ payload)

-- A part of a muxed segment: its track, its segment, its samples and their size.
pub record Part : Type 0 where
  pub track : Track
  pub segment : TrackSegment
  pub samples : List Sample
  pub payload : ℕ

-- The parts with samples, from part `number` on.
unfoldable pub expand_parts : ℕ → List (Track × TrackSegment) → Result (List Part)
unfolding to_vec payload_from
expand_parts number [] = ok []
expand_parts number ((track, segment) ∷ parts) = do
  guard (in_track track segment) (invalid_media "segment sample range is invalid")
  samples ← to_vec track.samples segment.first_sample segment.end_sample
  if length samples == 0
      then (do
        guard (not (number == 0)) (invalid_media "segment contains no samples")
        expand_parts (number + 1) parts)
      else (do
        payload ← payload_from 0 samples
        rest ← expand_parts (number + 1) parts
        ok (
            record { track = track; segment = segment; samples = samples; payload = payload }
            ∷ rest))

unfoldable pub total_payload : ℕ → List Part → Result ℕ
total_payload total [] = ok total
total_payload total (p ∷ ps) = do
  sum ← ok_or (checked_add total p.payload) (invalid_media "fragment payload size overflow")
  total_payload sum ps

unfoldable pub sample_total : List Part → ℕ
sample_total [] = 0
sample_total (p ∷ ps) = length p.samples + sample_total ps

-- `expanded.iter().zip(offsets)`, each pair as its `traf`
unfoldable pub trafs : List Part → List ℕ → Result (List Bytes)
unfolding build_traf
trafs [] offsets = ok []
trafs (p ∷ ps) [] = ok []
trafs (p ∷ ps) (offset ∷ offsets) = do
  traf ← build_traf p.track.id p.track.kind p.samples p.segment.decode_time (pos offset) []
  rest ← trafs ps offsets
  ok (traf ∷ rest)

unfoldable pub data_offsets : ℕ → List Part → Result (List ℕ)
data_offsets offset [] = ok []
data_offsets offset (p ∷ ps) = do
  guard (ltb offset (2 ^ 31)) (invalid_media "fragment is too large")
  behind ← plus offset p.payload
  rest ← data_offsets behind ps
  ok (offset ∷ rest)

unfoldable pub all_ranges : List Part → Result (List ByteRange)
unfolding coalesced_ranges
all_ranges [] = ok []
all_ranges (p ∷ ps) = do
  ranges ← coalesced_ranges p.samples
  rest ← all_ranges ps
  ok (ranges ++ rest)

unfoldable pub mux_parts : ℕ → LimitsConfig → List Part → Result PreparedSegment
unfolding total_payload sample_total trafs moof_of data_offsets all_ranges finish
mux_parts sequence_number limits expanded = do
  payload_len ← total_payload 0 expanded
  guard (leb payload_len limits.max_segment_bytes)
      (invalid_media "segment payload exceeds configured limit")
  guard (leb (sample_total expanded) limits.max_samples_per_segment)
      (invalid_media "segment sample count exceeds configured limit")
  provisional ← trafs expanded (replicate (length expanded) 0)
  provisional_moof ← moof_of sequence_number [] provisional
  start ← plus (length provisional_moof) 8
  offsets ← data_offsets start expanded
  boxes ← trafs expanded offsets
  moof ← moof_of sequence_number [] boxes
  finish moof payload_len (all_ranges expanded)

unfoldable pub prepare_muxed_segment :
    List (Track × TrackSegment) → ℕ → LimitsConfig → Result PreparedSegment
unfolding expand_parts mux_parts
prepare_muxed_segment parts sequence_number limits = do
  expanded ← expand_parts 0 parts
  mux_parts sequence_number limits expanded
