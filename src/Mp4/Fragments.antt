-- ===== src/Mp4/Fragments.antt =====
-- src/mp4/fragments.rs: the samples of a track from the `moof` boxes of a fragmented file; and
-- `Fragment` of src/source/metadata.rs.
pub mod Trun
pub mod Runs
pub mod Order
use segmentor.Common.{
  ℕ, ◌+◌, Bool, true, false, Option, none, some, List, [], ◌∷◌, ltb, ◌==◌, not, if◌then◌else◌,
}
use segmentor.Common.Bytes.{Bytes}
use segmentor.Error.{
  Result, ok, err, ◌>>=◌, ◌>>◌, guard, invalid_media, invalid_media_with, unsupported,
}
use segmentor.Config.Limits.{LimitsConfig}
use segmentor.Media.Sample.{Sample}
use segmentor.Mp4.Boxes.{
  RawBox, box_payload, child_boxes, same_bytes, required_child, optional_child,
}
use segmentor.Mp4.Boxes.Reader.{
  Reader, Read, new, skip, read_u32, read_u64, unsigned, full_box, full_box_flags,
}
use segmentor.Mp4.Fragments.Trun.{
  TrackDefaults, TrackFragmentHeader, Run, State, no_defaults, read_run,
  parse_track_fragment_header,
}

pub record Fragment : Type 0 where
  pub offset : ℕ
  pub bytes : Bytes

abbrev pub named : ℕ → ℕ → ℕ → ℕ → Bytes
named a b c d = a ∷ b ∷ c ∷ d ∷ []

-- The children of one name.
unfoldable pub children_named : Bytes → List RawBox → List RawBox
children_named name [] = []
children_named name (c ∷ cs) =
    if same_bytes c.name name then c ∷ children_named name cs else children_named name cs

-- `HashMap::insert`
unfoldable pub insert_defaults :
    ℕ → TrackDefaults → List (ℕ × TrackDefaults) → List (ℕ × TrackDefaults)
insert_defaults id defaults [] = (id, defaults) ∷ []
insert_defaults id defaults ((other, kept) ∷ rows) =
    if other == id then (id, defaults) ∷ rows else (other, kept) ∷ insert_defaults id defaults rows

unfoldable pub defaults_of :
    List RawBox → List (ℕ × TrackDefaults) → Result (List (ℕ × TrackDefaults))
unfolding insert_defaults full_box unsigned skip
defaults_of [] found = ok found
defaults_of (trex ∷ rest) found = do
  (_, r1) ← full_box (new trex.payload)
  (track_id, r2) ← read_u32 r1
  r3 ← skip r2 4
  (duration, r4) ← read_u32 r3
  (size, r5) ← read_u32 r4
  (flags, _) ← read_u32 r5
  defaults_of rest
      (insert_defaults track_id (record { duration = duration; size = size; flags = flags }) found)

unfoldable pub parse_defaults : Bytes → Result (List (ℕ × TrackDefaults))
unfolding child_boxes children_named defaults_of
parse_defaults mvex = do
  children ← child_boxes mvex
  defaults_of (children_named (named b't' b'r' b'e' b'x') children) []

unfoldable pub parse_decode_time : Bytes → Result ℕ
unfolding full_box unsigned
parse_decode_time payload = do
  (version, r1) ← full_box (new payload)
  (time, _) ← (if version == 1 then read_u64 r1 else read_u32 r1)
  ok time

-- Where the samples of a `traf` start to decode.
unfoldable pub start_time : ℕ → Bool → ℕ → Option RawBox → Result ℕ
unfolding parse_decode_time
start_time track_id wanted next_decode_time none = ok next_decode_time
start_time track_id false next_decode_time (some tfdt) = ok next_decode_time
start_time track_id true next_decode_time (some tfdt) = do
  start ← parse_decode_time tfdt.payload
  guard (not (ltb start next_decode_time)) (
      invalid_media_with "track {}: a fragment starts before the previous one ended"
        (track_id ∷ []))
  ok start

-- The `trun` boxes of one `traf`, each read from where the one before it ended.
unfoldable pub read_runs : Run → ℕ → List RawBox → State → Result State
unfolding read_run
read_runs run max_samples [] st = ok st
read_runs run max_samples (trun ∷ rest) st = do
  st' ← read_run run trun.payload max_samples st
  read_runs run max_samples rest st'

-- Where the data of a `traf` starts.
unfoldable pub base_of : TrackFragmentHeader → ℕ → ℕ → ℕ
base_of header moof_offset previous_end = elim header.base_data_offset [
  | some base ↦ base
  | none ↦ if header.default_base_is_moof then moof_offset else previous_end
]

-- The samples found so far, where the track's next sample decodes, and where the data of the
-- previous `traf` ended.
pub record Found : Type 0 where
  pub samples : List Sample
  pub next_decode_time : ℕ
  pub previous_end : ℕ

-- The arguments of `track_samples` that do not change.
pub record Wanted : Type 0 where
  pub track_id : ℕ
  pub defaults : TrackDefaults
  pub source_len : ℕ
  pub max_samples : ℕ

abbrev pub run_of : Wanted → TrackFragmentHeader → Bool → ℕ → Run
run_of w header wanted base = record {
  header = header;
  defaults = if wanted then w.defaults else no_defaults;
  base = base;
  source_len = w.source_len;
  keep = wanted;
}

unfoldable pub read_traf : Wanted → ℕ → RawBox → Found → Result Found
unfolding required_child optional_child parse_track_fragment_header start_time base_of child_boxes
    children_named read_runs
read_traf w moof_offset traf f = do
  tfhd ← required_child traf.payload (named b't' b'f' b'h' b'd')
  header ← parse_track_fragment_header tfhd.payload
  let base = base_of header moof_offset f.previous_end
  let wanted = header.track_id == w.track_id
  tfdt ← optional_child traf.payload (named b't' b'f' b'd' b't')
  start ← start_time w.track_id wanted f.next_decode_time tfdt
  children ← child_boxes traf.payload
  st ←
      read_runs (run_of w header wanted base) w.max_samples
        (children_named (named b't' b'r' b'u' b'n') children)
        (record { samples = f.samples; decode_time = start; cursor = base })
  ok (record {
    samples = st.samples;
    next_decode_time = if wanted then st.decode_time else f.next_decode_time;
    previous_end = st.cursor;
  })

unfoldable pub read_trafs : Wanted → ℕ → List RawBox → Found → Result Found
unfolding read_traf
read_trafs w moof_offset [] f = ok f
read_trafs w moof_offset (traf ∷ rest) f = do
  f' ← read_traf w moof_offset traf f
  read_trafs w moof_offset rest f'

unfoldable pub read_fragments : Wanted → List Fragment → Found → Result Found
unfolding box_payload child_boxes children_named read_trafs
read_fragments w [] f = ok f
read_fragments w (fragment ∷ rest) f = do
  moof ← box_payload fragment.bytes 0
  guard (same_bytes moof.name (named b'm' b'o' b'o' b'f'))
      (invalid_media "fragment is not a moof box")
  children ← child_boxes moof.payload
  f' ←
      read_trafs w fragment.offset (children_named (named b't' b'r' b'a' b'f') children)
        (record f { previous_end = fragment.offset })
  read_fragments w rest f'

abbrev pub wanted_of : ℕ → TrackDefaults → ℕ → LimitsConfig → Wanted
wanted_of track_id defaults source_len limits = record {
  track_id = track_id;
  defaults = defaults;
  source_len = source_len;
  max_samples = limits.max_samples_per_track;
}

unfoldable pub track_samples :
    List Fragment → ℕ → TrackDefaults → ℕ → LimitsConfig → Result (List Sample)
unfolding read_fragments
track_samples fragments track_id defaults source_len limits = do
  f ←
      read_fragments (wanted_of track_id defaults source_len limits) fragments
        (record { samples = []; next_decode_time = 0; previous_end = 0 })
  ok f.samples

unfoldable pub reject_mixed : ℕ → ℕ → Result (Unit {0})
reject_mixed track_id samples_in_moov =
    if samples_in_moov == 0
    then ok tt
    else err (
        unsupported "track {}: samples in moov as well as in fragments are not supported"
          (track_id ∷ []))
