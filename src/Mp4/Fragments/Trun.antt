-- ===== src/Mp4/Fragments/Trun.antt =====
-- `tfhd` and `trun` boxes: `parse_track_fragment_header` and `Run::read` of src/mp4/fragments.rs.
use segmentor.Common.{
  ℕ, zero, suc, ◌+◌, ◌*◌, ◌/◌, ◌%◌, ◌^◌, Bool, true, false, Option, none, some, List, [], ◌∷◌, ◌++◌,
  ltb, leb, ◌==◌, not, ◌&&◌, if◌then◌else◌, length,
}
use segmentor.Common.Int.{ℤ, pos, ◌+ℤ◌}
use segmentor.Common.Bytes.{Bytes}
use segmentor.Error.{
  Result, ok, ◌>>=◌, ◌>>◌, guard, ok_or, checked_add, checked_mul, saturating_add, u64_mod,
  invalid_media,
}
use segmentor.Media.Sample.{Sample}
use segmentor.Media.SampleIndex.{to_u64}
use segmentor.Mp4.Boxes.Reader.{
  Reader, Read, new, remaining, skip, read_u32, read_u64, read_i32, unsigned, full_box_flags,
}

pub record TrackDefaults : Type 0 where
  pub duration : ℕ
  pub size : ℕ
  pub flags : ℕ

-- `TrackDefaults::default()`
abbrev pub no_defaults : TrackDefaults
no_defaults = record { duration = 0; size = 0; flags = 0 }

pub record TrackFragmentHeader : Type 0 where
  pub track_id : ℕ
  pub base_data_offset : Option ℕ
  pub default_base_is_moof : Bool
  pub default_duration : Option ℕ
  pub default_size : Option ℕ
  pub default_flags : Option ℕ

-- `flags & flag != 0`, where `flag` is one bit.
unfoldable pub has_flag : ℕ → ℕ → Bool
has_flag flags flag = not (flags / flag % 2 == 0)

-- `present.then(|| read()).transpose()`
abbrev pub read_if {ℓ} : {A : Type ℓ} → Bool → (Reader → Read A) → Reader → Read (Option A)
read_if false read r = ok (none, r)
read_if true read r = do (value, r') ← read r; ok (some value, r')

unfoldable pub parse_track_fragment_header : Bytes → Result TrackFragmentHeader
unfolding has_flag full_box_flags unsigned skip
parse_track_fragment_header payload = do
  ((_, flags), r1) ← full_box_flags (new payload)
  (track_id, r2) ← read_u32 r1
  (base_data_offset, r3) ← read_if (has_flag flags 0x1) read_u64 r2
  r4 ← (if has_flag flags 0x2 then skip r3 4 else ok r3)
  (default_duration, r5) ← read_if (has_flag flags 0x8) read_u32 r4
  (default_size, r6) ← read_if (has_flag flags 0x10) read_u32 r5
  (default_flags, _) ← read_if (has_flag flags 0x20) read_u32 r6
  ok (record {
    track_id = track_id;
    base_data_offset = base_data_offset;
    default_base_is_moof = has_flag flags 0x20000;
    default_duration = default_duration;
    default_size = default_size;
    default_flags = default_flags;
  })

pub record Run : Type 0 where
  pub header : TrackFragmentHeader
  pub defaults : TrackDefaults
  pub base : ℕ
  pub source_len : ℕ
  pub keep : Bool

-- The samples found so far, the next decode time, and where the data of the next sample starts.
pub record State : Type 0 where
  pub samples : List Sample
  pub decode_time : ℕ
  pub cursor : ℕ

-- `unwrap_or`
abbrev pub or_default {ℓ} : {A : Type ℓ} → Option A → A → A
or_default none otherwise = otherwise
or_default (some a) otherwise = a

-- What a `trun` says of all of its samples.
pub record RunFields : Type 0 where
  pub version : ℕ
  pub flags : ℕ
  pub first_flags : Option ℕ
  pub default_duration : ℕ
  pub default_size : ℕ
  pub default_flags : ℕ

-- What a `trun` says of one sample.
pub record RunEntry : Type 0 where
  pub duration : ℕ
  pub size : ℕ
  pub flags : ℕ
  pub composition_offset : ℤ

abbrev pub read_or : Bool → ℕ → Reader → Read ℕ
read_or present otherwise r = if present then read_u32 r else ok (otherwise, r)

-- The flags of a sample that has none of its own.
unfoldable pub unlisted_flags : RunFields → Bool → ℕ
unlisted_flags f is_first =
    if is_first then or_default f.first_flags f.default_flags else f.default_flags

unfoldable pub read_composition : ℕ → Reader → Read ℤ
unfolding unsigned read_i32
read_composition version r =
    if version == 0
    then (do
      (offset, r') ← read_u32 r
      guard (ltb offset (2 ^ 31)) (invalid_media "trun composition offset is out of range")
      ok (pos offset, r'))
    else read_i32 r

unfoldable pub read_entry : RunFields → Bool → Reader → Read RunEntry
unfolding unsigned has_flag unlisted_flags read_composition
read_entry f is_first r = do
  (duration, r1) ← read_or (has_flag f.flags 0x100) f.default_duration r
  (size, r2) ← read_or (has_flag f.flags 0x200) f.default_size r1
  (flags, r3) ← read_or (has_flag f.flags 0x400) (unlisted_flags f is_first) r2
  (composition_offset, r4) ←
      (if has_flag f.flags 0x800 then read_composition f.version r3 else ok (pos 0, r3))
  ok (
    record {
      duration = duration;
      size = size;
      flags = flags;
      composition_offset = composition_offset;
    },
    r4,
  )

-- The state behind one sample.
unfoldable pub add_sample : Run → RunEntry → State → Result State
unfolding has_flag
add_sample run e st = do
  end ← ok_or (checked_add st.cursor e.size) (invalid_media "sample byte range overflow")
  guard (not (run.keep && ltb run.source_len end))
      (invalid_media "sample byte range exceeds source length")
  next ← ok_or (checked_add st.decode_time e.duration) (invalid_media "decode timestamp overflow")
  let sample : Sample = record {
    offset = st.cursor;
    size = e.size;
    decode_time = st.decode_time;
    duration = e.duration;
    composition_offset = e.composition_offset;
    is_sync = not (has_flag e.flags 0x10000);
  }
  ok (record {
    samples = if run.keep then st.samples ++ (sample ∷ []) else st.samples;
    decode_time = next;
    cursor = end;
  })

-- `count` samples more.
unfoldable pub read_entries : Run → RunFields → ℕ → Bool → Reader → State → Result State
unfolding read_entry add_sample
read_entries run f zero is_first r st = ok st
read_entries run f (suc count) is_first r st = do
  (e, r') ← read_entry f is_first r
  st' ← add_sample run e st
  read_entries run f count false r' st'

unfoldable pub entry_size : ℕ → ℕ
unfolding has_flag
entry_size flags =
    4
    * ((if has_flag flags 0x100 then 1 else 0)
        + (if has_flag flags 0x200 then 1 else 0)
        + (if has_flag flags 0x400 then 1 else 0)
        + (if has_flag flags 0x800 then 1 else 0))

-- `base.checked_add_signed(offset)`, or the cursor.
unfoldable pub data_start : Run → ℕ → Option ℤ → Result ℕ
data_start run cursor none = ok cursor
data_start run cursor (some data_offset) =
    ok_or (to_u64 (pos run.base +ℤ data_offset)) (invalid_media "trun data offset is out of range")

abbrev pub fields_of : Run → ℕ → ℕ → Option ℕ → RunFields
fields_of run version flags first_flags = record {
  version = version;
  flags = flags;
  first_flags = first_flags;
  default_duration = or_default run.header.default_duration run.defaults.duration;
  default_size = or_default run.header.default_size run.defaults.size;
  default_flags = or_default run.header.default_flags run.defaults.flags;
}

unfoldable pub read_run : Run → Bytes → ℕ → State → Result State
unfolding has_flag full_box_flags unsigned read_i32 data_start entry_size read_entries
read_run run payload max_samples st = do
  ((version, flags), r1) ← full_box_flags (new payload)
  (count, r2) ← read_u32 r1
  (data_offset, r3) ← read_if (has_flag flags 0x1) read_i32 r2
  offset ← data_start run st.cursor data_offset
  (first_flags, r4) ← read_if (has_flag flags 0x4) read_u32 r3
  guard (ltb (count * entry_size flags) u64_mod && leb (count * entry_size flags) (remaining r4))
      (invalid_media "trun sample count exceeds its box")
  guard (not (run.keep && ltb max_samples (saturating_add (length st.samples) count)))
      (invalid_media "sample count exceeds configured limit")
  let default_size = or_default run.header.default_size run.defaults.size
  if not run.keep && not (has_flag flags 0x200)
      then (do
        total ← ok_or (checked_mul count default_size) (invalid_media "trun data extent overflows")
        end ← ok_or (checked_add offset total) (invalid_media "trun data extent overflows")
        ok (record { samples = st.samples; decode_time = st.decode_time; cursor = end }))
      else read_entries run (fields_of run version flags first_flags) count true r4
          (record { samples = st.samples; decode_time = st.decode_time; cursor = offset })
