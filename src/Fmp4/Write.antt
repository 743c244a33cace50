-- ===== src/Fmp4/Write.antt =====
-- The boxes that src/fmp4/fragment.rs writes. A function that appends to a vector returns here the
-- bytes that it appends.
pub mod Sizes
pub mod ReadBack
use segmentor.Common.{
  ℕ, ◌+◌, ◌-◌, ◌^◌, Bool, true, false, Option, none, some, List, [], ◌∷◌, ◌++◌, ltb, if◌then◌else◌,
  length, drop,
}
use segmentor.Common.Int.{ℤ, pos, negsuc}
use segmentor.Common.Bytes.{Bytes, to_be_bytes}
use segmentor.Error.{Result, ok, err, ◌>>=◌, ◌>>◌, guard, ok_or, checked_add, invalid_media}
use segmentor.Media.Sample.{Sample, TrackKind, audio, video}

-- `i32::to_be_bytes`: the two's complement pattern.
unfoldable pub signed_bytes : ℤ → Bytes
unfolding to_be_bytes
signed_bytes (pos n) = to_be_bytes 4 n
signed_bytes (negsuc n) = to_be_bytes 4 (2 ^ 32 - n - 1)

unfoldable pub write_full_box_fields : ℕ → ℕ → Bytes
unfolding to_be_bytes
write_full_box_fields version flags = version ∷ drop 1 (to_be_bytes 4 flags)

unfoldable pub write_box_header : ℕ → Bytes → Result Bytes
unfolding to_be_bytes
write_box_header size name =
    if ltb size (2 ^ 32)
    then ok (to_be_bytes 4 size ++ name)
    else err (invalid_media "large-size boxes are not supported")

unfoldable pub write_box : Bytes → Bytes → Result Bytes
unfolding write_box_header
write_box name payload = do
  size ← ok_or (checked_add (length payload) 8) (invalid_media "box size overflow")
  header ← write_box_header size name
  ok (header ++ payload)

abbrev pub trun_flags : ℕ
trun_flags = 0xf01

abbrev pub tfhd_default_base_is_moof : ℕ
tfhd_default_base_is_moof = 0x20000

abbrev pub sync_sample_flags : ℕ
sync_sample_flags = 0x2000000

abbrev pub non_sync_sample_flags : ℕ
non_sync_sample_flags = 0x1010000

unfoldable pub sample_flags : TrackKind → Bool → ℕ
sample_flags audio is_sync = sync_sample_flags
sample_flags video true = sync_sample_flags
sample_flags video false = non_sync_sample_flags

unfoldable pub trun_entries : TrackKind → List Sample → Bytes
unfolding sample_flags signed_bytes to_be_bytes
trun_entries kind [] = []
trun_entries kind (s ∷ ss) =
    to_be_bytes 4 s.duration
    ++ (to_be_bytes 4 s.size
        ++ (to_be_bytes 4 (sample_flags kind s.is_sync)
            ++ (signed_bytes s.composition_offset ++ trun_entries kind ss)))

abbrev pub tfhd_payload : ℕ → Bytes
tfhd_payload track_id = write_full_box_fields 0 tfhd_default_base_is_moof ++ to_be_bytes 4 track_id

abbrev pub tfdt_payload : ℕ → Bytes
tfdt_payload decode_time = write_full_box_fields 1 0 ++ to_be_bytes 8 decode_time

abbrev pub trun_payload : TrackKind → List Sample → ℤ → Bytes
trun_payload kind samples data_offset =
    write_full_box_fields 1 trun_flags
    ++ (to_be_bytes 4 (length samples) ++ (signed_bytes data_offset ++ trun_entries kind samples))

unfoldable pub build_traf : ℕ → TrackKind → List Sample → ℕ → ℤ → Bytes → Result Bytes
unfolding write_full_box_fields to_be_bytes signed_bytes trun_entries write_box
build_traf track_id kind samples decode_time data_offset extra = do
  guard (ltb (length samples) (2 ^ 32)) (invalid_media "fragment has too many samples")
  tfhd ← write_box (b't' ∷ b'f' ∷ b'h' ∷ b'd' ∷ []) (tfhd_payload track_id)
  tfdt ← write_box (b't' ∷ b'f' ∷ b'd' ∷ b't' ∷ []) (tfdt_payload decode_time)
  trun ← write_box (b't' ∷ b'r' ∷ b'u' ∷ b'n' ∷ []) (trun_payload kind samples data_offset)
  write_box (b't' ∷ b'r' ∷ b'a' ∷ b'f' ∷ []) (tfhd ++ (tfdt ++ (trun ++ extra)))

unfoldable pub concat : List Bytes → Bytes
concat [] = []
concat (b ∷ bs) = b ++ concat bs

unfoldable pub moof_of : ℕ → Bytes → List Bytes → Result Bytes
unfolding write_full_box_fields to_be_bytes write_box concat
moof_of sequence_number moof_extra trafs = do
  mfhd ←
      write_box (b'm' ∷ b'f' ∷ b'h' ∷ b'd' ∷ [])
        (write_full_box_fields 0 0 ++ to_be_bytes 4 sequence_number)
  write_box (b'm' ∷ b'o' ∷ b'o' ∷ b'f' ∷ []) (mfhd ++ (moof_extra ++ concat trafs))

unfoldable pub build_moof : ℕ → TrackKind → List Sample → ℕ → ℕ → ℤ → Bytes → Bytes → Result Bytes
unfolding build_traf moof_of
build_moof track_id kind samples decode_time sequence_number data_offset extra moof_extra = do
  traf ← build_traf track_id kind samples decode_time data_offset extra
  moof_of sequence_number moof_extra (traf ∷ [])
