-- ===== src/Mp4/Boxes/Reader.antt =====
-- `Reader` of src/mp4/boxes.rs. A read returns its value and the moved reader.
use segmentor.Common.{
  ℕ, zero, suc, ◌+◌, ◌-◌, ◌*◌, List, [], ◌∷◌, ◌&&◌, ltb, leb, ◌^◌, if◌then◌else◌, length, drop,
  slice, take,
}
use segmentor.Common.Int.{ℤ, pos, negsuc}
use segmentor.Common.Bytes.{Bytes, from_be_bytes, be_value}
use segmentor.Error.{Result, ok, err, ◌>>=◌, ◌>>◌, guard, invalid_media, u64_mod}

pub record Reader : Type 0 where
  pub bytes : Bytes
  pub position : ℕ

abbrev pub new : Bytes → Reader
new bytes = record { bytes = bytes; position = 0 }

abbrev pub remaining : Reader → ℕ
remaining r = length r.bytes - r.position

abbrev pub rest : Reader → Bytes
rest r = drop r.position r.bytes

abbrev pub Read {ℓ} : Type ℓ → Type ℓ
Read A = Result (A × Reader)

-- `take`
unfoldable pub take_bytes : Reader → ℕ → Read Bytes
take_bytes r count =
    if ltb (r.position + count) u64_mod && leb (r.position + count) (length r.bytes)
    then ok
        (slice r.bytes r.position (r.position + count), record r { position = r.position + count })
    else err (invalid_media "MP4 box is truncated")

unfoldable pub skip : Reader → ℕ → Result Reader
unfolding take_bytes
skip r count = do (_, r') ← take_bytes r count; ok r'

-- A big-endian unsigned integer of `width` bytes: `u8`, `u16`, `u32` and `u64` at 1, 2, 4 and 8.
unfoldable pub unsigned : ℕ → Reader → Read ℕ
unfolding take_bytes be_value
unsigned width r = do (bytes, r') ← take_bytes r width; ok (from_be_bytes bytes, r')

abbrev pub read_u8 : Reader → Read ℕ
read_u8 = unsigned 1

abbrev pub read_u16 : Reader → Read ℕ
read_u16 = unsigned 2

abbrev pub read_u32 : Reader → Read ℕ
read_u32 = unsigned 4

abbrev pub read_u64 : Reader → Read ℕ
read_u64 = unsigned 8

-- The integer of a 32-bit two's complement pattern: `cast_signed`.
abbrev pub cast_signed : ℕ → ℤ
cast_signed w = if ltb w (2 ^ 31) then pos w else negsuc (2 ^ 32 - w - 1)

unfoldable pub read_i32 : Reader → Read ℤ
unfolding unsigned
read_i32 r = do (w, r') ← read_u32 r; ok (cast_signed w, r')

unfoldable pub full_box : Reader → Read ℕ
unfolding unsigned skip
full_box r = do (version, r1) ← read_u8 r; r2 ← skip r1 3; ok (version, r2)

unfoldable pub full_box_flags : Reader → Read (ℕ × ℕ)
unfolding unsigned take_bytes be_value
full_box_flags r = do
  (version, r1) ← read_u8 r
  (flags, r2) ← take_bytes r1 3
  ok ((version, from_be_bytes (0 ∷ flags)), r2)

unfoldable pub entry_count : Reader → ℕ → Read ℕ
unfolding unsigned
entry_count r entry_size = do
  (count, r') ← read_u32 r
  guard (ltb (count * entry_size) u64_mod && leb (count * entry_size) (remaining r'))
      (invalid_media "MP4 table entry count exceeds its box")
  ok (count, r')

unfoldable pub entries : Reader → ℕ → Read Bytes
unfolding entry_count take_bytes
entries r entry_size = do (count, r') ← entry_count r entry_size; take_bytes r' (count * entry_size)

-- `as_chunks::<width>().0`: the whole chunks; bytes that do not fill one are left out.
unfoldable pub chunks_of : ℕ → ℕ → Bytes → List Bytes
chunks_of zero width bytes = []
chunks_of (suc n) width bytes = take width bytes ∷ chunks_of n width (drop width bytes)
