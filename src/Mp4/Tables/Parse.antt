-- ===== src/Mp4/Tables/Parse.antt =====
-- src/mp4/tables.rs: reading the boxes of `stbl`.
use segmentor.Common.{
  ℕ, zero, suc, ◌+◌, ◌*◌, ◌/◌, ◌%◌, ◌^◌, Bool, true, false, Option, none, some, List, [], ◌∷◌, map,
  not, ◌||◌, ◌&&◌, ltb, leb, ◌==◌, if◌then◌else◌, length, slice,
}
use segmentor.Common.Int.{ℤ, pos}
use segmentor.Common.Bytes.{Bytes, from_be_bytes, be_value}
use segmentor.Error.{Result, ok, err, ◌>>=◌, ◌>>◌, guard, invalid_media, u64_mod}
use segmentor.Mp4.Boxes.{RawBox, optional_child, required_child}
use segmentor.Mp4.Boxes.Reader.{
  Reader, new, remaining, take_bytes, skip, read_u8, read_u32, unsigned, cast_signed, full_box,
  entries, chunks_of,
}

pub data SampleSizes : Type 0 where
  constant : ℕ → ℕ → SampleSizes
  table : List ℕ → SampleSizes

pub record SampleTables : Type 0 where
  pub time_to_sample : List (ℕ × ℕ)
  pub composition : Option (List (ℕ × ℤ))
  pub sync : Option (List ℕ)
  pub sample_to_chunk : List (ℕ × ℕ)
  pub sizes : SampleSizes
  pub chunk_offsets : List ℕ

-- `as_chunks::<width>().0`
abbrev pub as_chunks : ℕ → Bytes → List Bytes
as_chunks width bytes = chunks_of (length bytes / width) width bytes

unfoldable pub be_u32s : Bytes → List ℕ
unfolding chunks_of be_value
be_u32s bytes = map (λ chunk. from_be_bytes chunk) (as_chunks 4 bytes)

-- The first two `u32` of an entry.
abbrev pub two_u32s : Bytes → ℕ × ℕ
two_u32s entry = (from_be_bytes (slice entry 0 4), from_be_bytes (slice entry 4 8))

unfoldable pub pairs : Bytes → List (ℕ × ℕ)
unfolding chunks_of be_value
pairs bytes = map two_u32s (as_chunks 8 bytes)

unfoldable pub parse_runs : Bytes → Result (List (ℕ × ℕ))
unfolding full_box entries pairs
parse_runs payload = do
  (_, r1) ← full_box (new payload)
  (bytes, _) ← entries r1 8
  ok (pairs bytes)

-- Version 0 offsets are unsigned, version 1 signed.
unfoldable pub ctts_offset : ℕ → ℕ → Result ℤ
ctts_offset version offset =
    if version == 0
    then (if ltb offset (2 ^ 31)
        then ok (pos offset)
        else err (invalid_media "ctts version 0 offset is out of range"))
    else ok (cast_signed offset)

unfoldable pub ctts_runs : ℕ → List (ℕ × ℕ) → Result (List (ℕ × ℤ))
unfolding ctts_offset
ctts_runs version [] = ok []
ctts_runs version ((run, raw) ∷ rest) = do
  offset ← ctts_offset version raw
  runs ← ctts_runs version rest
  ok ((run, offset) ∷ runs)

unfoldable pub parse_ctts : Bytes → Result (List (ℕ × ℤ))
unfolding full_box entries pairs ctts_runs
parse_ctts payload = do
  (version, r1) ← full_box (new payload)
  (bytes, _) ← entries r1 8
  ctts_runs version (pairs bytes)

unfoldable pub parse_stss : Bytes → Result (List ℕ)
unfolding full_box entries be_u32s
parse_stss payload = do
  (_, r1) ← full_box (new payload)
  (bytes, _) ← entries r1 4
  ok (be_u32s bytes)

unfoldable pub parse_stsc : Bytes → Result (List (ℕ × ℕ))
unfolding full_box entries chunks_of be_value
parse_stsc payload = do
  (_, r1) ← full_box (new payload)
  (bytes, _) ← entries r1 12
  ok (map two_u32s (as_chunks 12 bytes))

unfoldable pub parse_stsz : Bytes → Result SampleSizes
unfolding full_box unsigned take_bytes be_u32s
parse_stsz payload = do
  (_, r1) ← full_box (new payload)
  (size, r2) ← read_u32 r1
  (count, r3) ← read_u32 r2
  if not (size == 0) then ok (constant size count) else (do
    guard (ltb (count * 4) u64_mod && leb (count * 4) (remaining r3))
        (invalid_media "stsz entry count exceeds its box")
    (bytes, _) ← take_bytes r3 (count * 4)
    ok (table (be_u32s bytes)))

-- Two entries per byte, the first in the high nibble.
unfoldable pub nibbles : ℕ → Reader → Result (List ℕ)
unfolding unsigned
nibbles zero r = ok []
nibbles (suc zero) r = do (byte, r1) ← read_u8 r; ok ((byte / 16) ∷ [])
nibbles (suc (suc n)) r = do
  (byte, r1) ← read_u8 r
  rest ← nibbles n r1
  ok ((byte / 16) ∷ (byte % 16) ∷ rest)

-- `count` integers of `width` bytes
unfoldable pub wide_sizes : ℕ → ℕ → Reader → Result (List ℕ)
unfolding unsigned
wide_sizes zero width r = ok []
wide_sizes (suc n) width r = do
  (size, r1) ← unsigned width r
  rest ← wide_sizes n width r1
  ok (size ∷ rest)

unfoldable pub stz2_sizes : ℕ → ℕ → Reader → Result (List ℕ)
unfolding nibbles wide_sizes
stz2_sizes field_bits count r =
    if field_bits == 4
    then nibbles count r
    else wide_sizes count (if field_bits == 8 then 1 else 2) r

unfoldable pub parse_stz2 : Bytes → Result SampleSizes
unfolding full_box skip unsigned stz2_sizes
parse_stz2 payload = do
  (_, r1) ← full_box (new payload)
  r2 ← skip r1 3
  (field_bits, r3) ← read_u8 r2
  (count, r4) ← read_u32 r3
  guard (ltb (count * field_bits) u64_mod) (invalid_media "stz2 sample count overflows")
  guard (field_bits == 4 || field_bits == 8 || field_bits == 16)
      (invalid_media "stz2 field size must be 4, 8, or 16 bits")
  guard (leb ((count * field_bits + 7) / 8) (remaining r4))
      (invalid_media "stz2 entry count exceeds its box")
  sizes ← stz2_sizes field_bits count r4
  ok (table sizes)

unfoldable pub parse_chunk_offsets : Bytes → Bool → Result (List ℕ)
unfolding full_box entries chunks_of be_value be_u32s
parse_chunk_offsets payload wide = do
  (_, r1) ← full_box (new payload)
  if wide
      then (do
        (bytes, _) ← entries r1 8
        ok (map (λ chunk. from_be_bytes chunk) (as_chunks 8 bytes)))
      else (do (bytes, _) ← entries r1 4; ok (be_u32s bytes))

-- `Option::map(parse).transpose()` on the payload of an optional child
abbrev pub parse_child {ℓ} : {A : Type ℓ} → (Bytes → Result A) → Option RawBox → Result (Option A)
parse_child parse none = ok none
parse_child parse (some child) = do a ← parse child.payload; ok (some a)

-- The first of two optional children, each with its parser.
abbrev pub parse_either {ℓ} :
    {A : Type ℓ}
    → (Bytes → Result A)
    → (Bytes → Result A)
    → Option RawBox
    → Result (Option RawBox)
    → Result A
    → Result A
parse_either one other (some child) second missing = one child.payload
parse_either one other none second missing =
    second >>= λ found. elim found [ none ↦ missing | some child ↦ other child.payload ]

abbrev pub named : ℕ → ℕ → ℕ → ℕ → Bytes
named a b c d = a ∷ b ∷ c ∷ d ∷ []

unfoldable pub parse_sample_tables : Bytes → Result SampleTables
unfolding optional_child required_child parse_chunk_offsets parse_stsz parse_stz2 parse_runs
    parse_ctts parse_stss parse_stsc
parse_sample_tables stbl = do
  stco ← optional_child stbl (named b's' b't' b'c' b'o')
  chunk_offsets ←
      parse_either (λ b. parse_chunk_offsets b false) (λ b. parse_chunk_offsets b true) stco
        (optional_child stbl (named b'c' b'o' b'6' b'4'))
        (err (invalid_media "missing stco/co64 chunk offsets"))
  stsz ← optional_child stbl (named b's' b't' b's' b'z')
  sizes ←
      parse_either parse_stsz parse_stz2 stsz (optional_child stbl (named b's' b't' b'z' b'2'))
        (err (invalid_media "missing stsz/stz2 sample sizes"))
  stts ← required_child stbl (named b's' b't' b't' b's')
  time_to_sample ← parse_runs stts.payload
  ctts ← optional_child stbl (named b'c' b't' b't' b's')
  composition ← parse_child parse_ctts ctts
  stss ← optional_child stbl (named b's' b't' b's' b's')
  sync ← parse_child parse_stss stss
  stsc ← required_child stbl (named b's' b't' b's' b'c')
  sample_to_chunk ← parse_stsc stsc.payload
  ok (record {
    time_to_sample = time_to_sample;
    composition = composition;
    sync = sync;
    sample_to_chunk = sample_to_chunk;
    sizes = sizes;
    chunk_offsets = chunk_offsets;
  })
