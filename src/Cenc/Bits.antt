-- ===== src/Cenc/Bits.antt =====
-- src/cenc/bits.rs: the RBSP of a NAL unit, and the reader of its bits. A reader's method returns its
-- value and the reader behind it.
pub mod Codes
pub mod Range
pub mod Escape
use segmentor.Common.{
  ℕ, zero, suc, ◌+◌, ◌-◌, ◌*◌, ◌/◌, ◌%◌, ◌^◌, Bool, true, false, Option, none, some, List, [], ◌∷◌,
  ◌++◌, ◌&&◌, not, ltb, leb, ◌==◌, if◌then◌else◌, length, get_elem?, take, min,
}
use segmentor.Common.Bytes.{Bytes}
use segmentor.Common.Int.{ℤ, pos, sub_ℕ}
use segmentor.Error.{Result, ok, err, Error, invalid_media, ◌>>=◌, ok_or, checked_add}

pub record Rbsp : Type 0 where
  pub bytes : Bytes
  pub origin : List ℕ

abbrev pub pushed : ℕ → ℕ → Rbsp → Rbsp
pushed byte index rest = record { bytes = byte ∷ rest.bytes; origin = index ∷ rest.origin }

-- The zeros behind a byte: `run` is a `u8`.
abbrev pub zeros_behind : ℕ → ℕ → ℕ
zeros_behind run byte = if byte == 0 then min (run + 1) 255 else 0

-- The loop of `Rbsp::new`, over the bytes within the limit.
unfoldable pub unescape : ℕ → ℕ → Bytes → Rbsp
unescape run index [] = record { bytes = []; origin = [] }
unescape run index (byte ∷ nal) = elim (leb 2 run && (byte == 3)) [
  | true ↦ unescape 0 (index + 1) nal
  | false ↦ pushed byte index (unescape (zeros_behind run byte) (index + 1) nal)
]

unfoldable pub rbsp_new : Bytes → ℕ → Rbsp
unfolding unescape
rbsp_new nal limit = unescape 0 0 (take limit nal)

unfoldable pub nal_bytes_covering : Rbsp → ℕ → Option ℕ
nal_bytes_covering r bits =
    if bits == 0
    then some 0
    else elim (get_elem? r.origin ((bits - 1) / 8)) [ none ↦ none | some index ↦ some (index + 1) ]

pub record BitReader : Type 0 where
  pub source : Bytes
  pub bit_position : ℕ

abbrev pub truncated : Error
truncated = invalid_media "a slice or parameter set is truncated"

abbrev pub moved_to : ℕ → BitReader → BitReader
moved_to bit r = record r { bit_position = bit }

-- `bit`
unfoldable pub read_bit : BitReader → Result (Bool × BitReader)
read_bit r = ok_or (get_elem? r.source (r.bit_position / 8)) truncated >>= λ byte.
    ok (byte / 2 ^ (7 - r.bit_position % 8) % 2 == 1, moved_to (r.bit_position + 1) r)

-- The loop of `bits`.
unfoldable pub bits_loop : ℕ → ℕ → BitReader → Result (ℕ × BitReader)
unfolding read_bit
bits_loop zero value r = ok (value, r)
bits_loop (suc count) value r =
    read_bit r >>= λ p. bits_loop count (value * 2 + (if p.0 then 1 else 0)) p.1

unfoldable pub read_bits : ℕ → BitReader → Result (ℕ × BitReader)
unfolding bits_loop
read_bits count r =
    if ltb 32 count
    then err (invalid_media "a field is wider than 32 bits")
    else (bits_loop count 0 r >>= λ p. if ltb p.0 (2 ^ 32) then ok p else err truncated)

unfoldable pub skip_bits : ℕ → BitReader → Result BitReader
skip_bits count r = ok_or (checked_add r.bit_position count) truncated >>= λ end.
    if ltb (length r.source * 8) end then err truncated else ok (moved_to end r)

-- The zeros in front of an exp-Golomb code: `left` more of them fit the limit of 31.
unfoldable pub leading_zeros : ℕ → ℕ → BitReader → Result (ℕ × BitReader)
unfolding read_bit
leading_zeros zero run r = read_bit r >>= λ p.
    if p.0 then ok (run, p.1) else err (invalid_media "an exp-Golomb code is too long")
leading_zeros (suc left) run r =
    read_bit r >>= λ p. elim p.0 [ true ↦ ok (run, p.1) | false ↦ leading_zeros left (run + 1) p.1 ]

-- `u32::try_from` of a code's value.
abbrev pub as_code : ℕ → BitReader → Result (ℕ × BitReader)
as_code value r = if ltb value (2 ^ 32) then ok (value, r) else err truncated

unfoldable pub read_ue : BitReader → Result (ℕ × BitReader)
unfolding leading_zeros read_bits
read_ue r = leading_zeros 31 0 r >>= λ run.
    read_bits run.0 run.1 >>= λ suffix. as_code (2 ^ run.0 - 1 + suffix.0) suffix.1

abbrev pub signed_code : ℕ → ℤ
signed_code code = if code % 2 == 1 then pos ((code + 1) / 2) else sub_ℕ 0 ((code + 1) / 2)

unfoldable pub read_se : BitReader → Result (ℤ × BitReader)
unfolding read_ue
read_se r = read_ue r >>= λ code. ok (signed_code code.0, code.1)
