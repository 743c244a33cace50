-- ===== src/Http/Range.antt =====
-- src/http/range.rs: byte intervals, and the `Range` header. A header's value is its bytes; whether
-- the `If-Range` header is there and differs from the entity tag is an argument.
pub mod Bounds
use segmentor.Common.{
  ℕ, zero, suc, ◌+◌, ◌-◌, ◌*◌, ◌^◌, Bool, true, false, Option, none, some, List, [], ◌∷◌, ◌&&◌,
  ◌||◌, not, ltb, leb, ◌==◌, if◌then◌else◌, length, drop, take, min, max,
}
use segmentor.Common.Bytes.{Bytes}
use segmentor.Error.{u64_mod}

pub record ByteInterval : Type 0 where
  pub start : ℕ
  pub end : ℕ

unfoldable pub overlap : ByteInterval → ℕ → ℕ → Option ByteInterval
overlap i start end =
    if ltb (max i.start start) (min i.end end)
    then some (record { start = max i.start start; end = min i.end end })
    else none

-- `Result<Option<ByteInterval>, ()>`
pub data Requested : Type 0 where
  whole : Requested
  part : ByteInterval → Requested
  unsatisfiable : Requested

-- `HeaderValue::to_str`: visible ASCII, and tabs.
unfoldable pub is_text : Bytes → Bool
is_text [] = true
is_text (b ∷ bs) = (b == 9 || (leb 32 b && ltb b 127)) && is_text bs

unfoldable pub strip_prefix : Bytes → Bytes → Option Bytes
strip_prefix [] text = some text
strip_prefix (p ∷ ps) [] = none
strip_prefix (p ∷ ps) (b ∷ bs) = if p == b then strip_prefix ps bs else none

unfoldable pub has_byte : ℕ → Bytes → Bool
has_byte c [] = false
has_byte c (b ∷ bs) = if b == c then true else has_byte c bs

-- `str::split_once`
unfoldable pub split_once : ℕ → Bytes → Option (Bytes × Bytes)
split_once c [] = none
split_once c (b ∷ bs) =
    if b == c
    then some ([], bs)
    else elim (split_once c bs) [ none ↦ none | some p ↦ some (b ∷ p.0, p.1) ]

-- `str::parse::<u64>` on the digits that are left; `value` is what the ones before them give.
unfoldable pub parse_digits : ℕ → Bytes → Option ℕ
parse_digits value [] = some value
parse_digits value (b ∷ bs) =
    if leb b'0' b && leb b b'9' && ltb (value * 10 + (b - b'0')) u64_mod
    then parse_digits (value * 10 + (b - b'0')) bs
    else none

abbrev pub after_sign : Bytes → Bytes
after_sign [] = []
after_sign (b ∷ bs) = if b == b'+' then bs else b ∷ bs

abbrev pub is_empty_text : Bytes → Bool
is_empty_text [] = true
is_empty_text (b ∷ bs) = false

unfoldable pub parse_u64 : Bytes → Option ℕ
unfolding parse_digits
parse_u64 text = if is_empty_text (after_sign text) then none else parse_digits 0 (after_sign text)

-- A range without a start is the last `suffix` bytes.
unfoldable pub suffix_range : ℕ → Option ℕ → Option (ℕ × ℕ)
suffix_range total none = none
suffix_range total (some suffix) =
    if suffix == 0 || total == 0 then none else some (total - suffix, total)

-- The end behind the last byte asked for.
unfoldable pub end_before : ℕ → Bytes → Option ℕ
unfolding parse_u64
end_before total end = if is_empty_text end then some total else elim (parse_u64 end) [
  | none ↦ none
  | some last ↦ if ltb (last + 1) u64_mod then some (min (last + 1) total) else none
]

unfoldable pub bounds_of : ℕ → Bytes → Bytes → Option (ℕ × ℕ)
unfolding suffix_range parse_u64 end_before
bounds_of total start end =
    if is_empty_text start then suffix_range total (parse_u64 end) else elim (parse_u64 start) [
      | none ↦ none
      | some first ↦ elim (end_before total end) [ none ↦ none | some last ↦ some (first, last) ]
    ]

unfoldable pub checked_range : ℕ → Option (ℕ × ℕ) → Requested
checked_range total none = unsatisfiable
checked_range total (some (start, end)) =
    if leb end start || leb total start
    then unsatisfiable
    else part (record { start = start; end = end })

-- The range of a text without its unit.
unfoldable pub range_of_text : ℕ → Option Bytes → Requested
unfolding has_byte split_once bounds_of checked_range
range_of_text total none = unsatisfiable
range_of_text total (some text) =
    if has_byte b',' text then unsatisfiable else elim (split_once b'-' text) [
      | none ↦ unsatisfiable
      | some p ↦ checked_range total (bounds_of total p.0 p.1)
    ]

abbrev pub bytes_unit : Bytes
bytes_unit = b'b' ∷ b'y' ∷ b't' ∷ b'e' ∷ b's' ∷ b'=' ∷ []

unfoldable pub requested_range : Option Bytes → Bool → ℕ → Requested
unfolding is_text strip_prefix range_of_text
requested_range none is_stale total = whole
requested_range (some value) is_stale total =
    if is_stale
    then whole
    else if is_text value
    then range_of_text total (strip_prefix bytes_unit value)
    else unsatisfiable
