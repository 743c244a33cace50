-- ===== src/Http/Range/Bounds.antt =====
-- What `requested_range` of src/http/range.rs returns.
use segmentor.Common.{
  ℕ, ◌≤◌, ◌<◌, ◌+◌, ◌≡◌, Bool, Option, none, some, arith, true, false, leb, ltb, ◌==◌, ◌||◌,
  if-holds, option-holds, Bool-cases, inl, inr,
}
use mathlib.Core.Path.{subst}
use segmentor.Common.Bytes.{Bytes}
use segmentor.Error.{u64_mod}
use segmentor.Http.Range.{
  ByteInterval, Requested, whole, part, unsatisfiable, suffix_range, end_before, bounds_of,
  checked_range, range_of_text, requested_range, split_once, has_byte, is_text, strip_prefix,
  bytes_unit, parse_u64, is_empty_text,
}

-- An interval of some bytes inside `total` of them.
abbrev pub IsInside : ℕ → ByteInterval → Type 0
IsInside total i = (i.start < i.end) × (i.end ≤ total)

abbrev PartIsInside : ℕ → Requested → Type 0
PartIsInside total whole = Unit {0}
PartIsInside total unsatisfiable = Unit {0}
PartIsInside total (part i) = IsInside total i

-- An end, and a pair's end, within `total`.
abbrev EndWithin : ℕ → Option ℕ → Type 0
EndWithin total none = Unit {0}
EndWithin total (some end) = end ≤ total

abbrev PairWithin : ℕ → Option (ℕ × ℕ) → Type 0
PairWithin total none = Unit {0}
PairWithin total (some p) = p.1 ≤ total

suffix_range-PairWithin : (total : ℕ) (o : Option ℕ) → PairWithin total (suffix_range total o)
unfolding suffix_range
suffix_range-PairWithin total none = tt
suffix_range-PairWithin total (some n) =
    if-holds (PairWithin total) (n == 0 || total == 0) tt (omega arith)

end_before-EndWithin : (total : ℕ) (text : Bytes) → EndWithin total (end_before total text)
unfolding end_before parse_u64
end_before-EndWithin total text = if-holds (EndWithin total) (is_empty_text text) (omega arith) (
    option-holds (EndWithin total) (parse_u64 text) tt
      λ last. if-holds (EndWithin total) (ltb (last + 1) u64_mod) (omega arith) tt)

with_start :
    (total first : ℕ) (o : Option ℕ)
    → EndWithin total o
    → PairWithin total (elim o [ none ↦ none | some last ↦ some (first, last) ])
with_start total first none h = tt
with_start total first (some last) h = h

bounds_of-PairWithin :
    (total : ℕ) (start end : Bytes) → PairWithin total (bounds_of total start end)
unfolding bounds_of parse_u64
bounds_of-PairWithin total start end =
    if-holds (PairWithin total) (is_empty_text start)
      (suffix_range-PairWithin total (parse_u64 end))
      (option-holds (PairWithin total) (parse_u64 start) tt
        λ first. with_start total first (end_before total end) (end_before-EndWithin total end))

checked_range-PartIsInside :
    (total : ℕ) (o : Option (ℕ × ℕ))
    → PairWithin total o
    → PartIsInside total (checked_range total o)
unfolding checked_range
checked_range-PartIsInside total none h = tt
checked_range-PartIsInside total (some (start, end)) h =
    elim (Bool-cases (leb end start || leb total start)) [
      | inl e ↦ rw e tt
      | inr e ↦ rw e (ground arith)
    ]

range_of_text-PartIsInside :
    (total : ℕ) (o : Option Bytes) → PartIsInside total (range_of_text total o)
unfolding range_of_text
range_of_text-PartIsInside total none = tt
range_of_text-PartIsInside total (some text) =
    if-holds (PartIsInside total) (has_byte b',' text) tt (
      option-holds (PartIsInside total) (split_once b'-' text) tt λ p.
        checked_range-PartIsInside total (bounds_of total p.0 p.1)
          (bounds_of-PairWithin total p.0 p.1))

requested_range-PartIsInside :
    (value : Option Bytes) (is_stale : Bool) (total : ℕ)
    → PartIsInside total (requested_range value is_stale total)
unfolding requested_range
requested_range-PartIsInside none is_stale total = tt
requested_range-PartIsInside (some value) true total = tt
requested_range-PartIsInside (some value) false total =
    if-holds (PartIsInside total) (is_text value)
      (range_of_text-PartIsInside total (strip_prefix bytes_unit value)) tt

-- A part that a Range header asks for, where the header is accepted, begins before its end and ends
-- inside the representation.
pub requested_range-IsInside :
    (value : Option Bytes) (is_stale : Bool) (total : ℕ) (i : ByteInterval)
    → requested_range value is_stale total ≡ part i
    → IsInside total i
requested_range-IsInside value is_stale total i e =
    subst (PartIsInside total) e (requested_range-PartIsInside value is_stale total)
