-- ===== src/Media/SampleIndex.antt =====
-- `SampleIndex` of src/media/samples.rs: a window over shared tables, its times moved by a shift.
use segmentor.Common.{
  ℕ, zero, suc, ◌+◌, ◌-◌, Bool, true, false, Option, none, some, List, [], ◌∷◌, ◌&&◌, ltb, leb,
  ◌==◌, if◌then◌else◌, min, max, map, String,
}
use segmentor.Common.Int.{ℤ, pos, negsuc, ◌+ℤ◌, ◌-ℤ◌}
use segmentor.Error.{Result, ok, err, panic, ◌>>=◌, expect, u64_mod, invalid_media}
use segmentor.Media.Sample.{Sample, partition_point, index, sum}
use segmentor.Media.Tables as Table
use segmentor.Media.Tables.{Tables, plus, range_of}

pub record SampleIndex : Type 0 where
  pub tables : Tables
  pub start : ℕ
  pub end : ℕ
  pub shift : ℤ

unfoldable pub new : Tables → SampleIndex
new t = record { tables = t; start = 0; end = Table.len t; shift = pos 0 }

abbrev pub len : SampleIndex → ℕ
len s = s.end - s.start

abbrev pub is_empty : SampleIndex → Bool
is_empty s = s.start == s.end

-- The position in the tables of the window's sample `i`.
unfoldable pub absolute : SampleIndex → ℕ → Result ℕ
absolute s i = if ltb i (len s) then ok (s.start + i) else panic

-- `u64::try_from(..).expect(..)`
abbrev pub to_u64 : ℤ → Option ℕ
to_u64 (pos n) = if ltb n u64_mod then some n else none
to_u64 (negsuc n) = none

unfoldable pub moved : SampleIndex → ℕ → Result ℕ
moved s time = expect (to_u64 (pos time +ℤ s.shift))

-- The sample at a position of the tables.
unfoldable pub sample_at : SampleIndex → ℕ → Result Sample
unfolding moved Table.offset Table.decode_time Table.duration Table.composition_offset Table.is_sync
sample_at s i = do
  offset ← Table.offset s.tables i
  size ← index s.tables.sizes i
  stored ← Table.decode_time s.tables i
  time ← moved s stored
  duration ← Table.duration s.tables i
  composition ← Table.composition_offset s.tables i
  ok (record {
    offset = offset;
    size = size;
    decode_time = time;
    duration = duration;
    composition_offset = composition;
    is_sync = Table.is_sync s.tables i;
  })

unfoldable pub get : SampleIndex → ℕ → Result Sample
unfolding absolute sample_at
get s i = do a ← absolute s i; sample_at s a

unfoldable pub first : SampleIndex → Result (Option Sample)
unfolding get
first s = if is_empty s then ok none else (do sample ← get s 0; ok (some sample))

unfoldable pub last : SampleIndex → Result (Option Sample)
unfolding get
last s = elim (len s) [ zero ↦ ok none | suc n ↦ (do sample ← get s n; ok (some sample)) ]

unfoldable pub size : SampleIndex → ℕ → Result ℕ
unfolding absolute
size s i = do a ← absolute s i; index s.tables.sizes a

unfoldable pub decode_time : SampleIndex → ℕ → Result ℕ
unfolding absolute moved Table.decode_time
decode_time s i = do a ← absolute s i; stored ← Table.decode_time s.tables a; moved s stored

unfoldable pub partition_by_decode_time : SampleIndex → ℕ → Result ℕ
unfolding Table.partition_by_decode_time
partition_by_decode_time s time = do
  found ← Table.partition_by_decode_time s.tables (pos time -ℤ s.shift)
  ok (min (max found s.start) s.end - s.start)

abbrev range_from : ℕ → ℕ → List ℕ
range_from from zero = []
range_from from (suc n) = from ∷ range_from (from + 1) n

-- `sync_bounds`: the part of the sync list that lies in the window.
unfoldable pub sync_bounds : SampleIndex → List ℕ → ℕ × ℕ
sync_bounds s sync =
    (partition_point (λ i. ltb i s.start) sync, partition_point (λ i. ltb i s.end) sync)

unfoldable pub listed_indices : SampleIndex → Option (List ℕ) → Result (List ℕ)
unfolding sync_bounds
listed_indices s none = ok (range_from 0 (len s))
listed_indices s (some sync) = do
  let (low, high) = sync_bounds s sync
  part ← range_of sync low high
  ok (map (λ i. i - s.start) part)

unfoldable pub sync_indices : SampleIndex → Result (List ℕ)
unfolding listed_indices
sync_indices s = listed_indices s s.tables.sync

unfoldable pub is_unlisted : Option (List ℕ) → Bool
is_unlisted none = true
is_unlisted (some sync) = false

unfoldable pub every_sample_is_sync : SampleIndex → Bool
unfolding is_unlisted
every_sample_is_sync s = is_unlisted s.tables.sync

unfoldable pub nth_listed : SampleIndex → Option (List ℕ) → ℕ → Result (Option ℕ)
unfolding sync_bounds
nth_listed s none nth = ok (if ltb nth (len s) then some nth else none)
nth_listed s (some sync) nth = do
  let (low, high) = sync_bounds s sync
  if ltb (low + nth) u64_mod && ltb (low + nth) high
      then (do i ← index sync (low + nth); ok (some (i - s.start)))
      else ok none

-- The `nth` sync sample's index in this window.
unfoldable pub nth_sync : SampleIndex → ℕ → Result (Option ℕ)
unfolding nth_listed
nth_sync s nth = nth_listed s s.tables.sync nth

-- `assert!(range.start <= range.end && range.end <= self.len())`
abbrev pub in_window : SampleIndex → ℕ → ℕ → Bool
in_window s from to = leb from to && leb to (len s)

unfoldable pub payload_bytes : SampleIndex → ℕ → ℕ → Result ℕ
unfolding sum
payload_bytes s from to =
    if in_window s from to
    then (do part ← range_of s.tables.sizes (s.start + from) (s.start + to); plus 0 (sum part))
    else panic

unfoldable pub window : SampleIndex → ℕ → ℕ → Result SampleIndex
window s from to =
    if in_window s from to
    then ok (record s { start = s.start + from; end = s.start + to })
    else panic

-- The ends that `shifted` checks.
unfoldable pub shift_fits : Option Sample → Option Sample → ℤ → Bool
shift_fits (some f) (some l) delta = elim (pos f.decode_time +ℤ delta) [
  | negsuc _ ↦ false
  | pos _ ↦ elim (to_u64 (pos (l.decode_time + l.duration) +ℤ delta)) [
    | none ↦ false
    | some _ ↦ true
  ]
]
shift_fits _ _ delta = true

unfoldable pub shifted : SampleIndex → ℤ → String → Result SampleIndex
unfolding first last shift_fits
shifted s delta message = do
  f ← first s
  l ← last s
  if shift_fits f l delta
      then ok (record s { shift = s.shift +ℤ delta })
      else err (invalid_media message)
