-- ===== src/Mp4/Tables.antt =====
-- src/mp4/tables.rs: the sample table boxes, and the compact index that they give.
pub mod Parse
pub mod Chunks
pub mod Timing
pub mod Sync
pub mod Index
use segmentor.Common.{
  ℕ, zero, suc, ◌+◌, ◌-◌, ◌*◌, ◌^◌, Bool, true, false, Option, none, some, List, [], ◌∷◌, ltb, leb,
  ◌==◌, if◌then◌else◌, length, replicate, String,
}
use segmentor.Common.Int.{ℤ}
use segmentor.Error.{
  Result, ok, err, panic, ◌>>=◌, ◌>>◌, guard, ok_or, checked_mul, checked_add, saturating_add,
  invalid_media, expect,
}
use segmentor.Config.Limits.{LimitsConfig}
use segmentor.Media.SampleIndex.{SampleIndex, new}
use segmentor.Mp4.Tables.Parse.{SampleTables, SampleSizes, constant, table}
use segmentor.Mp4.Tables.Chunks.{chunks}

pub record TimingRuns : Type 0 where
  pub first : List ℕ
  pub start : List ℕ
  pub duration : List ℕ

-- `u32::try_from(at).expect(..)`
abbrev pub as_u32 : ℕ → Result ℕ
as_u32 n = if ltb n (2 ^ 32) then ok n else panic

abbrev pub stts_mismatch : String
stts_mismatch = "stts entry count does not match sample count"

abbrev pub ctts_mismatch : String
ctts_mismatch = "ctts entry count does not match sample count"

-- The runs from sample `at` on, which decodes at `decode_time`.
unfoldable pub timing_loop : ℕ → ℕ → ℕ → List (ℕ × ℕ) → Result TimingRuns
timing_loop sample_count at decode_time [] = do
  guard (at == sample_count) (invalid_media stts_mismatch)
  ok (record { first = []; start = []; duration = [] })
timing_loop sample_count at decode_time ((zero, delta) ∷ runs) = do
  guard (leb (saturating_add at 0) sample_count) (invalid_media stts_mismatch)
  timing_loop sample_count at decode_time runs
timing_loop sample_count at decode_time ((suc n, delta) ∷ runs) = do
  guard (leb (saturating_add at (suc n)) sample_count) (invalid_media stts_mismatch)
  first ← as_u32 at
  span ← ok_or (checked_mul (suc n) delta) (invalid_media "decode timestamp overflow")
  next ← ok_or (checked_add decode_time span) (invalid_media "decode timestamp overflow")
  rest ← timing_loop sample_count (at + suc n) next runs
  ok (record {
    first = first ∷ rest.first;
    start = decode_time ∷ rest.start;
    duration = delta ∷ rest.duration;
  })

unfoldable pub timing_runs : List (ℕ × ℕ) → ℕ → Result TimingRuns
unfolding timing_loop
timing_runs runs sample_count = timing_loop sample_count 0 0 runs

unfoldable pub composition_loop : ℕ → ℕ → List (ℕ × ℤ) → Result (List ℕ × List ℤ)
composition_loop sample_count at [] = do
  guard (at == sample_count) (invalid_media ctts_mismatch)
  ok ([], [])
composition_loop sample_count at ((zero, offset) ∷ runs) = do
  guard (leb (saturating_add at 0) sample_count) (invalid_media ctts_mismatch)
  composition_loop sample_count at runs
composition_loop sample_count at ((suc n, offset) ∷ runs) = do
  guard (leb (saturating_add at (suc n)) sample_count) (invalid_media ctts_mismatch)
  first ← as_u32 at
  rest ← composition_loop sample_count (at + suc n) runs
  ok (first ∷ rest.0, offset ∷ rest.1)

unfoldable pub composition_runs : List (ℕ × ℤ) → ℕ → Result (List ℕ × List ℤ)
unfolding composition_loop
composition_runs runs sample_count = composition_loop sample_count 0 runs

unfoldable pub composition_tables : Option (List (ℕ × ℤ)) → ℕ → Result (List ℕ × List ℤ)
unfolding composition_runs
composition_tables none sample_count = ok ([], [])
composition_tables (some runs) sample_count = composition_runs runs sample_count

-- One-based numbers as indexes; 0 and numbers outside the track are ignored.
unfoldable pub sync_indexes : ℕ → List ℕ → List ℕ
sync_indexes sample_count [] = []
sync_indexes sample_count (zero ∷ numbers) = sync_indexes sample_count numbers
sync_indexes sample_count (suc i ∷ numbers) =
    let rest = sync_indexes sample_count numbers in if ltb i sample_count then i ∷ rest else rest

-- `sort_unstable`
unfoldable pub insert_sorted : ℕ → List ℕ → List ℕ
insert_sorted x [] = x ∷ []
insert_sorted x (y ∷ ys) = if leb x y then x ∷ y ∷ ys else y ∷ insert_sorted x ys

unfoldable pub sort : List ℕ → List ℕ
unfolding insert_sorted
sort [] = []
sort (x ∷ xs) = insert_sorted x (sort xs)

-- `dedup`, behind the item `last`
unfoldable pub dedup_from : ℕ → List ℕ → List ℕ
dedup_from last [] = []
dedup_from last (x ∷ xs) = let rest = dedup_from x xs in if last == x then rest else x ∷ rest

unfoldable pub dedup : List ℕ → List ℕ
unfolding dedup_from
dedup [] = []
dedup (x ∷ xs) = x ∷ dedup_from x xs

unfoldable pub sync_table : ℕ → Option (List ℕ) → Option (List ℕ)
unfolding sync_indexes sort dedup
sync_table sample_count none = none
sync_table sample_count (some numbers) = some (dedup (sort (sync_indexes sample_count numbers)))

unfoldable pub count_of : SampleSizes → ℕ
count_of (constant size count) = count
count_of (table sizes) = length sizes

unfoldable pub size_list : SampleSizes → List ℕ
size_list (constant size count) = replicate count size
size_list (table sizes) = sizes

-- The byte-range failure that `chunks` found, reported after the timing tables are checked.
abbrev pub report : Option String → Result (Unit {0})
report none = ok tt
report (some message) = err (invalid_media message)

unfoldable pub sample_index : SampleTables → ℕ → LimitsConfig → Result SampleIndex
unfolding count_of size_list timing_runs composition_tables sync_table chunks
sample_index t source_len limits = do
  let sample_count = count_of t.sizes
  guard (leb sample_count limits.max_samples_per_track)
      (invalid_media "sample count exceeds configured limit")
  let sizes = size_list t.sizes
  c ← chunks t.sample_to_chunk t.chunk_offsets sizes source_len
  timing ← timing_runs t.time_to_sample sample_count
  composition ← composition_tables t.composition sample_count
  report c.beyond_source
  ok (
      new (record {
        sizes = sizes;
        chunk_first = c.first;
        chunk_offset = c.offset;
        time_first = timing.first;
        time_start = timing.start;
        time_duration = timing.duration;
        composition_first = composition.0;
        composition_offset = composition.1;
        sync = sync_table sample_count t.sync;
      }))
