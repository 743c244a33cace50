-- ===== src/Media/Tables.antt =====
-- `Tables` of src/media/samples.rs. An index out of bounds and a `u64` that overflows panic.
use segmentor.Common.{
  ℕ, suc, ◌+◌, ◌-◌, ◌*◌, ◌/◌, ◌^◌, Bool, true, false, Option, none, some, List, [], ◌∷◌, ◌&&◌, ltb,
  leb, ◌==◌, if◌then◌else◌, length, get_elem?, slice,
}
use segmentor.Common.Int.{ℤ, pos, negsuc, ◌+ℤ◌, ◌-ℤ◌, ltb_ℤ, sub_ℕ}
use segmentor.Error.{
  Result, ok, panic, ◌>>=◌, expect, checked_add, checked_mul, saturating_add, u64_mod,
}
use segmentor.Media.Sample.{partition_point, index, sum}

pub record Tables : Type 0 where
  pub sizes : List ℕ
  pub chunk_first : List ℕ
  pub chunk_offset : List ℕ
  pub time_first : List ℕ
  pub time_start : List ℕ
  pub time_duration : List ℕ
  pub composition_first : List ℕ
  pub composition_offset : List ℤ
  pub sync : Option (List ℕ)

-- The run (or chunk) that holds sample `i`.
unfoldable pub run_of : List ℕ → ℕ → ℕ
run_of first i = partition_point (λ f. leb f i) first - 1

abbrev pub len : Tables → ℕ
len t = length t.sizes

-- `a - b` of `usize`
abbrev pub minus : ℕ → ℕ → Result ℕ
minus a b = if leb b a then ok (a - b) else panic

abbrev pub plus : ℕ → ℕ → Result ℕ
plus a b = expect (checked_add a b)

abbrev pub times : ℕ → ℕ → Result ℕ
times a b = expect (checked_mul a b)

-- The decode time of sample `i` in the run that starts with sample `first` at time `start`.
unfoldable pub time_in_run : ℕ → ℕ → ℕ → ℕ → Result ℕ
time_in_run start first duration i = do
  ahead ← minus i first
  span ← times ahead duration
  plus start span

unfoldable pub decode_time : Tables → ℕ → Result ℕ
unfolding time_in_run
decode_time t i = do
  let run = run_of t.time_first i
  start ← index t.time_start run
  first ← index t.time_first run
  duration ← index t.time_duration run
  time_in_run start first duration i

unfoldable pub duration : Tables → ℕ → Result ℕ
duration t i = index t.time_duration (run_of t.time_first i)

-- `&sizes[from..to]`
abbrev pub range_of : List ℕ → ℕ → ℕ → Result (List ℕ)
range_of xs from to = if leb from to && leb to (length xs) then ok (slice xs from to) else panic

unfoldable pub offset : Tables → ℕ → Result ℕ
unfolding sum
offset t i = do
  let chunk = run_of t.chunk_first i
  first ← index t.chunk_first chunk
  start ← index t.chunk_offset chunk
  before ← range_of t.sizes first i
  plus start (sum before)

unfoldable pub offset_of_run : List ℕ → List ℤ → ℕ → Result ℤ
offset_of_run [] offsets i = ok (pos 0)
offset_of_run (f ∷ fs) offsets i = index offsets (run_of (f ∷ fs) i)

unfoldable pub composition_offset : Tables → ℕ → Result ℤ
unfolding offset_of_run
composition_offset t i = offset_of_run t.composition_first t.composition_offset i

-- `binary_search(&i).is_ok()` on an ascending list.
unfoldable pub contains : List ℕ → ℕ → Bool
contains [] i = false
contains (x ∷ xs) i = if x == i then true else contains xs i

unfoldable pub listed : Option (List ℕ) → ℕ → Bool
unfolding contains
listed none i = true
listed (some sync) i = ltb i (2 ^ 32) && contains sync i

unfoldable pub is_sync : Tables → ℕ → Bool
unfolding listed
is_sync t i = listed t.sync i

-- `usize::try_from((elapsed + duration - 1) / duration).unwrap_or(usize::MAX)`, where `i128`
-- division rounds towards zero.
unfoldable pub steps_of : ℤ → ℕ → ℕ
steps_of elapsed d = elim (elapsed +ℤ sub_ℕ d 1) [
  | pos n ↦ if ltb (n / d) u64_mod then n / d else u64_mod - 1
  | negsuc n ↦ if ltb (n + 1) d then 0 else u64_mod - 1
]

-- The candidate inside the run, or the run's end.
unfoldable pub within_run : ℕ → ℕ → ℕ → ℕ → ℕ
within_run first steps run_end next_first =
    if ltb (saturating_add first steps) run_end then saturating_add first steps else next_first

-- The search in the run `run`, which starts before `time`; `next` is the run after it.
unfoldable pub partition_in_run : Tables → ℤ → ℕ → ℕ → Result ℕ
unfolding within_run steps_of
partition_in_run t time run next_first = do
  let run_end = if ltb (suc run) (length t.time_first) then next_first else len t
  d ← index t.time_duration run
  start ← index t.time_start run
  first ← index t.time_first run
  ok (
      if d == 0
      then next_first
      else within_run first (steps_of (time -ℤ pos start) d) run_end next_first)

abbrev get_or_len : Tables → Option ℕ → ℕ
get_or_len t none = len t
get_or_len t (some first) = first

unfoldable pub partition_by_decode_time : Tables → ℤ → Result ℕ
unfolding partition_in_run
partition_by_decode_time t time =
    elim (partition_point (λ start. ltb_ℤ (pos start) time) t.time_start) [
      | ℕ.zero ↦ ok 0
      | ℕ.suc run ↦ partition_in_run t time run (get_or_len t (get_elem? t.time_first (suc run)))
    ]

abbrev sync_bytes : Option (List ℕ) → ℕ
sync_bytes none = 0
sync_bytes (some sync) = length sync * 4

unfoldable pub bytes : Tables → ℕ
bytes t =
    length t.sizes * 4
    + length t.chunk_first * 12
    + length t.time_first * 16
    + length t.composition_first * 8
    + sync_bytes t.sync
