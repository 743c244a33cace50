-- ===== src/Media/Iter.antt =====
-- `Iter` of src/media/samples.rs: reading samples in order, with a cursor into each table.
use segmentor.Common.{
  ℕ, zero, suc, ◌+◌, ◌-◌, Bool, true, false, Option, none, some, List, [], ◌∷◌, ltb, leb, ◌==◌,
  if◌then◌else◌, drop, get_elem?,
}
use segmentor.Common.Int.{ℤ, pos}
use segmentor.Error.{Result, ok, panic, ◌>>=◌}
use segmentor.Media.Sample.{Sample, partition_point, index}
use segmentor.Media.Tables as Table
use segmentor.Media.Tables.{Tables, plus, run_of, time_in_run}
use segmentor.Media.SampleIndex.{SampleIndex, in_window, moved}

pub record Iter : Type 0 where
  pub samples : SampleIndex
  pub position : ℕ
  pub end : ℕ
  pub chunk : ℕ
  pub offset : ℕ
  pub time_run : ℕ
  pub composition_run : ℕ
  pub sync : ℕ

-- A table without runs has its cursor at 0, which is where `run_of` puts it.
abbrev run_if : Bool → List ℕ → ℕ → ℕ
run_if in_range first position = if in_range then run_of first position else 0

unfoldable pub sync_from : Option (List ℕ) → ℕ → ℕ
sync_from none position = 0
sync_from (some sync) position = partition_point (λ i. ltb i position) sync

unfoldable pub range : SampleIndex → ℕ → ℕ → Result Iter
unfolding sync_from Table.offset
range s from to =
    if in_window s from to
    then (do
      let position = s.start + from
      let in_range = ltb position (Table.len s.tables)
      offset ← (if in_range then Table.offset s.tables position else ok 0)
      ok (record {
        samples = s;
        position = position;
        end = s.start + to;
        chunk = run_if in_range s.tables.chunk_first position;
        offset = offset;
        time_run = run_if in_range s.tables.time_first position;
        composition_run = run_if in_range s.tables.composition_first position;
        sync = sync_from s.tables.sync position;
      }))
    else panic

-- `while at(first, run + 1) { run += 1 }`, on the entries behind `run`.
unfoldable pub advance : ℕ → List ℕ → ℕ → ℕ
advance position [] run = run
advance position (first ∷ rest) run =
    if leb first position then advance position rest (suc run) else run

-- The same loop on the chunks, which also reads the offset of each chunk that it enters.
unfoldable pub advance_chunk : List ℕ → ℕ → List ℕ → ℕ → ℕ → Result (ℕ × ℕ)
advance_chunk offsets position [] chunk offset = ok (chunk, offset)
advance_chunk offsets position (first ∷ rest) chunk offset =
    if leb first position
    then (do
      entered ← index offsets (suc chunk)
      advance_chunk offsets position rest (suc chunk) entered)
    else ok (chunk, offset)

-- Whether the sample is the next sync sample, and the cursor behind it.
unfoldable pub next_sync : Option (List ℕ) → ℕ → ℕ → Bool × ℕ
next_sync none position cursor = (true, cursor)
next_sync (some sync) position cursor = elim (get_elem? sync cursor) [
  | none ↦ (false, cursor)
  | some i ↦ if i == position then (true, suc cursor) else (false, cursor)
]

-- `.get(run).copied().unwrap_or_default()`
unfoldable pub composition_at : List ℤ → ℕ → ℤ
composition_at offsets run = elim (get_elem? offsets run) [ none ↦ pos 0 | some offset ↦ offset ]

-- The sample at the cursor, which lies inside the range.
unfoldable pub step : Iter → Result (Sample × Iter)
unfolding advance advance_chunk next_sync composition_at time_in_run moved
step it = do
  let t = it.samples.tables
  (chunk, offset) ←
      advance_chunk t.chunk_offset it.position (drop (it.chunk + 1) t.chunk_first) it.chunk
        it.offset
  let run = advance it.position (drop (it.time_run + 1) t.time_first) it.time_run
  let composition_run =
      advance it.position (drop (it.composition_run + 1) t.composition_first) it.composition_run
  size ← index t.sizes it.position
  start ← index t.time_start run
  first ← index t.time_first run
  duration ← index t.time_duration run
  stored ← time_in_run start first duration it.position
  let (is_sync, sync) = next_sync t.sync it.position it.sync
  time ← moved it.samples stored
  behind ← plus offset size
  ok (
    record {
      offset = offset;
      size = size;
      decode_time = time;
      duration = duration;
      composition_offset = composition_at t.composition_offset composition_run;
      is_sync = is_sync;
    },
    record {
      samples = it.samples;
      position = it.position + 1;
      end = it.end;
      chunk = chunk;
      offset = behind;
      time_run = run;
      composition_run = composition_run;
      sync = sync;
    },
  )

unfoldable pub next : Iter → Result (Option (Sample × Iter))
unfolding step
next it = if leb it.end it.position then ok none else (do found ← step it; ok (some found))

-- `collect`; an iterator returns a sample for each position up to its end.
unfoldable pub collect : ℕ → Iter → Result (List Sample)
unfolding next
collect zero it = ok []
collect (suc rounds) it = do
  found ← next it
  elim found [
    | none ↦ ok []
    | some (sample, it') ↦ (do rest ← collect rounds it'; ok (sample ∷ rest))
  ]

unfoldable pub to_vec : SampleIndex → ℕ → ℕ → Result (List Sample)
unfolding range collect
to_vec s from to = do it ← range s from to; collect (it.end - it.position) it
