-- ===== src/Mp4/Tables/Chunks.antt =====
-- `chunks` of src/mp4/tables.rs: each chunk's first sample and byte offset.
use segmentor.Common.{
  ℕ, zero, suc, ◌+◌, ◌-◌, ◌^◌, Bool, true, false, Option, none, some, List, [], ◌∷◌, ◌++◌, not,
  ◌||◌, ltb, ◌==◌, if◌then◌else◌, length, get_elem?, take, min, String,
}
use segmentor.Error.{Result, ok, panic, ◌>>=◌, ◌>>◌, guard, ok_or, checked_add, invalid_media}
use segmentor.Media.Tables.{range_of}

pub record Chunks : Type 0 where
  pub first : List ℕ
  pub offset : List ℕ
  pub beyond_source : Option String

-- The variables of the loop. `copied` is `None` while every chunk used so far is the next one.
pub record State : Type 0 where
  pub chunk_first : List ℕ
  pub copied : Option (List ℕ)
  pub beyond_source : Option String
  pub mapped : ℕ

-- `try_fold(offset, |end, &size| end.checked_add(u64::from(size)))`
unfoldable pub chunk_end : ℕ → List ℕ → Result ℕ
chunk_end end [] = ok end
chunk_end end (size ∷ sizes) = do
  next ← ok_or (checked_add end size) (invalid_media "sample offset overflow")
  chunk_end next sizes

-- The offsets kept apart, after a chunk that is not empty.
unfoldable pub copy_offset : Option (List ℕ) → List ℕ → ℕ → ℕ → ℕ → Option (List ℕ)
copy_offset none offsets used chunk_index offset =
    if chunk_index == used then none else some (take used offsets ++ (offset ∷ []))
copy_offset (some copied) offsets used chunk_index offset = some (copied ++ (offset ∷ []))

abbrev pub first_failure : Option String → Bool → Option String
first_failure none true = some "sample byte range exceeds source length"
first_failure none false = none
first_failure (some message) beyond = some message

-- The state after a chunk of `count` samples, if there are any.
unfoldable pub record_chunk : List ℕ → ℕ → ℕ → ℕ → ℕ → ℕ → State → Result State
unfolding copy_offset
record_chunk offsets source_len chunk_index offset end zero s = ok s
record_chunk offsets source_len chunk_index offset end (suc n) s =
    if ltb s.mapped (2 ^ 32)
    then ok (record {
      chunk_first = s.chunk_first ++ (s.mapped ∷ []);
      copied = copy_offset s.copied offsets (length s.chunk_first) chunk_index offset;
      beyond_source = first_failure s.beyond_source (ltb source_len end);
      mapped = s.mapped + suc n;
    })
    else panic

unfoldable pub map_chunk : List ℕ → List ℕ → ℕ → ℕ → ℕ → State → Result State
unfolding chunk_end record_chunk
map_chunk offsets sizes source_len per_chunk chunk_index s = do
  offset ← ok_or (get_elem? offsets chunk_index) (invalid_media "stsc references a missing chunk")
  let count = min per_chunk (length sizes - s.mapped)
  part ← range_of sizes s.mapped (s.mapped + count)
  end ← chunk_end offset part
  s' ← record_chunk offsets source_len chunk_index offset end count s
  guard (not (ltb count per_chunk)) (invalid_media "stsc maps more samples than stsz")
  ok s'

-- The chunks of one `stsc` entry, `rounds` of them from `chunk_index` on.
unfoldable pub map_entry : List ℕ → List ℕ → ℕ → ℕ → ℕ → ℕ → State → Result State
unfolding map_chunk
map_entry offsets sizes source_len per_chunk zero chunk_index s = ok s
map_entry offsets sizes source_len per_chunk (suc rounds) chunk_index s = do
  s' ← map_chunk offsets sizes source_len per_chunk chunk_index s
  map_entry offsets sizes source_len per_chunk rounds (chunk_index + 1) s'

-- The first chunk of the next entry, or the one behind the last chunk.
abbrev pub next_first : List ℕ → List (ℕ × ℕ) → ℕ
next_first offsets [] = length offsets + 1
next_first offsets ((first, _) ∷ _) = first

unfoldable pub map_entries : List ℕ → List ℕ → ℕ → List (ℕ × ℕ) → State → Result State
unfolding map_entry
map_entries offsets sizes source_len [] s = ok s
map_entries offsets sizes source_len ((first, per_chunk) ∷ entries) s = do
  guard (not (first == 0 || per_chunk == 0)) (invalid_media "invalid stsc entry")
  s' ←
      map_entry offsets sizes source_len per_chunk (next_first offsets entries - first) (first - 1)
        s
  map_entries offsets sizes source_len entries s'

abbrev pub start : State
start = record { chunk_first = []; copied = none; beyond_source = none; mapped = 0 }

abbrev pub kept_offsets : Option (List ℕ) → List ℕ → ℕ → List ℕ
kept_offsets none offsets used = take used offsets
kept_offsets (some copied) offsets used = copied

unfoldable pub chunks : List (ℕ × ℕ) → List ℕ → List ℕ → ℕ → Result Chunks
unfolding map_entries
chunks sample_to_chunk offsets sizes source_len = do
  guard (not (length sample_to_chunk == 0)) (invalid_media "missing stsc entries")
  s ← map_entries offsets sizes source_len sample_to_chunk start
  guard (s.mapped == length sizes) (invalid_media "stsc maps fewer samples than stsz")
  ok (record {
    first = s.chunk_first;
    offset = kept_offsets s.copied offsets (length s.chunk_first);
    beyond_source = s.beyond_source;
  })
