-- ===== src/Media/Building.antt =====
-- `SampleIndex::from_samples` of src/media/samples.rs: the tables of samples given one by one.
pub mod Valid
use segmentor.Common.{
  ℕ, ◌+◌, ◌^◌, Bool, true, false, Option, none, some, List, [], ◌∷◌, ◌++◌, ltb, leb, ◌==◌, not,
  if◌then◌else◌, length, ◌≡◌, refl, arith, ◌≤◌, ltb→lt, ltb→ge, length-append, if-cases,
}
use segmentor.Common.Int.{ℤ, pos, negsuc}
use segmentor.Error.{
  Result, ok, panic, ◌>>=◌, expect, checked_add, Ensures, ensures-ok, ensures-bind, ensures-if,
  ensures-panic,
}
use segmentor.Media.Sample.{Sample}
use segmentor.Media.Ascending.{Climbs}
use segmentor.Media.SampleIndex as Samples
use segmentor.Media.SampleIndex.{SampleIndex}
use segmentor.Media.Tables.{Tables}

abbrev pub eq_ℤ : ℤ → ℤ → Bool
eq_ℤ (pos m) (pos n) = m == n
eq_ℤ (pos m) (negsuc n) = false
eq_ℤ (negsuc m) (pos n) = false
eq_ℤ (negsuc m) (negsuc n) = m == n

-- `offset + size`, and the other sum, are plain additions.
abbrev pub plain_add : ℕ → ℕ → Result ℕ
plain_add a b = expect (checked_add a b)

unfoldable pub same_chunk : Option Sample → Sample → Result Bool
same_chunk none s = ok false
same_chunk (some p) s = plain_add p.offset p.size >>= λ end. ok (end == s.offset)

unfoldable pub same_run : Option Sample → Sample → Result Bool
same_run none s = ok false
same_run (some p) s =
    if p.duration == s.duration
    then (plain_add p.decode_time p.duration >>= λ end. ok (end == s.decode_time))
    else ok false

-- Is `offset` what the list ends with?
unfoldable pub ends_with : List ℤ → ℤ → Bool
ends_with [] offset = false
ends_with (o ∷ []) offset = eq_ℤ o offset
ends_with (o ∷ p ∷ os) offset = ends_with (p ∷ os) offset

abbrev pub with_chunk : Bool → ℕ → Sample → Tables → Tables
with_chunk true number s t = t
with_chunk false number s t = record t {
  chunk_first = t.chunk_first ++ (number ∷ []);
  chunk_offset = t.chunk_offset ++ (s.offset ∷ []);
}

abbrev pub with_run : Bool → ℕ → Sample → Tables → Tables
with_run true number s t = t
with_run false number s t = record t {
  time_first = t.time_first ++ (number ∷ []);
  time_start = t.time_start ++ (s.decode_time ∷ []);
  time_duration = t.time_duration ++ (s.duration ∷ []);
}

abbrev pub with_composition : Bool → ℕ → Sample → Tables → Tables
with_composition true number s t = t
with_composition false number s t = record t {
  composition_first = t.composition_first ++ (number ∷ []);
  composition_offset = t.composition_offset ++ (s.composition_offset ∷ []);
}

-- The tables so far, and the numbers of the sync samples.
abbrev pub Built : Type 0
Built = Tables × List ℕ

-- The four tables that a sample extends.
abbrev pub with_sample : Bool → Bool → ℕ → Sample → Built → Built
with_sample chunk run number s b =
    let t : Tables =
      with_composition (ends_with b.0.composition_offset s.composition_offset) number s
        (with_run run number s (with_chunk chunk number s b.0)) in
    (
      record t { sizes = b.0.sizes ++ (s.size ∷ []) },
      if s.is_sync then b.1 ++ (number ∷ []) else b.1,
    )

-- The loop, from the index of the next sample and the sample before it.
unfoldable pub add_samples : ℕ → Option Sample → Built → List Sample → Result Built
unfolding same_chunk same_run ends_with
add_samples index previous b [] = ok b
add_samples index previous b (s ∷ ss) =
    if ltb index (2 ^ 32)
    then (same_chunk previous s >>= λ chunk. same_run previous s >>= λ run.
        add_samples (index + 1) (some s) (with_sample chunk run index s b) ss)
    else panic

abbrev pub no_tables : Tables
no_tables = record {
  sizes = [];
  chunk_first = [];
  chunk_offset = [];
  time_first = [];
  time_start = [];
  time_duration = [];
  composition_first = [];
  composition_offset = [];
  sync = none;
}

abbrev pub is_one_zero : List ℤ → Bool
is_one_zero [] = false
is_one_zero (o ∷ []) = eq_ℤ o (pos 0)
is_one_zero (o ∷ p ∷ os) = false

-- Offsets that are all 0 are not stored, nor are sync samples when every sample is one.
unfoldable pub finished_tables : ℕ → Built → Tables
finished_tables count b = record b.0 {
  composition_first = if is_one_zero b.0.composition_offset then [] else b.0.composition_first;
  composition_offset = if is_one_zero b.0.composition_offset then [] else b.0.composition_offset;
  sync = if length b.1 == count then none else some b.1;
}

unfoldable pub from_samples : List Sample → Result SampleIndex
unfolding add_samples finished_tables Samples.new
from_samples samples = add_samples 0 none (no_tables, []) samples >>= λ b.
    ok (Samples.new (finished_tables (length samples) b))
