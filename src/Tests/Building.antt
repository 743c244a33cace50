-- ===== src/Tests/Building.antt =====
-- A run of `SampleIndex::from_samples` of src/media/samples.rs: three samples in two chunks.
use segmentor.Common.{ℕ, ◌≡◌, refl, Bool, true, false, List, [], ◌∷◌}
use segmentor.Common.Int.{pos}
use segmentor.Error.{Result, ok, err, panic}
use segmentor.Media.Sample.{Sample}
use segmentor.Media.SampleIndex as Samples
use segmentor.Media.SampleIndex.{SampleIndex}
use segmentor.Media.Building.{
  from_samples, add_samples, finished_tables, same_chunk, same_run, ends_with, no_tables,
}
use segmentor.Media.Building.Valid.{IsIndexOf, from_samples-IsIndexOf}

abbrev sample : ℕ → ℕ → Bool → Sample
sample offset time is_sync = record {
  offset = offset;
  size = 5;
  decode_time = time;
  duration = 10;
  composition_offset = pos 0;
  is_sync = is_sync;
}

abbrev three : List Sample
three = sample 100 0 true ∷ sample 105 10 false ∷ sample 200 20 true ∷ []

abbrev or_none : Result SampleIndex → SampleIndex
or_none (ok s) = s
or_none (err e) = record { tables = no_tables; start = 0; end = 0; shift = pos 0 }
or_none panic = record { tables = no_tables; start = 0; end = 0; shift = pos 0 }

abbrev index_of_three : SampleIndex
index_of_three = or_none (from_samples three)

chunks_of_three : index_of_three.tables.chunk_first ≡ 0 ∷ 2 ∷ []
unfolding from_samples add_samples finished_tables same_chunk same_run ends_with Samples.new
chunks_of_three = refl

from_samples-IsIndexOf_example : IsIndexOf three index_of_three
unfolding from_samples add_samples finished_tables same_chunk same_run ends_with Samples.new
from_samples-IsIndexOf_example = from_samples-IsIndexOf three index_of_three refl
