-- ===== src/Tests/Sequence.antt =====
-- Runs of the code of src/sequence.rs: clips of 2, 0 and 3 segments.
use segmentor.Common.{ℕ, ◌+◌, ◌≡◌, refl, some, List, [], ◌∷◌, get_elem?, arith}
use segmentor.Error.{ok}
use segmentor.Media.Sample.{partition_point}
use segmentor.Sequence.{first_segments, locate_segment}
use segmentor.Sequence.Numbering.{locate_segment-first_segments}

abbrev counts : List ℕ
counts = 2 ∷ 0 ∷ 3 ∷ []

abbrev firsts : List ℕ
firsts = 0 ∷ 2 ∷ 2 ∷ []

locate_segment-first_segments_example :
    (first : ℕ) × (get_elem? firsts 2 ≡ some first)
    × (locate_segment firsts (first + 1) ≡ ok (2, 1))
unfolding first_segments
locate_segment-first_segments_example =
    locate_segment-first_segments counts firsts 2 3 1 refl refl (omega arith)

third_segment : locate_segment firsts 3 ≡ ok (2, 1)
unfolding locate_segment partition_point
third_segment = refl
