-- ===== src/Media/Sample.antt =====
-- `Sample` and `TrackKind` of src/media/index.rs, and `slice::partition_point`.
use segmentor.Common.{ℕ, suc, Bool, List, [], ◌∷◌, ◌+◌, if◌then◌else◌, get_elem?}
use segmentor.Common.Int.{ℤ}
use segmentor.Error.{Result, expect}

pub record Sample : Type 0 where
  pub offset : ℕ
  pub size : ℕ
  pub decode_time : ℕ
  pub duration : ℕ
  pub composition_offset : ℤ
  pub is_sync : Bool

pub data TrackKind : Type 0 where
  audio video : TrackKind

-- How many items at the front pass the test: on a slice that the test partitions, the first
-- index that fails it.
unfoldable pub partition_point {ℓ} : {A : Type ℓ} → (A → Bool) → List A → ℕ
partition_point p [] = 0
partition_point p (x ∷ xs) = if p x then suc (partition_point p xs) else 0

-- `Vec[i]`, which panics out of bounds.
abbrev pub index {ℓ} : {A : Type ℓ} → List A → ℕ → Result A
index xs i = expect (get_elem? xs i)

unfoldable pub sum : List ℕ → ℕ
sum [] = 0
sum (x ∷ xs) = x + sum xs
