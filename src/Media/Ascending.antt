-- ===== src/Media/Ascending.antt =====
-- Lists of sample numbers that climb strictly between two ends, and `partition_point` on them.
use segmentor.Common.{
  ℕ, suc, ◌+◌, ◌-◌, ◌≤◌, ◌<◌, ◌≡◌, Bool, true, List, [], ◌∷◌, ltb, arith, length, take, drop, slice,
  map, All, All-map,
}
use segmentor.Media.Sample.{partition_point}
use segmentor.Media.Tables.{contains}

-- Each number is above the one before it, the first at least `lo`, and all are below `hi`.
abbrev pub Climbs : ℕ → ℕ → List ℕ → Type 0
Climbs lo hi [] = Unit
Climbs lo hi (x ∷ xs) = (lo ≤ x) × (x < hi) × Climbs (suc x) hi xs

pub Climbs-weaken :
    (lo lo' hi hi' : ℕ) (xs : List ℕ) → lo' ≤ lo → hi ≤ hi' → Climbs lo hi xs → Climbs lo' hi' xs
Climbs-weaken lo lo' hi hi' [] h k c = tt
Climbs-weaken lo lo' hi hi' (x ∷ xs) h k c =
    (omega arith, omega arith, Climbs-weaken (suc x) (suc x) hi hi' xs (omega arith) k c.2)

-- What is left of a climbing list behind the numbers below `a`.
pub Climbs-drop :
    (a lo hi : ℕ) (xs : List ℕ)
    → Climbs lo hi xs
    → Climbs a hi (drop (partition_point (λ i. ltb i a) xs) xs)
unfolding partition_point
Climbs-drop a lo hi [] c = tt
Climbs-drop a lo hi (x ∷ xs) c = ground (arith, Climbs-drop a (suc x) hi xs c.2)

-- The numbers below `b` at the front of a climbing list.
pub Climbs-take :
    (b lo hi : ℕ) (xs : List ℕ)
    → Climbs lo hi xs
    → Climbs lo b (take (partition_point (λ i. ltb i b) xs) xs)
unfolding partition_point
Climbs-take b lo hi [] c = tt
Climbs-take b lo hi (x ∷ xs) c = ground (arith, Climbs-take b (suc x) hi xs c.2)

pub partition_point_mono :
    (a b : ℕ) (xs : List ℕ)
    → a ≤ b
    → partition_point (λ i. ltb i a) xs ≤ partition_point (λ i. ltb i b) xs
unfolding partition_point
partition_point_mono a b [] h = omega arith
partition_point_mono a b (x ∷ xs) h = ground (arith, partition_point_mono a b xs h)

pub partition_point-le {ℓ} :
    {A : Type ℓ} (p : A → Bool) (xs : List A) → partition_point p xs ≤ length xs
unfolding partition_point
partition_point-le p [] = omega arith
partition_point-le p (x ∷ xs) = ground (arith, partition_point-le p xs)

pub Climbs-minus :
    (a lo hi : ℕ) (xs : List ℕ)
    → a ≤ lo
    → Climbs lo hi xs
    → Climbs (lo - a) (hi - a) (map (λ i. i - a) xs)
Climbs-minus a lo hi [] h c = tt
Climbs-minus a lo hi (x ∷ xs) h c = (
  omega arith,
  omega arith,
  Climbs-weaken (suc x - a) (suc (x - a)) (hi - a) (hi - a) (map (λ i. i - a) xs) (omega arith)
      (omega arith) (Climbs-minus a (suc x) hi xs (omega arith) c.2),
)

partition_point-drop :
    (a b : ℕ) (xs : List ℕ)
    → a ≤ b
    → partition_point (λ i. ltb i b) (drop (partition_point (λ i. ltb i a) xs) xs)
      ≡ partition_point (λ i. ltb i b) xs - partition_point (λ i. ltb i a) xs
unfolding partition_point
partition_point-drop a b [] h = omega arith
partition_point-drop a b (x ∷ xs) h = ground (arith, partition_point-drop a b xs h)

-- The numbers of a climbing list from `a` on and below `b`.
pub between-Climbs :
    (a b hi : ℕ) (xs : List ℕ)
    → a ≤ b
    → Climbs 0 hi xs
    → Climbs a b (slice xs (partition_point (λ i. ltb i a) xs) (partition_point (λ i. ltb i b) xs))
between-Climbs a b hi xs h c =
    rw (← partition_point-drop a b xs h) (Climbs-take b a hi _ (Climbs-drop a 0 hi xs c))

pub contains_self : (xs : List ℕ) → All (λ i. contains xs i ≡ true) xs
unfolding contains
contains_self [] = tt
contains_self (x ∷ xs) = (ground arith, All-map (λ i h. ground arith) xs (contains_self xs))

-- Numbers from `a` on, moved down by `a`, that a test accepts when they are moved up again.
pub All-moved {κ} :
    (P : ℕ → Type κ) (a lo hi : ℕ) (xs : List ℕ)
    → a ≤ lo
    → Climbs lo hi xs
    → All P xs
    → All (λ i. P (a + i)) (map (λ i. i - a) xs)
All-moved P a lo hi [] h c k = tt
All-moved P a lo hi (x ∷ xs) h c k =
    let e : a + (x - a) ≡ x = omega arith in
    (rw e k.0, All-moved P a (suc x) hi xs (omega arith) c.2 k.1)
