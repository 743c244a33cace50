-- ===== src/Mp4/Tables/Sync.antt =====
-- The table of sync samples of src/mp4/tables.rs.
use segmentor.Common.{
  ℕ, zero, suc, ◌≤◌, ◌<◌, ◌≡◌, refl, true, List, [], ◌∷◌, ltb, ◌==◌, arith, if◌then◌else◌, All,
  Bool-cases, ==_iff, ◌∙◌, ◌&&◌, inl, inr,
}
use segmentor.Media.Ascending.{Climbs, Climbs-weaken}
use segmentor.Media.Tables.{contains}
use segmentor.Mp4.Tables.{sync_indexes, insert_sorted, sort, dedup_from, dedup}

-- Not falling, from `lo` on, and below `hi`.
abbrev Rises : ℕ → ℕ → List ℕ → Type 0
Rises lo hi [] = Unit
Rises lo hi (x ∷ xs) = (lo ≤ x) × (x < hi) × Rises x hi xs

insert_sorted-Rises :
    (lo hi x : ℕ) (xs : List ℕ)
    → lo ≤ x
    → x < hi
    → Rises lo hi xs
    → Rises lo hi (insert_sorted x xs)
unfolding insert_sorted
insert_sorted-Rises lo hi x [] h k r = (h, k, tt)
insert_sorted-Rises lo hi x (y ∷ ys) h k r = ground (arith, insert_sorted-Rises y hi x ys)

sort-Rises : (hi : ℕ) (xs : List ℕ) → All (λ x. x < hi) xs → Rises 0 hi (sort xs)
unfolding sort
sort-Rises hi [] h = tt
sort-Rises hi (x ∷ xs) h =
    insert_sorted-Rises 0 hi x (sort xs) (omega arith) h.0 (sort-Rises hi xs h.1)

dedup_from-Climbs :
    (last hi : ℕ) (xs : List ℕ) → Rises last hi xs → Climbs (suc last) hi (dedup_from last xs)
unfolding dedup_from
dedup_from-Climbs last hi [] r = tt
dedup_from-Climbs last hi (x ∷ xs) r = elim (Bool-cases (last == x)) [
  | inl h ↦ rw h (
      Climbs-weaken (suc x) (suc last) hi hi _ (omega (arith, r.0, (==_iff last x).0 h))
        (omega arith) (dedup_from-Climbs x hi xs r.2))
  | inr h ↦ rw h (ground (arith, r.0), r.1, dedup_from-Climbs x hi xs r.2)
]

dedup-Climbs : (hi : ℕ) (xs : List ℕ) → Rises 0 hi xs → Climbs 0 hi (dedup xs)
unfolding dedup
dedup-Climbs hi [] r = tt
dedup-Climbs hi (x ∷ xs) r = (r.0, r.1, dedup_from-Climbs x hi xs r.2)

sync_indexes-lt : (count : ℕ) (numbers : List ℕ) → All (λ i. i < count) (sync_indexes count numbers)
unfolding sync_indexes
sync_indexes-lt count [] = tt
sync_indexes-lt count (zero ∷ numbers) = sync_indexes-lt count numbers
sync_indexes-lt count (suc i ∷ numbers) = ground (arith, sync_indexes-lt count numbers)

-- The table of sync samples climbs strictly, and its numbers are below the sample count, whatever
-- stss lists.
pub sync_table-Climbs :
    (count : ℕ) (numbers : List ℕ) → Climbs 0 count (dedup (sort (sync_indexes count numbers)))
sync_table-Climbs count numbers =
    dedup-Climbs count (sort (sync_indexes count numbers))
      (sort-Rises count (sync_indexes count numbers) (sync_indexes-lt count numbers))

contains-insert_sorted :
    (i x : ℕ) (xs : List ℕ)
    → contains (insert_sorted x xs) i ≡ (if x == i then true else contains xs i)
unfolding contains insert_sorted
contains-insert_sorted i x [] = refl
contains-insert_sorted i x (y ∷ ys) = ground (arith, contains-insert_sorted i x ys)

contains-sort : (i : ℕ) (xs : List ℕ) → contains (sort xs) i ≡ contains xs i
unfolding contains sort
contains-sort i [] = refl
contains-sort i (x ∷ xs) = rw (contains-insert_sorted i x (sort xs), contains-sort i xs)

contains-dedup_from :
    (i last : ℕ) (xs : List ℕ)
    → (if last == i then true else contains (dedup_from last xs) i)
      ≡ (if last == i then true else contains xs i)
unfolding contains dedup_from
contains-dedup_from i last [] = refl
contains-dedup_from i last (x ∷ xs) = ground (arith, contains-dedup_from i x xs)

contains-dedup : (i : ℕ) (xs : List ℕ) → contains (dedup xs) i ≡ contains xs i
unfolding contains dedup
contains-dedup i [] = refl
contains-dedup i (x ∷ xs) = contains-dedup_from i x xs

contains-sync_indexes :
    (count i : ℕ) (numbers : List ℕ)
    → contains (sync_indexes count numbers) i ≡ (ltb i count && contains numbers (suc i))
unfolding contains sync_indexes
contains-sync_indexes count i [] = ground arith
contains-sync_indexes count i (zero ∷ numbers) =
    ground (arith, contains-sync_indexes count i numbers)
contains-sync_indexes count i (suc j ∷ numbers) =
    ground (arith, contains-sync_indexes count i numbers)

-- The table of sync samples, sorted and without duplicates, holds a sample number exactly where it
-- is below the sample count and stss lists the number one above it.
pub contains-sync_table :
    (count i : ℕ) (numbers : List ℕ)
    → contains (dedup (sort (sync_indexes count numbers))) i
      ≡ (ltb i count && contains numbers (suc i))
contains-sync_table count i numbers =
    contains-dedup i (sort (sync_indexes count numbers))
    ∙ contains-sort i (sync_indexes count numbers)
    ∙ contains-sync_indexes count i numbers
