-- ===== src/Tests/Cache.antt =====
-- Runs of the code of src/registry/cache.rs: a cache of two entries.
use segmentor.Common.{ℕ, ◌≡◌, refl, some, List, [], ◌∷◌, arith}
use segmentor.Error.{ok, panic}
use segmentor.Registry.Cache.{
  Key, LoadedCache, new, get, find, insert, evict, retain_only, other_version,
}
use segmentor.Registry.Cache.Histories.{Call, look, store, retain, after_calls, after_calls-new}
use segmentor.Registry.Cache.Evict.{IsValid}
use segmentor.Registry.Cache.Laws.{Inserted, insert-Inserted, Runs, evict-Evicted}
use segmentor.Registry.Cache.Retain.{Looked, Left, get_lem, retain_only_lem}

abbrev one : Key
one = ("film", "1")

abbrev two : Key
two = ("film", "2")

abbrev stored : LoadedCache ℕ
stored = record {
  entries =
      (one, record { asset = 7; weight = 3; last_used = 1 })
      ∷ (two, record { asset = 8; weight = 4; last_used = 2 })
      ∷ [];
  total_weight = 7;
  budget = 10;
  clock = 2;
}

stored-IsValid : IsValid stored
stored-IsValid = record {
  total_is = refl;
  bounded = omega arith;
  distinct = ((refl, tt), (tt, tt));
}

get_lem_example : (c' : LoadedCache ℕ) × (get one stored ≡ ok (some 7, c')) × Looked one stored c'
unfolding find
get_lem_example = get_lem one stored stored-IsValid (omega arith)

-- At the last tick of the clock, a lookup and an insertion panic.
abbrev last_tick : LoadedCache ℕ
last_tick = record stored { clock = 18446744073709551615 }

get-last_tick : get one last_tick ≡ panic
unfolding get
get-last_tick = refl

insert-last_tick : insert one 9 5 last_tick ≡ panic
unfolding insert
insert-last_tick = refl

insert-Inserted_example :
    (c' : LoadedCache ℕ) × (insert ("film", "3") 9 5 stored ≡ ok c')
    × Inserted ("film", "3") 9 5 stored c'
insert-Inserted_example =
    insert-Inserted ("film", "3") 9 5 stored stored-IsValid (omega arith) (omega arith)
      (omega arith)

evict-Evicted_example : Runs (evict 3 5) 5 stored
evict-Evicted_example =
    evict-Evicted 3 5 stored (omega arith) stored-IsValid (omega arith) (omega arith)

retain_only_lem_example :
    (c' : LoadedCache ℕ) × (retain_only "film" (some "2") stored ≡ ok c')
    × IsValid c'
    × ((j : Key) → Left j (other_version "film" (some "2") j) stored c')
retain_only_lem_example = retain_only_lem "film" (some "2") stored stored-IsValid

-- Two insertions, a lookup, an insertion that is refused, and the removal of another version.
abbrev calls : List (Call ℕ)
calls =
    store one 7 3
    ∷ store two 8 4
    ∷ look one
    ∷ store ("clip", "1") 9 11
    ∷ retain "film" (some "2")
    ∷ []

after_calls-new_example :
    (c : LoadedCache ℕ) × (after_calls calls (new 10) ≡ ok c) × IsValid c × (c.budget ≡ 10)
after_calls-new_example = after_calls-new calls 10 (omega arith) (omega arith)
