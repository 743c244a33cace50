-- ===== src/Registry/Cache/Histories.antt =====
-- The cache of src/registry/cache.rs through any run of its operations.
use segmentor.Common.{
  ℕ, ◌+◌, ◌<◌, ◌^◌, ◌≡◌, refl, ◌∙◌, true, Option, List, [], ◌∷◌, ltb, length, arith, String,
  Bool-cases, inl, inr, ltb→ge,
}
use segmentor.Error.{Result, ok, ◌>>=◌}
use segmentor.Registry.Cache.{Key, LoadedCache, new, get, insert, retain_only}
use segmentor.Registry.Cache.Evict.{IsValid}
use segmentor.Registry.Cache.Laws.{insert-Inserted}
use segmentor.Registry.Cache.Steady.{retain_only-IsSteady, Ticks, insert-Ticks}
use segmentor.Registry.Cache.Retain.{get_lem, retain_only_lem}

-- A call of the cache; a stored asset comes with its weight.
pub data Call (A : Type 0) : Type 0 where
  look : Key → Call A
  store : Key → A → ℕ → Call A
  retain : String → Option String → Call A

module _ {A : Type 0} where
  abbrev pub after_call : Call A → LoadedCache A → Result (LoadedCache A)
  after_call (look k) c = get k c >>= λ found. ok found.1
  after_call (store k asset weight) c = insert k asset weight c
  after_call (retain id keep) c = retain_only id keep c

  abbrev pub after_calls : List (Call A) → LoadedCache A → Result (LoadedCache A)
  after_calls [] c = ok c
  after_calls (call ∷ calls) c = after_call call c >>= λ c'. after_calls calls c'

  insert-heavy :
      (k : Key) (asset : A) (weight : ℕ) (c : LoadedCache A)
      → ltb c.budget weight ≡ true
      → insert k asset weight c ≡ ok c
  unfolding insert
  insert-heavy k asset weight c heavy = rw heavy refl

  -- What a call makes of a cache.
  record Called (c c' : LoadedCache A) : Type 0 where
    valid : IsValid c'
    ticks : Ticks c c'

  abbrev Ends : Call A → LoadedCache A → Type 0
  Ends call c = (c' : LoadedCache A) × (after_call call c ≡ ok c') × Called c c'

  store-Ends :
      (k : Key) (asset : A) (weight : ℕ) (c : LoadedCache A)
      → IsValid c
      → c.budget < 2 ^ 63
      → c.clock + 1 < 2 ^ 64
      → Ends (store k asset weight) c
  store-Ends k asset weight c v b t = elim (Bool-cases (ltb c.budget weight)) [
    | inl heavy ↦
        (c, insert-heavy k asset weight c heavy, record { valid = v; ticks = (refl, omega arith) })
    | inr light ↦
        let (c', runs, h) = insert-Inserted k asset weight c v (ltb→ge c.budget weight light) b t in
        (
          c',
          runs,
          record { valid = h.valid; ticks = (insert-Ticks k asset weight c).holds c' runs },
        )
  ]

  after_call-Ends :
      (call : Call A) (c : LoadedCache A)
      → IsValid c
      → c.budget < 2 ^ 63
      → c.clock + 1 < 2 ^ 64
      → Ends call c
  after_call-Ends (look k) c v b t =
      let (c', runs, h) = get_lem k c v t in
      (
        c',
        rw runs refl,
        record { valid = h.valid; ticks = (h.budget_is, omega (arith, h.clock_is)) },
      )
  after_call-Ends (store k asset weight) c v b t = store-Ends k asset weight c v b t
  after_call-Ends (retain id keep) c v b t =
      let (c', runs, valid, _) = retain_only_lem id keep c v in
      let steady = (retain_only-IsSteady id keep c).holds c' runs in
      (
        c',
        runs,
        record { valid = valid; ticks = (steady.budget_is, omega (arith, steady.clock_is)) },
      )

  after_calls-IsValid :
      (calls : List (Call A)) (c : LoadedCache A)
      → IsValid c
      → c.budget < 2 ^ 63
      → c.clock + length calls < 2 ^ 64
      → (c' : LoadedCache A) × (after_calls calls c ≡ ok c') × IsValid c' × (c'.budget ≡ c.budget)
  after_calls-IsValid [] c v b t = (c, refl, v, refl)
  after_calls-IsValid (call ∷ calls) c v b t =
      let (c1, runs, h) = after_call-Ends call c v b (omega arith) in
      let (c2, rest, valid, same) =
        after_calls-IsValid calls c1 h.valid (omega (arith, h.ticks.0))
          (omega (arith, h.ticks.1)) in
      (c2, rw runs rest, valid, same ∙ h.ticks.0)

  -- Any run of fewer than 2 ^ 64 lookups, insertions and removals of an asset's other versions from
  -- a new cache with a budget below 2 ^ 63 ends without an overflow or a failure, in a valid cache
  -- of that budget: the total is the sum of the weights and within the budget, and no key stands
  -- twice.
  pub after_calls-new :
      (calls : List (Call A)) (budget : ℕ)
      → budget < 2 ^ 63
      → length calls < 2 ^ 64
      → (c : LoadedCache A) × (after_calls calls (new budget) ≡ ok c)
        × IsValid c
        × (c.budget ≡ budget)
  unfolding new
  after_calls-new calls budget b t =
      after_calls-IsValid calls (new budget)
        (record { total_is = refl; bounded = omega arith; distinct = tt }) b (omega arith)
