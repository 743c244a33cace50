-- ===== src/Registry/Cache/Laws.antt =====
-- The insertion of src/registry/cache.rs: it ends, keeps the budget and evicts the least recently
-- used entries first.
use segmentor.Common.{
  ℕ, zero, suc, ◌+◌, ◌≤◌, ◌<◌, ◌^◌, ◌≡◌, refl, sym, ap, ◌∙◌, true, false, none, some, [], ◌∷◌, leb,
  length, arith, leb→le, leb→gt, Bool-cases, Option-cases, inl, inr, ◌⊎◌, lt→ltb, ge→ltb,
}
use segmentor.Error.{Result, ok, ◌>>=◌, u64_mod}
use segmentor.Registry.Cache.{
  Key, Entry, Entries, LoadedCache, find, without, oldest, oldest_of, remove_key, evict, insert,
  same_key,
}
use segmentor.Registry.Cache.Evict.{
  weights, IsValid, Lacks, Distinct, find-without, find-In, oldest_of-In, oldest_of-UsedFrom,
  UsedFrom, length-without, remove_key_lem, Distinct-without, weights-without, same_key_eq,
  same_key_refl,
}

module _ {A : Type 0} where
  -- What the eviction loop makes of a cache.
  pub record Evicted (weight : ℕ) (c c' : LoadedCache A) : Type 0 where
    pub valid : IsValid c'
    pub room : c'.total_weight + weight ≤ c.budget
    pub budget_is : c'.budget ≡ c.budget
    pub survivors : (j : Key) (f : Entry A) → find j c'.entries ≡ some f → find j c.entries ≡ some f
    pub least_recent :
        (j i : Key) (e f : Entry A)
        → find j c.entries ≡ some e
        → find j c'.entries ≡ none
        → find i c'.entries ≡ some f
        → e.last_used ≤ f.last_used

  Evicted-refl :
      (weight : ℕ) (c : LoadedCache A)
      → IsValid c
      → c.total_weight + weight ≤ c.budget
      → Evicted weight c c
  Evicted-refl weight c v h = record {
    valid = v;
    room = h;
    budget_is = refl;
    survivors = λ j f e. e;
    least_recent = λ j i e f p q r. cc (p, q);
  }

  find-UsedFrom :
      (t : ℕ) (es : Entries A) (j : Key) (e : Entry A)
      → UsedFrom t es
      → find j es ≡ some e
      → t ≤ e.last_used
  unfolding find
  find-UsedFrom t [] j e u h = cc
  find-UsedFrom t (row ∷ rows) j e u h = ground (arith, find-UsedFrom t rows j e u.1)

  -- One round: the entry of key `k`, used no later than any other, leaves.
  Evicted-step :
      (weight : ℕ) (c c1 c' : LoadedCache A) (k : Key) (m : Entry A)
      → Distinct c.entries
      → c1.entries ≡ without k c.entries
      → c1.budget ≡ c.budget
      → find k c.entries ≡ some m
      → UsedFrom m.last_used c.entries
      → Evicted weight c1 c'
      → Evicted weight c c'
  Evicted-step weight c c1 c' k m d same b found least ev = record {
    valid = ev.valid;
    room = omega (arith, ev.room, b);
    budget_is = ev.budget_is ∙ b;
    survivors = λ j f e. still j f (ev.survivors j f e);
    least_recent = λ j i e f p q r. order j i e f p q r (Bool-cases (same_key k j));
  }
    where
      still : (j : Key) (f : Entry A) → find j c1.entries ≡ some f → find j c.entries ≡ some f
      still j f e = ground (arith, (rw (same, find-without k j c.entries d) at e))

      order :
          (j i : Key) (e f : Entry A)
          → find j c.entries ≡ some e
          → find j c'.entries ≡ none
          → find i c'.entries ≡ some f
          → (same_key k j ≡ true) ⊎ (same_key k j ≡ false)
          → e.last_used ≤ f.last_used
      order j i e f p q r (inl h) =
          let here : find k c.entries ≡ some e = rw (same_key_eq k j h) p in
          let same_entry : m ≡ e = cc (found, here) in
          rw (← same_entry)
            (find-UsedFrom m.last_used c.entries i f least (still i f (ev.survivors i f r)))
      order j i e f p q r (inr h) =
          ev.least_recent j i e f (rw same (find-without k j c.entries d ∙ rw h p)) q r

  -- What `oldest` picks, where there is an entry.
  oldest_cases :
      (es : Entries A)
      → Distinct es
      → (es ≡ [])
        ⊎ ((m : Key × Entry A) × (oldest es ≡ some m.0)
            × (find m.0 es ≡ some m.1)
            × UsedFrom m.1.last_used es)
  unfolding oldest
  oldest_cases [] d = inl refl
  oldest_cases (row ∷ rows) d =
      let m = oldest_of row rows in
      inr (m, refl, find-In m (row ∷ rows) d (oldest_of-In row rows), oldest_of-UsedFrom row rows)

  abbrev after_removal : (k : Key) → LoadedCache A → LoadedCache A
  after_removal k c = record c {
    entries = without k c.entries;
    total_weight = weights (without k c.entries);
  }

  after_removal-IsValid : (k : Key) (c : LoadedCache A) → IsValid c → IsValid (after_removal k c)
  after_removal-IsValid k c v = record {
    total_is = refl;
    bounded = omega (arith, weights-without k c.entries, v.total_is, v.bounded);
    distinct = Distinct-without k c.entries v.distinct;
  }

  -- One round of the loop, `again` being what the rounds behind it do.
  abbrev pub Runs : (LoadedCache A → Result (LoadedCache A)) → ℕ → LoadedCache A → Type 0
  Runs again weight c = (c' : LoadedCache A) × (again c ≡ ok c') × Evicted weight c c'

  round_lem :
      (again : LoadedCache A → Result (LoadedCache A)) (fuel weight : ℕ) (c : LoadedCache A)
      → length c.entries ≤ fuel
      → IsValid c
      → weight ≤ c.budget
      → c.budget < c.total_weight + weight
      → ((c1 : LoadedCache A)
          → length c1.entries < fuel
          → IsValid c1
          → c1.budget ≡ c.budget
          → Runs again weight c1)
      → Runs
          (λ c. elim (oldest c.entries) [
            | none ↦ ok c
            | some k ↦ (remove_key k c >>= λ c1. again c1)
          ])
          weight
          c
  round_lem again fuel weight c h v w more rec = elim (oldest_cases c.entries v.distinct) [
    | inl e ↦ absurd (omega (arith, v.total_is, ap weights e))
    | inr (m, o, found, least) ↦
        let c1 = after_removal m.0 c in
        let shorter = length-without m.0 c.entries m.1 found in
        let (c', runs, ev) = rec c1 (omega (arith, shorter)) (after_removal-IsValid m.0 c v) refl in
        (
          c',
          rw (o, remove_key_lem m.0 c v.total_is) runs,
          Evicted-step weight c c1 c' m.0 m.1 v.distinct refl refl found least ev,
        )
  ]

  -- With more rounds than entries, from a valid cache with a budget below 2 ^ 63 that is at least
  -- the weight, the eviction loop ends with a valid cache of the same budget that has room for the
  -- weight; the entries left are unchanged, and each evicted one was used no later than each one
  -- left.
  pub evict-Evicted :
      (fuel weight : ℕ) (c : LoadedCache A)
      → length c.entries < fuel
      → IsValid c
      → weight ≤ c.budget
      → c.budget < 2 ^ 63
      → Runs (evict fuel weight) weight c
  unfolding evict
  evict-Evicted zero weight c h v w b = absurd (omega arith)
  evict-Evicted (suc fuel) weight c h v w b =
      let sum = lt→ltb (c.total_weight + weight) u64_mod (omega (arith, v.bounded)) in
      elim (Bool-cases (leb (c.total_weight + weight) c.budget)) [
        | inl fit ↦ (c, rw (sum, fit), Evicted-refl weight c v (leb→le _ _ fit))
        | inr more ↦
            rw (sum, more)
              (round_lem (evict fuel weight) fuel weight c (omega arith) v w (leb→gt _ _ more)
                λ c1 h1 v1 b1. evict-Evicted fuel weight c1 h1 v1 (omega arith) (omega arith))
      ]

  none-Lacks : (k : Key) (es : Entries A) → find k es ≡ none → Lacks k es
  unfolding find
  none-Lacks k [] e = tt
  none-Lacks k (row ∷ rows) e = elim (Bool-cases (same_key row.0 k)) [
    | inl h ↦ cc (rw h at e)
    | inr h ↦ (h, none-Lacks k rows (rw h at e))
  ]

  -- What an insertion makes of a cache, for an asset that fits the budget.
  pub record Inserted (k : Key) (asset : A) (weight : ℕ) (c c' : LoadedCache A) : Type 0 where
    pub valid : IsValid c'
    pub budget_is : c'.budget ≡ c.budget
    pub present :
        find k c'.entries
        ≡ some (record { asset = asset; weight = weight; last_used = c.clock + 1 })
    pub survivors :
        (j : Key) (f : Entry A)
        → same_key k j ≡ false
        → find j c'.entries ≡ some f
        → find j c.entries ≡ some f
    pub least_recent :
        (j i : Key) (e f : Entry A)
        → same_key k j ≡ false
        → same_key k i ≡ false
        → find j c.entries ≡ some e
        → find j c'.entries ≡ none
        → find i c'.entries ≡ some f
        → e.last_used ≤ f.last_used

  module _ (k : Key) (asset : A) (weight : ℕ) (c c2 : LoadedCache A) where
    abbrev placed : LoadedCache A
    placed = record c2 {
      entries =
          (k, record { asset = asset; weight = weight; last_used = c.clock + 1 }) ∷ c2.entries;
      total_weight = c2.total_weight + weight;
    }

    placed-Inserted :
        IsValid c
        → Evicted weight (after_removal k (record c { clock = c.clock + 1 })) c2
        → Inserted k asset weight c placed
    unfolding find
    placed-Inserted v ev = record {
      valid = record {
        total_is = omega (arith, ev.valid.total_is);
        bounded = omega (arith, ev.room, ev.budget_is);
        distinct = (none-Lacks k c2.entries gone, ev.valid.distinct);
      };
      budget_is = ev.budget_is;
      present = rw (same_key_refl k);
      survivors = λ j f h e. before j f h (ev.survivors j f (rw h at e));
      least_recent = λ j i e f hj hi p q r.
          ev.least_recent j i e f (find-without k j c.entries v.distinct ∙ rw hj p) (rw hj at q)
            (rw hi at r);
    }
      where
        before :
            (j : Key) (f : Entry A)
            → same_key k j ≡ false
            → find j (without k c.entries) ≡ some f
            → find j c.entries ≡ some f
        before j f h e = rw h at (sym (find-without k j c.entries v.distinct) ∙ e)

        gone : find k c2.entries ≡ none
        gone = elim (Option-cases (find k c2.entries)) [
          | inl e ↦ e
          | inr (f, e) ↦
              cc (ev.survivors k f e, find-without k k c.entries v.distinct, same_key_refl k)
        ]

  -- In a valid cache with a budget below 2 ^ 63 and a clock that is not at its last tick, 2 ^ 64 -
  -- 1, an asset that fits the budget is stored: the insertion ends without an overflow, the entry
  -- is found under its key with the next tick, the cache stays valid (the total is the sum of the
  -- weights and within the budget), no other entry changes, and an evicted entry was used no later
  -- than any other that was kept.
  pub insert-Inserted :
      (k : Key) (asset : A) (weight : ℕ) (c : LoadedCache A)
      → IsValid c
      → weight ≤ c.budget
      → c.budget < 2 ^ 63
      → c.clock + 1 < 2 ^ 64
      → (c' : LoadedCache A) × (insert k asset weight c ≡ ok c') × Inserted k asset weight c c'
  unfolding insert
  insert-Inserted k asset weight c v w b t =
      let c0 : LoadedCache A = record c { clock = c.clock + 1 } in
      let c1 = after_removal k c0 in
      let v0 : IsValid c0 = record {
        total_is = v.total_is;
        bounded = v.bounded;
        distinct = v.distinct;
      } in
      let v1 = after_removal-IsValid k c0 v0 in
      let (c2, runs, ev) = evict-Evicted (suc (length c1.entries)) weight c1 (omega arith) v1 w b in
      let sum = lt→ltb (c2.total_weight + weight) u64_mod (omega (arith, ev.room)) in
      (
        placed k asset weight c c2,
        rw (
          ge→ltb c.budget weight w,
          lt→ltb (c.clock + 1) u64_mod t,
          remove_key_lem k c0 v.total_is,
          runs,
          sum,
        ),
        placed-Inserted k asset weight c c2 v ev,
      )
