-- ===== src/Registry/Cache/Evict.antt =====
-- The weight of the cache, and the eviction loop of src/registry/cache.rs.
use segmentor.Common.{
  ℕ, suc, ◌+◌, ◌≤◌, ◌≡◌, refl, Bool, true, false, Option, none, some, [], ◌∷◌, ltb, if◌then◌else◌,
  length, arith, eq_iff, ◌⊎◌, inl, inr, Bool-cases, ◌∙◌, ap,
}
use segmentor.Error.{ok}
use segmentor.Registry.Cache.{
  Key, Entry, Entries, LoadedCache, find, without, oldest_of, subtract, remove_key, same_key,
}

pub same_key_refl : (k : Key) → same_key k k ≡ true
same_key_refl (a, b) = ground (arith, eq_iff a a, eq_iff b b)

pub same_key_eq : (k j : Key) → same_key k j ≡ true → k ≡ j
same_key_eq (a, b) (c, d) h = ground (arith, eq_iff a c, eq_iff b d)

pub same_key_comm : (k j : Key) → same_key k j ≡ same_key j k
same_key_comm (a, b) (c, d) = ground (arith, eq_iff a c, eq_iff c a, eq_iff b d, eq_iff d b)

module _ {A : Type 0} where
  abbrev pub weight_of : Option (Entry A) → ℕ
  weight_of none = 0
  weight_of (some e) = e.weight

  abbrev pub weights : Entries A → ℕ
  weights [] = 0
  weights (row ∷ rows) = row.1.weight + weights rows

  pub weights-without :
      (k : Key) (es : Entries A) → weights (without k es) + weight_of (find k es) ≡ weights es
  unfolding find without
  weights-without k [] = omega arith
  weights-without k (row ∷ rows) = ground (arith, weights-without k rows)

  -- No entry but the one listed first has its key.
  abbrev pub Lacks : Key → Entries A → Type 0
  Lacks k [] = Unit
  Lacks k (row ∷ rows) = (same_key row.0 k ≡ false) × Lacks k rows

  abbrev pub Distinct : Entries A → Type 0
  Distinct [] = Unit
  Distinct (row ∷ rows) = Lacks row.0 rows × Distinct rows

  -- The total is the weight of the entries and within the budget, and no key stands twice.
  pub record IsValid (c : LoadedCache A) : Type 0 where
    pub total_is : c.total_weight ≡ weights c.entries
    pub bounded : c.total_weight ≤ c.budget
    pub distinct : Distinct c.entries

  abbrev pub In : Key × Entry A → Entries A → Type 0
  In r [] = ⊥
  In r (x ∷ xs) = (x ≡ r) ⊎ In r xs

  kept_either :
      (b : Bool) (r best row : Key × Entry A) (rows : Entries A)
      → In r ((if b then row else best) ∷ rows)
      → In r (best ∷ row ∷ rows)
  kept_either true r best row rows i = inr i
  kept_either false r best row rows (inl e) = inl e
  kept_either false r best row rows (inr i) = inr (inr i)

  pub oldest_of-In :
      (best : Key × Entry A) (rows : Entries A) → In (oldest_of best rows) (best ∷ rows)
  unfolding oldest_of
  oldest_of-In best [] = inl refl
  oldest_of-In best (row ∷ rows) =
      kept_either (ltb row.1.last_used best.1.last_used) (oldest_of best (row ∷ rows)) best row rows
        (oldest_of-In (if ltb row.1.last_used best.1.last_used then row else best) rows)

  -- No entry was used before the one that `oldest_of` picks.
  abbrev pub UsedFrom : ℕ → Entries A → Type 0
  UsedFrom t [] = Unit
  UsedFrom t (row ∷ rows) = (t ≤ row.1.last_used) × UsedFrom t rows

  pub oldest_of-UsedFrom :
      (best : Key × Entry A) (rows : Entries A)
      → UsedFrom (oldest_of best rows).1.last_used (best ∷ rows)
  unfolding oldest_of
  oldest_of-UsedFrom best [] = (omega arith, tt)
  oldest_of-UsedFrom best (row ∷ rows) =
      ground (arith, oldest_of-UsedFrom row rows, oldest_of-UsedFrom best rows)

  pub find-In :
      (r : Key × Entry A) (rows : Entries A) → Distinct rows → In r rows → find r.0 rows ≡ some r.1
  unfolding find
  find-In r [] d i = absurd i
  find-In r (x ∷ xs) d (inl e) = rw (e, same_key_refl r.0)
  find-In r (x ∷ xs) d (inr i) = rw (lacking x.0 r xs d.0 i) (find-In r xs d.1 i)
    where
      lacking :
          (k : Key) (r : Key × Entry A) (xs : Entries A)
          → Lacks k xs
          → In r xs
          → same_key k r.0 ≡ false
      lacking k r [] l i = absurd i
      lacking k r (x ∷ xs) l (inl e) = same_key_comm k r.0 ∙ (rw e at l.0)
      lacking k r (x ∷ xs) l (inr i) = lacking k r xs l.1 i

  pub length-without :
      (k : Key) (es : Entries A) (e : Entry A)
      → find k es ≡ some e
      → suc (length (without k es)) ≡ length es
  unfolding find without
  length-without k [] e h = cc
  length-without k (row ∷ rows) e h = ground (arith, length-without k rows e)

  find-Lacks : (k : Key) (es : Entries A) → Lacks k es → find k es ≡ none
  unfolding find
  find-Lacks k [] l = refl
  find-Lacks k (row ∷ rows) l = rw l.0 (find-Lacks k rows l.1)

  pub Lacks-without : (k j : Key) (es : Entries A) → Lacks j es → Lacks j (without k es)
  unfolding without
  Lacks-without k j [] l = tt
  Lacks-without k j (row ∷ rows) l = elim (Bool-cases (same_key row.0 k)) [
    | inl h ↦ rw h l.1
    | inr h ↦ rw h (l.0, Lacks-without k j rows l.1)
  ]

  pub Distinct-without : (k : Key) (es : Entries A) → Distinct es → Distinct (without k es)
  unfolding without
  Distinct-without k [] d = tt
  Distinct-without k (row ∷ rows) d = elim (Bool-cases (same_key row.0 k)) [
    | inl h ↦ rw h d.1
    | inr h ↦ rw h (Lacks-without k row.0 rows d.0, Distinct-without k rows d.1)
  ]

  -- The cases of `find-without`: the entry that leaves stands first, or it does not.
  behind_first :
      (k j : Key) (e : Entry A) (rows : Entries A)
      → find k rows ≡ none
      → find j rows ≡ (if same_key k j then none else if same_key k j then some e else find j rows)
  behind_first k j e rows gone = elim (Bool-cases (same_key k j)) [
    | inl h ↦ rw h (rw (same_key_eq k j h) at gone)
    | inr h ↦ rw h
  ]

  first_kept :
      (k j : Key) (row : Key × Entry A) (rows : Entries A)
      → same_key row.0 k ≡ false
      → find j (without k rows) ≡ (if same_key k j then none else find j rows)
      → (if same_key row.0 j then some row.1 else find j (without k rows))
        ≡ (if same_key k j then none else if same_key row.0 j then some row.1 else find j rows)
  first_kept k j row rows h ih = elim (Bool-cases (same_key k j)) [
    | inl e ↦
        let other : same_key row.0 j ≡ false = rw (← same_key_eq k j e) h in
        rw (other, e) (rw e at ih)
    | inr e ↦ rw e (ap (λ r. if same_key row.0 j then some row.1 else r) (rw e at ih))
  ]

  pub find-without :
      (k j : Key) (es : Entries A)
      → Distinct es
      → find j (without k es) ≡ (if same_key k j then none else find j es)
  unfolding find without
  find-without k j [] d = ground arith
  find-without k j (row ∷ rows) d = elim (Bool-cases (same_key row.0 k)) [
    | inl h ↦
        let e = same_key_eq row.0 k h in
        let gone : find k rows ≡ none = rw (← e) (find-Lacks row.0 rows d.0) in
        rw h (rw e (behind_first k j row.1 rows gone))
    | inr h ↦ rw h (first_kept k j row rows h (find-without k j rows d.1))
  ]

  pub remove_key_lem :
      (k : Key) (c : LoadedCache A)
      → c.total_weight ≡ weights c.entries
      → remove_key k c
        ≡ ok (record c {
          entries = without k c.entries;
          total_weight = weights (without k c.entries);
        })
  unfolding remove_key subtract
  remove_key_lem k c h = ground (arith, weights-without k c.entries)
