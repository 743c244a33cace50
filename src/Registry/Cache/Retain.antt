-- ===== src/Registry/Cache/Retain.antt =====
-- `get` and `retain_only` of src/registry/cache.rs.
use segmentor.Common.{
  ℕ, ◌+◌, ◌<◌, ◌^◌, ◌≡◌, lt→ltb, refl, sym, ap, ◌∙◌, Bool, true, false, Option, none, some, List,
  [], ◌∷◌, ◌||◌, if◌then◌else◌, arith, Bool-cases, inl, inr, String,
}
use mathlib.Core.Bool.{false≢true}
use segmentor.Error.{ok, u64_mod}
use segmentor.Registry.Cache.{
  Key, Entry, Entries, LoadedCache, find, without, remove_keys, retain_only, stale_keys,
  other_version, get, touch, same_key, asset_of,
}
use segmentor.Registry.Cache.Evict.{
  weights, IsValid, Distinct, Lacks, find-without, remove_key_lem, Distinct-without,
  weights-without, same_key_eq, same_key_refl, same_key_comm,
}

abbrev listed : Key → List Key → Bool
listed j [] = false
listed j (k ∷ ks) = same_key k j || listed j ks

module _ {A : Type 0} where
  abbrev pub touched : ℕ → Option (Entry A) → Option (Entry A)
  touched clock none = none
  touched clock (some e) = some (record e { last_used = clock })

  touch_first :
      (k j : Key) (b : Bool) (clock : ℕ) (e : Entry A) (o : Option (Entry A))
      → (if b then some (record e { last_used = clock }) else o)
        ≡ (if b then touched clock (if b then some e else o) else if b then some e else o)
  touch_first k j true clock e o = refl
  touch_first k j false clock e o = refl

  touch_later :
      (here there : Bool) (clock : ℕ) (e : Entry A) (o o' : Option (Entry A))
      → (there ≡ true → here ≡ false)
      → o' ≡ (if here then touched clock o else o)
      → (if there then some e else o') ≡ (
          if here then touched clock (if there then some e else o) else if there then some e else o)
  touch_later true true clock e o o' h ih = absurd (false≢true (sym (h refl)))
  touch_later false true clock e o o' h ih = refl
  touch_later true false clock e o o' h ih = ih
  touch_later false false clock e o o' h ih = ih

  find-touch :
      (k j : Key) (clock : ℕ) (es : Entries A)
      → find j (touch k clock es) ≡ (if same_key k j then touched clock (find j es) else find j es)
  unfolding find touch
  find-touch k j clock [] = ground arith
  find-touch k j clock (row ∷ rows) = elim (Bool-cases (same_key row.0 k)) [
    | inl h ↦
        rw h (rw (same_key_eq row.0 k h) (touch_first k j (same_key k j) clock row.1 (find j rows)))
    | inr h ↦ rw h (
        touch_later (same_key k j) (same_key row.0 j) clock row.1 (find j rows)
          (find j (touch k clock rows))
          (λ e. sym (same_key_comm row.0 k ∙ ap (same_key k) (same_key_eq row.0 j e)) ∙ h)
          (find-touch k j clock rows))
  ]

  weights-touch : (k : Key) (clock : ℕ) (es : Entries A) → weights (touch k clock es) ≡ weights es
  unfolding touch
  weights-touch k clock [] = refl
  weights-touch k clock (row ∷ rows) = ground (arith, weights-touch k clock rows)

  Lacks-touch : (k j : Key) (clock : ℕ) (es : Entries A) → Lacks j es → Lacks j (touch k clock es)
  unfolding touch
  Lacks-touch k j clock [] l = tt
  Lacks-touch k j clock (row ∷ rows) l = elim (Bool-cases (same_key row.0 k)) [
    | inl h ↦ rw h l
    | inr h ↦ rw h (l.0, Lacks-touch k j clock rows l.1)
  ]

  Distinct-touch :
      (k : Key) (clock : ℕ) (es : Entries A) → Distinct es → Distinct (touch k clock es)
  unfolding touch
  Distinct-touch k clock [] d = tt
  Distinct-touch k clock (row ∷ rows) d = elim (Bool-cases (same_key row.0 k)) [
    | inl h ↦ rw h d
    | inr h ↦ rw h (Lacks-touch k row.0 clock rows d.0, Distinct-touch k clock rows d.1)
  ]

  -- What a lookup makes of a cache.
  pub record Looked (k : Key) (c c' : LoadedCache A) : Type 0 where
    pub valid : IsValid c'
    pub budget_is : c'.budget ≡ c.budget
    pub clock_is : c'.clock ≡ c.clock + 1
    pub used :
        (j : Key)
        → find j c'.entries
          ≡ (if same_key k j then touched (c.clock + 1) (find j c.entries) else find j c.entries)

  -- In a valid cache with a clock that is not at its last tick, 2 ^ 64 - 1, a lookup ends without
  -- an overflow and returns the asset that is found under the key, if there is one; the clock
  -- ticks, the last use of that entry is the new tick, every other entry is as it was, and the
  -- cache stays valid.
  pub get_lem :
      (k : Key) (c : LoadedCache A)
      → IsValid c
      → c.clock + 1 < 2 ^ 64
      → (c' : LoadedCache A) × (get k c ≡ ok (asset_of (find k c.entries), c')) × Looked k c c'
  unfolding get
  get_lem k c v t = (
    record c { clock = c.clock + 1; entries = touch k (c.clock + 1) c.entries },
    rw (lt→ltb (c.clock + 1) u64_mod t) refl,
    record {
      valid = record {
        total_is = v.total_is ∙ sym (weights-touch k (c.clock + 1) c.entries);
        bounded = v.bounded;
        distinct = Distinct-touch k (c.clock + 1) c.entries v.distinct;
      };
      budget_is = refl;
      clock_is = refl;
      used = λ j. find-touch k j (c.clock + 1) c.entries;
    },
  )

  abbrev pub Left : Key → Bool → LoadedCache A → LoadedCache A → Type 0
  Left j gone c c' = find j c'.entries ≡ (if gone then none else find j c.entries)

  remove_keys_lem :
      (ks : List Key) (c : LoadedCache A)
      → IsValid c
      → (c' : LoadedCache A) × (remove_keys ks c ≡ ok c')
        × IsValid c'
        × ((j : Key) → Left j (listed j ks) c c')
  unfolding remove_keys
  remove_keys_lem [] c v = (c, refl, v, λ j. refl)
  remove_keys_lem (k ∷ ks) c v =
      let c1 : LoadedCache A = record c {
        entries = without k c.entries;
        total_weight = weights (without k c.entries);
      } in
      let v1 : IsValid c1 = record {
        total_is = refl;
        bounded = omega (arith, weights-without k c.entries, v.total_is, v.bounded);
        distinct = Distinct-without k c.entries v.distinct;
      } in
      let (c', runs, v', left) = remove_keys_lem ks c1 v1 in
      (
        c',
        rw (remove_key_lem k c v.total_is) runs,
        v',
        λ j. ground (arith, left j, find-without k j c.entries v.distinct),
      )

  stale-other_version :
      (id : String) (keep : Option String) (j : Key) (es : Entries A)
      → listed j (stale_keys id keep es) ≡ true
      → other_version id keep j ≡ true
  unfolding stale_keys
  stale-other_version id keep j [] h = cc
  stale-other_version id keep j (row ∷ rows) h = elim (Bool-cases (other_version id keep row.0)) [
    | inl o ↦ elim (Bool-cases (same_key row.0 j)) [
      | inl e ↦ rw (same_key_eq row.0 j e) at o
      | inr e ↦ stale-other_version id keep j rows (rw e at (rw o at h))
    ]
    | inr o ↦ stale-other_version id keep j rows (rw o at h)
  ]

  -- The keys to remove are those of entries of other versions.
  listed-stale_keys :
      (id : String) (keep : Option String) (j : Key) (es : Entries A)
      → (if listed j (stale_keys id keep es) then none else find j es)
        ≡ (if other_version id keep j then none else find j es)
  unfolding stale_keys find
  listed-stale_keys id keep j [] = ground arith
  listed-stale_keys id keep j (row ∷ rows) = elim (Bool-cases (same_key row.0 j)) [
    | inl e ↦
        let same = same_key_eq row.0 j e in
        elim (Bool-cases (other_version id keep j)) [
          | inl o ↦ rw (same, o, same_key_refl j)
          | inr o ↦ elim (Bool-cases (listed j (stale_keys id keep rows))) [
            | inl l ↦ absurd (false≢true (sym o ∙ stale-other_version id keep j rows l))
            | inr l ↦ rw (same, o, same_key_refl j, l)
          ]
        ]
    | inr e ↦ elim (Bool-cases (other_version id keep row.0)) [
      | inl o ↦ rw (o, e) (listed-stale_keys id keep j rows)
      | inr o ↦ rw (o, e) (listed-stale_keys id keep j rows)
    ]
  ]

  -- In a valid cache, keeping one version of an asset (or none) succeeds and leaves a valid cache:
  -- every other version of the asset is gone, and every other entry is found as before.
  pub retain_only_lem :
      (id : String) (keep : Option String) (c : LoadedCache A)
      → IsValid c
      → (c' : LoadedCache A) × (retain_only id keep c ≡ ok c')
        × IsValid c'
        × ((j : Key) → Left j (other_version id keep j) c c')
  unfolding retain_only
  retain_only_lem id keep c v =
      let (c', runs, v', left) = remove_keys_lem (stale_keys id keep c.entries) c v in
      (c', runs, v', λ j. left j ∙ listed-stale_keys id keep j c.entries)
