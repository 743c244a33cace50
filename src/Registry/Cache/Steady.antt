-- ===== src/Registry/Cache/Steady.antt =====
-- What the operations of src/registry/cache.rs do to the budget and the clock.
use segmentor.Common.{
  ℕ, zero, suc, ◌+◌, ◌≤◌, ◌≡◌, refl, ◌∙◌, Option, List, [], ◌∷◌, ltb, leb, length, arith, String,
  none, some,
}
use segmentor.Error.{ok, ◌>>=◌, Ensures, ensures-ok, ensures-bind, ensures-if, ensures-panic}
use segmentor.Media.Tables.{plus}
use segmentor.Registry.Cache.{
  Key, LoadedCache, insert, retain_only, remove_key, remove_keys, evict, stale_keys, find, subtract,
  oldest,
}

plus-one : (n m : ℕ) → plus n 1 ≡ ok m → m ≡ n + 1
plus-one n m e = ground arith

module _ {A : Type 0} where
  -- The budget and the clock stay.
  pub record IsSteady (c c' : LoadedCache A) : Type 0 where
    pub budget_is : c'.budget ≡ c.budget
    pub clock_is : c'.clock ≡ c.clock

  IsSteady-refl : (c : LoadedCache A) → IsSteady c c
  IsSteady-refl c = record { budget_is = refl; clock_is = refl }

  IsSteady-trans : {a b c : LoadedCache A} → IsSteady a b → IsSteady b c → IsSteady a c
  IsSteady-trans h k = record {
    budget_is = k.budget_is ∙ h.budget_is;
    clock_is = k.clock_is ∙ h.clock_is;
  }

  remove_key-IsSteady : (k : Key) (c : LoadedCache A) → Ensures (remove_key k c) (IsSteady c)
  unfolding remove_key
  remove_key-IsSteady k c =
      ensures-bind (subtract c.total_weight (find k c.entries))
        λ total _. ensures-ok (record { budget_is = refl; clock_is = refl })

  remove_keys-IsSteady :
      (ks : List Key) (c : LoadedCache A) → Ensures (remove_keys ks c) (IsSteady c)
  unfolding remove_keys
  remove_keys-IsSteady [] c = ensures-ok (IsSteady-refl c)
  remove_keys-IsSteady (k ∷ ks) c = ensures-bind (remove_key k c) λ c1 e. record {
    holds = λ c2 h.
        IsSteady-trans ((remove_key-IsSteady k c).holds c1 e)
          ((remove_keys-IsSteady ks c1).holds c2 h);
  }

  pub retain_only-IsSteady :
      (id : String) (keep : Option String) (c : LoadedCache A)
      → Ensures (retain_only id keep c) (IsSteady c)
  unfolding retain_only
  retain_only-IsSteady id keep c = remove_keys-IsSteady (stale_keys id keep c.entries) c

  evict-IsSteady :
      (fuel weight : ℕ) (c : LoadedCache A) → Ensures (evict fuel weight c) (IsSteady c)
  unfolding evict
  evict-IsSteady zero weight c = ensures-panic
  evict-IsSteady (suc fuel) weight c = ensures-bind (plus c.total_weight weight) λ sum _.
      ensures-if (leb sum c.budget) (λ _. ensures-ok (IsSteady-refl c))
        (λ _. round (oldest c.entries) (λ c1. evict-IsSteady fuel weight c1))
    where
      round :
          (o : Option Key)
          → ((c1 : LoadedCache A) → Ensures (evict fuel weight c1) (IsSteady c1))
          → Ensures
              (elim o [ none ↦ ok c | some k ↦ (remove_key k c >>= λ c1. evict fuel weight c1) ])
              (IsSteady c)
      round none again = ensures-ok (IsSteady-refl c)
      round (some k) again = ensures-bind (remove_key k c) λ c1 e. record {
        holds =
            λ c2 h. IsSteady-trans ((remove_key-IsSteady k c).holds c1 e) ((again c1).holds c2 h);
      }

  -- The clock of the cache ticks once at most, and its budget stays.
  abbrev pub Ticks : LoadedCache A → LoadedCache A → Type 0
  Ticks c c' = (c'.budget ≡ c.budget) × (c'.clock ≤ c.clock + 1)

  pub insert-Ticks :
      (k : Key) (asset : A) (weight : ℕ) (c : LoadedCache A)
      → Ensures (insert k asset weight c) (Ticks c)
  unfolding insert
  insert-Ticks k asset weight c =
      ensures-if (ltb c.budget weight) (λ _. ensures-ok (refl, omega arith))
        (λ _. ensures-bind (plus c.clock 1) λ clock e1.
          ensures-bind (remove_key k (record c { clock = clock })) λ c1 e2.
            ensures-bind (evict (suc (length c1.entries)) weight c1) λ c2 e3.
              ensures-bind (plus c2.total_weight weight) λ total _.
                let tick : clock ≡ c.clock + 1 = plus-one c.clock clock e1 in
                let h = (remove_key-IsSteady k (record c { clock = clock })).holds c1 e2 in
                let g = (evict-IsSteady (suc (length c1.entries)) weight c1).holds c2 e3 in
                let same : c2.clock ≡ clock = g.clock_is ∙ h.clock_is in
                let least : c2.clock ≤ c.clock + 1 = omega (arith, same, tick) in
                ensures-ok (g.budget_is ∙ h.budget_is, least))
