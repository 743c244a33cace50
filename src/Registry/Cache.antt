-- ===== src/Registry/Cache.antt =====
-- src/registry/cache.rs: the loaded-asset cache, a least-recently-used cache bounded by weight.
-- The hash map is an association list without two entries of one key, in no particular order. The
-- asset is a type, with the weight that `index_bytes` gives it.
pub mod Evict
pub mod Laws
pub mod Retain
pub mod Steady
pub mod Histories
use segmentor.Common.{
  ℕ, zero, suc, ◌+◌, ◌-◌, ◌≤◌, Bool, true, false, Option, none, some, List, [], ◌∷◌, ◌&&◌, not, ltb,
  leb, if◌then◌else◌, length, String, str_eq,
}
use segmentor.Error.{Result, ok, err, panic, ◌>>=◌, ◌>>◌, expect, checked_add}
use segmentor.Media.Tables.{minus, plus}

abbrev pub Key : Type 0
Key = String × String

abbrev pub same_key : Key → Key → Bool
same_key (a, b) (c, d) = str_eq a c && str_eq b d

pub record Entry {ℓ} (A : Type ℓ) : Type ℓ where
  pub asset : A
  pub weight : ℕ
  pub last_used : ℕ

abbrev pub Entries {ℓ} : Type ℓ → Type ℓ
Entries A = List (Key × Entry A)

pub record LoadedCache {ℓ} (A : Type ℓ) : Type ℓ where
  pub entries : Entries A
  pub total_weight : ℕ
  pub budget : ℕ
  pub clock : ℕ

-- The version of `asset_id` that is not `keep`.
abbrev pub other_version : String → Option String → Key → Bool
other_version asset_id none (id, version) = str_eq id asset_id
other_version asset_id (some keep) (id, version) = str_eq id asset_id && not (str_eq version keep)

module _ {ℓ} {A : Type ℓ} where
  unfoldable pub new : ℕ → LoadedCache A
  new budget = record { entries = []; total_weight = 0; budget = budget; clock = 0 }

  -- `HashMap::get`
  unfoldable pub find : Key → Entries A → Option (Entry A)
  find k [] = none
  find k ((j, e) ∷ es) = if same_key j k then some e else find k es

  -- `HashMap::remove`, without its result
  unfoldable pub without : Key → Entries A → Entries A
  without k [] = []
  without k ((j, e) ∷ es) = if same_key j k then es else (j, e) ∷ without k es

  -- `entry.last_used = clock`
  unfoldable pub touch : Key → ℕ → Entries A → Entries A
  touch k clock [] = []
  touch k clock ((j, e) ∷ es) =
      if same_key j k then (j, record e { last_used = clock }) ∷ es else (j, e) ∷ touch k clock es

  abbrev pub asset_of : Option (Entry A) → Option A
  asset_of none = none
  asset_of (some e) = some e.asset

  -- The clock is a `u64`, so its addition panics at 2 ^ 64.
  unfoldable pub get : Key → LoadedCache A → Result (Option A × LoadedCache A)
  unfolding find touch
  get k c = do
    clock ← plus c.clock 1
    ok (asset_of (find k c.entries), record c { clock = clock; entries = touch k clock c.entries })

  -- `min_by_key(|(_, entry)| entry.last_used)`, the first of the least
  unfoldable pub oldest_of : Key × Entry A → Entries A → Key × Entry A
  oldest_of best [] = best
  oldest_of best (row ∷ rows) =
      oldest_of (if ltb row.1.last_used best.1.last_used then row else best) rows

  unfoldable pub oldest : Entries A → Option Key
  unfolding oldest_of
  oldest [] = none
  oldest (row ∷ rows) = some (oldest_of row rows).0

  -- `total_weight -= removed.weight`
  unfoldable pub subtract : ℕ → Option (Entry A) → Result ℕ
  subtract total none = ok total
  subtract total (some e) = minus total e.weight

  unfoldable pub remove_key : Key → LoadedCache A → Result (LoadedCache A)
  unfolding find without subtract
  remove_key k c = do
    total ← subtract c.total_weight (find k c.entries)
    ok (record c { entries = without k c.entries; total_weight = total })

  -- `while self.total_weight + weight > self.budget`
  unfoldable pub evict : ℕ → ℕ → LoadedCache A → Result (LoadedCache A)
  unfolding oldest remove_key
  evict zero weight c = panic
  evict (suc fuel) weight c = do
    sum ← plus c.total_weight weight
    if leb sum c.budget then ok c else elim (oldest c.entries) [
      | none ↦ ok c
      | some k ↦ (do c' ← remove_key k c; evict fuel weight c')
    ]

  -- An entry leaves in each round, so a round for each entry, and one more, is enough.
  unfoldable pub insert : Key → A → ℕ → LoadedCache A → Result (LoadedCache A)
  unfolding remove_key evict
  insert k asset weight c = if ltb c.budget weight then ok c else (do
    clock ← plus c.clock 1
    c1 ← remove_key k (record c { clock = clock })
    c2 ← evict (suc (length c1.entries)) weight c1
    total ← plus c2.total_weight weight
    ok (record c2 {
      entries = (k, record { asset = asset; weight = weight; last_used = clock }) ∷ c2.entries;
      total_weight = total;
    }))

  unfoldable pub stale_keys : String → Option String → Entries A → List Key
  stale_keys asset_id keep [] = []
  stale_keys asset_id keep ((k, e) ∷ es) =
      if other_version asset_id keep k
      then k ∷ stale_keys asset_id keep es
      else stale_keys asset_id keep es

  unfoldable pub remove_keys : List Key → LoadedCache A → Result (LoadedCache A)
  unfolding remove_key
  remove_keys [] c = ok c
  remove_keys (k ∷ ks) c = do c' ← remove_key k c; remove_keys ks c'

  unfoldable pub retain_only : String → Option String → LoadedCache A → Result (LoadedCache A)
  unfolding stale_keys remove_keys
  retain_only asset_id keep c = remove_keys (stale_keys asset_id keep c.entries) c
