-- ===== src/Error.antt =====
-- src/error.rs, and the three ways in which a function of the program can end.
use segmentor.Common.{ℕ, ◌+◌, ◌^◌, ◌≡◌, ◌≢◌, refl, ltb, if◌then◌else◌, Bool, true, false}
use mathlib.Core.Path.{subst}
use segmentor.Common.{String, List, [], Option, none, some, ◌-◌, ◌*◌, leb}

-- An error that carries a text built by `format!` carries here the format and its arguments.
pub data Error : Type 0 where
  invalid_range : ℕ → ℕ → ℕ → Error
  invalid_media_with : String → List ℕ → Error
  configuration : String → Error
  unsupported : String → List ℕ → Error
  not_found : String → Error

abbrev pub invalid_media : String → Error
invalid_media message = invalid_media_with message []

-- `panic` is an index out of bounds, a failed `expect` or an arithmetic overflow. A loop on fuel
-- returns it too when the fuel runs out, so a function that never panics also ends.
pub data Result {ℓ} (A : Type ℓ) : Type ℓ where
  ok : A → Result A
  err : Error → Result A
  panic : Result A

infixl 5 ◌>>=◌
-- `?`: what follows a call runs on its value, and is skipped when it fails.
abbrev pub ◌>>=◌ {ℓ κ} : {A : Type ℓ} {B : Type κ} → Result A → (A → Result B) → Result B
panic >>= rest = panic
err failure >>= rest = err failure
ok value >>= rest = rest value

infixl 5 ◌>>◌
abbrev pub ◌>>◌ {ℓ} : {B : Type ℓ} → Result (Unit {0}) → Result B → Result B
check >> rest = check >>= λ _. rest

-- `if !test { return Err(failure) }`
abbrev pub guard : Bool → Error → Result (Unit {0})
guard false failure = err failure
guard true failure = ok tt

-- `Option::ok_or_else`
abbrev pub ok_or {ℓ} : {A : Type ℓ} → Option A → Error → Result A
ok_or none e = err e
ok_or (some a) e = ok a

-- `Option::expect`, and an index that the program takes to be in range.
abbrev pub expect {ℓ} : {A : Type ℓ} → Option A → Result A
expect none = panic
expect (some a) = ok a

pub >>=-eq-ok {ℓ κ} :
    {A : Type ℓ} {B : Type κ} (call : Result A) (rest : A → Result B) {b : B}
    → (call >>= rest) ≡ ok b
    → (value : A) × (call ≡ ok value) × (rest value ≡ ok b)
>>=-eq-ok panic rest e = cc
>>=-eq-ok (err failure) rest e = cc
>>=-eq-ok (ok value) rest e = (value, refl, e)

pub >>=-ne-panic {ℓ κ} :
    {A : Type ℓ} {B : Type κ} (m : Result A) (f : A → Result B)
    → m ≢ panic
    → ((a : A) → m ≡ ok a → f a ≢ panic)
    → (m >>= f) ≢ panic
>>=-ne-panic (ok a) f hm hf = hf a refl
>>=-ne-panic (err e) f hm hf = λ p. cc
>>=-ne-panic panic f hm hf = absurd (hm refl)

pub ok-injective {ℓ} : {A : Type ℓ} {a b : A} → ok a ≡ ok b → a ≡ b
ok-injective e = cc

pub guard-eq-ok : (b : Bool) (x : Error) {u : Unit {0}} → guard b x ≡ ok u → b ≡ true
guard-eq-ok true x e = refl
guard-eq-ok false x e = cc

pub ok_or-eq-ok {ℓ} :
    {A : Type ℓ} (o : Option A) (x : Error) {a : A} → ok_or o x ≡ ok a → o ≡ some a
ok_or-eq-ok none x e = cc
ok_or-eq-ok (some a) x e = cc

pub expect-eq-ok {ℓ} : {A : Type ℓ} (o : Option A) {a : A} → expect o ≡ ok a → o ≡ some a
expect-eq-ok none e = cc
expect-eq-ok (some a) e = cc

-- What a function returns, if it returns, meets `P`.
pub record Ensures {ℓ κ} {A : Type ℓ} (r : Result A) (P : A → Type κ) : Type (ℓ ⊔ κ) where
  pub holds : (a : A) → r ≡ ok a → P a

module _ {ℓ κ} {A : Type ℓ} {P : A → Type κ} where
  pub ensures-ok : {a : A} → P a → Ensures (ok a) P
  ensures-ok h = record { holds = λ b e. subst P (ok-injective e) h }

  pub ensures-err : (x : Error) → Ensures (err x) P
  ensures-err x = record { holds = λ b e. cc }

  pub ensures-panic : Ensures panic P
  ensures-panic = record { holds = λ b e. cc }

  pub ensures-if :
      (b : Bool) {x y : Result A}
      → (b ≡ true → Ensures x P)
      → (b ≡ false → Ensures y P)
      → Ensures (if b then x else y) P
  ensures-if true h k = h refl
  ensures-if false h k = k refl

  pub ensures-bind {μ} :
      {B : Type μ} (m : Result B) {f : B → Result A}
      → ((b : B) → m ≡ ok b → Ensures (f b) P)
      → Ensures (m >>= f) P
  ensures-bind (ok b) h = h b refl
  ensures-bind (err x) h = ensures-err x
  ensures-bind panic h = ensures-panic

-- A weaker condition.
pub ensures-mono {ℓ κ μ} :
    {A : Type ℓ} {P : A → Type κ} {Q : A → Type μ} {r : Result A}
    → ((a : A) → P a → Q a)
    → Ensures r P
    → Ensures r Q
ensures-mono h k = record { holds = λ a e. h a (k.holds a e) }

-- `checked_add` and `checked_mul` of `u64` and of a 64-bit `usize`.
abbrev pub u64_mod : ℕ
u64_mod = 2 ^ 64

abbrev pub checked_add : ℕ → ℕ → Option ℕ
checked_add a b = if ltb (a + b) u64_mod then some (a + b) else none

abbrev pub checked_mul : ℕ → ℕ → Option ℕ
checked_mul a b = if ltb (a * b) u64_mod then some (a * b) else none

abbrev pub checked_sub : ℕ → ℕ → Option ℕ
checked_sub a b = if leb b a then some (a - b) else none

abbrev pub saturating_add : ℕ → ℕ → ℕ
saturating_add a b = if ltb (a + b) u64_mod then a + b else u64_mod - 1
