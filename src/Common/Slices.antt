-- ===== src/Common/Slices.antt =====
-- Slices of slices, and a slice cut in two.
use segmentor.Common.Lists.{
  get_elem?, length, length-drop, take, drop, slice, drop-nil, take-nil, drop-take, take-take_le,
}
use Prim.Native.Nat.{ℕ, zero, suc, ◌+◌, ◌-◌, ◌≤◌, min}
use mathlib.Core.Path.{◌≡◌, refl, sym, ap, ◌∙◌}
use mathlib.Core.Option.{some}
use mathlib.Core.List.{List, [], ◌∷◌, ◌++◌}
use native.Mathlib.Omega.{arith}

module _ {ℓ} {A : Type ℓ} where
  pub drop-drop : (m n : ℕ) (xs : List A) → drop m (drop n xs) ≡ drop (n + m) xs
  drop-drop m zero xs = let e : 0 + m ≡ m = omega arith in rw e
  drop-drop m (suc n) [] = let e : suc n + m ≡ suc (n + m) = omega arith in rw e (drop-nil m)
  drop-drop m (suc n) (x ∷ xs) =
      let e : suc n + m ≡ suc (n + m) = omega arith in rw e (drop-drop m n xs)

  pub take-plus : (m n : ℕ) (xs : List A) → take m xs ++ take n (drop m xs) ≡ take (m + n) xs
  take-plus zero n xs = let e : 0 + n ≡ n = omega arith in rw e
  take-plus (suc m) n [] = let e : suc m + n ≡ suc (m + n) = omega arith in rw e (take-nil n)
  take-plus (suc m) n (x ∷ xs) =
      let e : suc m + n ≡ suc (m + n) = omega arith in rw e (ap (◌∷◌ x) (take-plus m n xs))

  pub slice-append :
      (xs : List A) (from mid to : ℕ)
      → from ≤ mid
      → mid ≤ to
      → slice xs from mid ++ slice xs mid to ≡ slice xs from to
  slice-append xs from mid to h k =
      let e : from + (mid - from) ≡ mid = omega arith in
      let f : mid - from + (to - mid) ≡ to - from = omega arith in
      let g : drop (mid - from) (drop from xs) ≡ drop mid xs =
        drop-drop (mid - from) from xs ∙ ap (λ n. drop n xs) e in
      ap (λ ys. take (mid - from) (drop from xs) ++ take (to - mid) ys) (sym g)
      ∙ take-plus (mid - from) (to - mid) (drop from xs)
      ∙ ap (λ n. take n (drop from xs)) f

  pub slice-slice :
      (xs : List A) (start end from to : ℕ)
      → start + to ≤ end
      → slice (slice xs start end) from to ≡ slice xs (start + from) (start + to)
  slice-slice xs start end from to h =
      let e : start + to - (start + from) ≡ to - from = omega arith in
      let f : to - from ≤ end - start - from = omega arith in
      ap (take (to - from)) (drop-take from (end - start) (drop start xs))
      ∙ take-take_le (to - from) (end - start - from) (drop from (drop start xs)) f
      ∙ ap (take (to - from)) (drop-drop from start xs)
      ∙ ap (λ n. take n (drop (start + from) xs)) (sym e)

  pub slice-empty : (xs : List A) (from to : ℕ) → to ≤ from → slice xs from to ≡ []
  slice-empty xs from to h = let e : to - from ≡ 0 = omega arith in rw e

  drop-append_both :
      (n : ℕ) (xs ys : List A) → drop n (xs ++ ys) ≡ drop n xs ++ drop (n - length xs) ys
  drop-append_both zero [] ys = refl
  drop-append_both zero (x ∷ xs) ys = let e : 0 - length (x ∷ xs) ≡ 0 = omega arith in rw e refl
  drop-append_both (suc n) [] ys = let e : suc n - 0 ≡ suc n = omega arith in rw e refl
  drop-append_both (suc n) (x ∷ xs) ys =
      let e : suc n - length (x ∷ xs) ≡ n - length xs = omega arith in
      rw e (drop-append_both n xs ys)

  take-append_both :
      (n : ℕ) (xs ys : List A)
      → take n (xs ++ ys) ≡ take (min n (length xs)) xs ++ take (n - length xs) ys
  take-append_both zero [] ys = refl
  take-append_both zero (x ∷ xs) ys =
      let e : min 0 (length (x ∷ xs)) ≡ 0 = omega arith in
      let f : 0 - length (x ∷ xs) ≡ 0 = omega arith in rw (e, f) refl
  take-append_both (suc n) [] ys =
      let e : min (suc n) 0 ≡ 0 = omega arith in
      let f : suc n - 0 ≡ suc n = omega arith in rw (e, f) refl
  take-append_both (suc n) (x ∷ xs) ys =
      let e : min (suc n) (length (x ∷ xs)) ≡ suc (min n (length xs)) = omega arith in
      let f : suc n - length (x ∷ xs) ≡ n - length xs = omega arith in
      rw (e, f) (ap (◌∷◌ x) (take-append_both n xs ys))

  -- A slice across two lists.
  pub slice-append_both :
      (xs ys : List A) (from to : ℕ)
      → slice (xs ++ ys) from to
        ≡ slice xs from (min to (length xs)) ++ slice ys (from - length xs) (to - length xs)
  slice-append_both xs ys from to =
      let e : min (to - from) (length (drop from xs)) ≡ min to (length xs) - from =
        omega (arith, length-drop from xs) in
      let f : to - from - length (drop from xs) ≡ to - length xs - (from - length xs) =
        omega (arith, length-drop from xs) in
      ap (take (to - from)) (drop-append_both from xs ys)
      ∙ take-append_both (to - from) (drop from xs) (drop (from - length xs) ys)
      ∙ ap
          (λ n.
            take n (drop from xs)
            ++ take (to - from - length (drop from xs)) (drop (from - length xs) ys))
          e
      ∙ ap
          (λ n.
            take (min to (length xs) - from) (drop from xs) ++ take n (drop (from - length xs) ys))
          f

  -- The first element of what is left of a list, and the rest.
  pub drop-first :
      (xs : List A) (i : ℕ) {x : A} {rest : List A}
      → drop i xs ≡ x ∷ rest
      → (get_elem? xs i ≡ some x) × (drop (i + 1) xs ≡ rest)
  drop-first [] zero e = cc
  drop-first [] (suc i) e = cc
  drop-first (x ∷ xs) zero e = (cc e, cc e)
  drop-first (x ∷ xs) (suc i) e =
      let f : suc i + 1 ≡ suc (i + 1) = omega arith in rw f (drop-first xs i e)
