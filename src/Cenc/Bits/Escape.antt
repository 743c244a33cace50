-- ===== src/Cenc/Bits/Escape.antt =====
-- The emulation-prevention bytes of src/cenc/bits.rs.
use segmentor.Common.{
  ℕ, zero, suc, ◌+◌, ◌≤◌, ◌≡◌, refl, ap, ◌∙◌, Bool, true, false, List, [], ◌∷◌, ◌&&◌, leb, ◌==◌,
  length, take, drop, arith, bool-holds, and-true, some, get_elem?,
}
use segmentor.Common.Slices.{drop-first}
use segmentor.Common.Bytes.{Bytes}
use segmentor.Cenc.Bits.{Rbsp, pushed, unescape, rbsp_new, zeros_behind}

-- H.264 7.3.1: a byte 3 goes in front of a byte of at most 3 that follows two zeros.
unfoldable pub escape : ℕ → Bytes → Bytes
escape run [] = []
escape run (b ∷ bs) = elim (leb 2 run && leb b 3) [
  | true ↦ 3 ∷ b ∷ escape (zeros_behind 0 b) bs
  | false ↦ b ∷ escape (zeros_behind run b) bs
]

unescape-skip :
    (run index : ℕ) (nal : Bytes)
    → leb 2 run ≡ true
    → unescape run index (3 ∷ nal) ≡ unescape 0 (index + 1) nal
unfolding unescape
unescape-skip run index nal e =
    bool-holds (λ r. r ≡ unescape 0 (index + 1) nal) (leb 2 run && (3 == 3)) (λ _. refl)
      (λ f. absurd (both (leb 2 run) e f))
  where
    both : (a : Bool) → a ≡ true → (a && true) ≡ false → ⊥
    both true e f = cc f
    both false e f = cc e

unescape-keep :
    (run index byte : ℕ) (nal : Bytes)
    → (leb 2 run && (byte == 3)) ≡ false
    → unescape run index (byte ∷ nal)
      ≡ pushed byte index (unescape (zeros_behind run byte) (index + 1) nal)
unfolding unescape
unescape-keep run index byte nal e =
    bool-holds (λ r. r ≡ pushed byte index (unescape (zeros_behind run byte) (index + 1) nal))
      (leb 2 run && (byte == 3)) (λ f. cc (e, f)) (λ _. refl)

unescape-escape : (run index : ℕ) (bs : Bytes) → (unescape run index (escape run bs)).bytes ≡ bs
unfolding escape unescape
unescape-escape run index [] = refl
unescape-escape run index (b ∷ bs) =
    bool-holds (λ nal. (unescape run index nal).bytes ≡ b ∷ bs) (leb 2 run && leb b 3)
      (λ e.
        let twice : unescape run index (3 ∷ b ∷ escape (zeros_behind 0 b) bs)
            ≡ pushed b (index + 1)
                (unescape (zeros_behind 0 b) (index + 1 + 1) (escape (zeros_behind 0 b) bs)) =
          unescape-skip run index (b ∷ escape (zeros_behind 0 b) bs)
            (and-true (leb 2 run) (leb b 3) e).0
          ∙ unescape-keep 0 (index + 1) b (escape (zeros_behind 0 b) bs) refl in
        ap (λ r. r.bytes) twice
        ∙ ap (◌∷◌ b) (unescape-escape (zeros_behind 0 b) (index + 1 + 1) bs))
      (λ e.
        ap (λ r. r.bytes)
          (unescape-keep run index b (escape (zeros_behind run b) bs) (not_escaped run b e))
        ∙ ap (◌∷◌ b) (unescape-escape (zeros_behind run b) (index + 1) bs))
  where
    not_escaped : (run b : ℕ) → (leb 2 run && leb b 3) ≡ false → (leb 2 run && (b == 3)) ≡ false
    not_escaped run b e = ground arith

-- Removing the emulation-prevention bytes of an escaped payload gives the payload back, when the
-- limit covers the escaped bytes.
pub rbsp_new-escape :
    (payload : Bytes) (limit : ℕ)
    → length (escape 0 payload) ≤ limit
    → (rbsp_new (escape 0 payload) limit).bytes ≡ payload
unfolding rbsp_new
rbsp_new-escape payload limit h =
    ap (λ nal. (unescape 0 0 nal).bytes) (take_all limit (escape 0 payload) h)
    ∙ unescape-escape 0 0 payload
  where
    take_all : (n : ℕ) (xs : Bytes) → length xs ≤ n → take n xs ≡ xs
    take_all zero [] h = refl
    take_all zero (x ∷ xs) h = absurd (omega arith)
    take_all (suc n) [] h = refl
    take_all (suc n) (x ∷ xs) h = ap (◌∷◌ x) (take_all n xs (omega arith))

-- What `unescape` keeps came from the place of the NAL unit that it says.
abbrev pub ComesFrom : Bytes → ℕ → List ℕ → Bytes → Type 0
ComesFrom nal index [] [] = Unit
ComesFrom nal index [] (b ∷ bs) = ⊥
ComesFrom nal index (o ∷ os) [] = ⊥
ComesFrom nal index (o ∷ os) (b ∷ bs) =
    (index ≤ o) × (get_elem? nal o ≡ some b) × ComesFrom nal (o + 1) os bs

ComesFrom-weaken :
    (nal : Bytes) (i j : ℕ) (os : List ℕ) (bs : Bytes)
    → i ≤ j
    → ComesFrom nal j os bs
    → ComesFrom nal i os bs
ComesFrom-weaken nal i j [] [] h k = k
ComesFrom-weaken nal i j [] (b ∷ bs) h k = k
ComesFrom-weaken nal i j (o ∷ os) [] h k = k
ComesFrom-weaken nal i j (o ∷ os) (b ∷ bs) h k = (omega (arith, k.0), k.1, k.2)

unescape-ComesFrom :
    (nal : Bytes) (run index limit : ℕ) (bs : Bytes)
    → take limit (drop index nal) ≡ bs
    → ComesFrom nal index (unescape run index bs).origin (unescape run index bs).bytes
unfolding unescape
unescape-ComesFrom nal run index limit [] e = tt
unescape-ComesFrom nal run index zero (b ∷ bs) e = cc
unescape-ComesFrom nal run index (suc limit) (b ∷ bs) e =
    let front = take-first limit (drop index nal) e in
    let here = drop-first nal index front.1 in
    let rest : take limit (drop (index + 1) nal) ≡ bs = ap (take limit) here.1 ∙ front.2 in
    bool-holds (λ (r : Rbsp). ComesFrom nal index r.origin r.bytes) (leb 2 run && (b == 3))
      (λ _.
        ComesFrom-weaken nal index (index + 1) (unescape 0 (index + 1) bs).origin
          (unescape 0 (index + 1) bs).bytes (omega arith)
          (unescape-ComesFrom nal 0 (index + 1) limit bs rest))
      (λ _. (
        omega arith,
        here.0,
        unescape-ComesFrom nal (zeros_behind run b) (index + 1) limit bs rest,
      ))
  where
    take-first :
        (n : ℕ) (xs : Bytes) {b : ℕ} {bs : Bytes}
        → take (suc n) xs ≡ b ∷ bs
        → (rest : Bytes) × (xs ≡ b ∷ rest) × (take n rest ≡ bs)
    take-first n [] e = cc
    take-first n (x ∷ xs) e = (xs, cc e, cc e)

-- Every byte that is kept is the byte of the NAL unit at the origin that is stored for it, and the
-- origins climb.
pub rbsp_new-ComesFrom :
    (nal : Bytes) (limit : ℕ)
    → ComesFrom nal 0 (rbsp_new nal limit).origin (rbsp_new nal limit).bytes
unfolding rbsp_new
rbsp_new-ComesFrom nal limit = unescape-ComesFrom nal 0 0 limit (take limit nal) refl
