-- ===== src/Media/Selection/Spelling.antt =====
-- The spelling of a selector in src/media/selection.rs is read back.
use segmentor.Common.{
  ℕ, ◌+◌, ◌*◌, ◌/◌, ◌%◌, ◌≤◌, ◌<◌, ◌≡◌, refl, ap, ◌∙◌, true, false, Option, none, some, List, [],
  ◌∷◌, ◌++◌, ◌&&◌, ◌||◌, ltb, leb, ◌==◌, length, length-append, arith, All, if-cases, ltb→lt,
  lt→ltb, bool-holds,
}
use mathlib.Core.Path.{subst}
use segmentor.Common.Bytes.{Bytes}
use segmentor.Media.Sample.{TrackKind, audio, video}
use segmentor.Media.Selection.{
  Pick, nothing, every, nth, TrackSelection, accepted, refused, invalid_selector, named_twice,
  parse_selection, parse_parts, parse_part, parse_number, decimal_value, fit_u8, pick_of, part_with,
  kind_of, split_parts, fill, canonical, part_of, decimal, is_nothing, no_selection, max_bytes,
  join_parts,
}

-- A digit or a letter, and not the dash.
abbrev BehindDash : ℕ → Type 0
BehindDash b = b'-' < b

not_dash : (b : ℕ) → b'-' < b → (b == b'-') ≡ false
not_dash b h = ground arith

split_parts-one : (xs : Bytes) → All BehindDash xs → split_parts xs ≡ xs ∷ []
unfolding split_parts
split_parts-one [] h = refl
split_parts-one (x ∷ xs) h = rw (not_dash x h.0, split_parts-one xs h.1) refl

split_parts-two :
    (xs ys : Bytes) → All BehindDash xs → split_parts (xs ++ b'-' ∷ ys) ≡ xs ∷ split_parts ys
unfolding split_parts
split_parts-two [] ys h = refl
split_parts-two (x ∷ xs) ys h = rw (not_dash x h.0, split_parts-two xs ys h.1) refl

decimal_value-digit :
    (value d : ℕ) (bs : Bytes)
    → d < 10
    → decimal_value value ((b'0' + d) ∷ bs) ≡ decimal_value (value * 10 + d) bs
unfolding decimal_value
decimal_value-digit value d bs h =
    bool-holds (λ o. o ≡ decimal_value (value * 10 + d) bs)
      (leb b'0' (b'0' + d) && leb (b'0' + d) b'9') (λ _. ap (λ n. decimal_value n bs) (omega arith))
      (λ e. absurd (is_digit d h e))
  where
    is_digit : (d : ℕ) → d < 10 → (leb b'0' (b'0' + d) && leb (b'0' + d) b'9') ≡ false → ⊥
    is_digit d h e = ground arith

fit_u8-lt : (n : ℕ) → n < 256 → fit_u8 (some n) ≡ some n
fit_u8-lt n h = rw (lt→ltb n 256 h) refl

-- What a number's digits are.
unfoldable IsDecimal : ℕ → Bytes → Type 0
IsDecimal n digits = (parse_number digits ≡ some n) × All BehindDash digits × (length digits ≤ 3)

parse_number-one : (n : ℕ) → n < 10 → parse_number ((b'0' + n) ∷ []) ≡ some n
unfolding parse_number decimal_value
parse_number-one n h =
    ap fit_u8 (decimal_value-digit 0 n [] h ∙ ap some (omega arith)) ∙ fit_u8-lt n (omega arith)

parse_number-two :
    (n : ℕ) → n < 100 → parse_number ((b'0' + n / 10) ∷ (b'0' + n % 10) ∷ []) ≡ some n
unfolding parse_number decimal_value
parse_number-two n h =
    ap fit_u8 (
      decimal_value-digit 0 (n / 10) ((b'0' + n % 10) ∷ []) (omega arith)
      ∙ decimal_value-digit (0 * 10 + n / 10) (n % 10) [] (omega arith)
      ∙ ap some (omega arith))
    ∙ fit_u8-lt n (omega arith)

parse_number-three :
    (n : ℕ)
    → n < 256
    → parse_number ((b'0' + n / 100) ∷ (b'0' + n / 10 % 10) ∷ (b'0' + n % 10) ∷ []) ≡ some n
unfolding parse_number decimal_value
parse_number-three n h =
    ap fit_u8 (
      decimal_value-digit 0 (n / 100) ((b'0' + n / 10 % 10) ∷ (b'0' + n % 10) ∷ []) (omega arith)
      ∙ decimal_value-digit (0 * 10 + n / 100) (n / 10 % 10) ((b'0' + n % 10) ∷ []) (omega arith)
      ∙ decimal_value-digit ((0 * 10 + n / 100) * 10 + n / 10 % 10) (n % 10) [] (omega arith)
      ∙ ap some (omega arith))
    ∙ fit_u8-lt n h

decimal-IsDecimal : (n : ℕ) → n < 256 → IsDecimal n (decimal n)
unfolding decimal IsDecimal
decimal-IsDecimal n h =
    if-cases (IsDecimal n) (ltb n 10)
      (λ e. (parse_number-one n (ltb→lt n 10 e), (omega arith, tt), omega arith))
      (λ _.
        if-cases (IsDecimal n) (ltb n 100)
          (λ f.
            (parse_number-two n (ltb→lt n 100 f), (omega arith, (omega arith, tt)), omega arith))
          (λ _.
            (parse_number-three n h, (omega arith, (omega arith, (omega arith, tt))), omega arith)))

-- A pick that a selector can spell: a number is a `u8`, and 0 stands for every track.
abbrev pub IsPick : Pick → Type 0
IsPick nothing = Unit {0}
IsPick every = Unit {0}
IsPick (nth n) = (0 < n) × (n < 256)

-- A part that is read back as the pick of a kind.
record Spells (kind : TrackKind) (pick : Pick) (part : Bytes) : Type 0 where
  pub reads : parse_part part ≡ some (kind, pick)
  pub no_dash : All BehindDash part
  pub short : length part ≤ 4
  pub not_empty : 0 < length part

part-Spells :
    (letter : ℕ) (kind : TrackKind) (n : ℕ) (digits : Bytes)
    → kind_of letter ≡ some kind
    → b'-' < letter
    → IsDecimal n digits
    → Spells kind (pick_of n) (letter ∷ digits)
unfolding parse_part IsDecimal
part-Spells letter kind n digits e h d = record {
  reads = both (parse_number digits) (kind_of letter) d.0 e;
  no_dash = (h, d.1);
  short = omega (arith, d.2);
  not_empty = omega arith;
}
  where
    both :
        (o : Option ℕ) (k : Option TrackKind)
        → o ≡ some n
        → k ≡ some kind
        → part_with o k ≡ some (kind, pick_of n)
    both o k e f = rw (e, f) refl

pick_of-pos : (n : ℕ) → 0 < n → pick_of n ≡ nth n
pick_of-pos n h = let e : (n == 0) ≡ false = ground arith in rw e refl

zero-IsDecimal : IsDecimal 0 (b'0' ∷ [])
unfolding decimal IsDecimal parse_number decimal_value
zero-IsDecimal = (refl, (omega arith, tt), omega arith)

part_of-Spells :
    (letter : ℕ) (kind : TrackKind) (pick : Pick)
    → kind_of letter ≡ some kind
    → b'-' < letter
    → IsPick pick
    → is_nothing pick ≡ false
    → (part : Bytes) × (part_of letter pick ≡ some part) × Spells kind pick part
unfolding part_of
part_of-Spells letter kind nothing e h k f = cc
part_of-Spells letter kind every e h k f =
    (letter ∷ b'0' ∷ [], refl, part-Spells letter kind 0 (b'0' ∷ []) e h zero-IsDecimal)
part_of-Spells letter kind (nth n) e h k f = (
  letter ∷ decimal n,
  refl,
  subst (λ p. Spells kind p (letter ∷ decimal n)) (pick_of-pos n k.0)
      (part-Spells letter kind n (decimal n) e h (decimal-IsDecimal n k.1)),
)

parse_selection-parts :
    (text : Bytes)
    → 0 < length text
    → length text ≤ max_bytes
    → parse_selection text ≡ parse_parts no_selection (split_parts text)
unfolding parse_selection
parse_selection-parts text h k =
    if-cases (λ r. r ≡ parse_parts no_selection (split_parts text))
      (length text == 0 || ltb max_bytes (length text))
      (λ e. absurd (in_bounds (length text) h k e)) (λ _. refl)
  where
    in_bounds : (n : ℕ) → 0 < n → n ≤ max_bytes → (n == 0 || ltb max_bytes n) ≡ true → ⊥
    in_bounds n h k e = ground arith

parse_parts-filled :
    (s t : TrackSelection) (kind : TrackKind) (pick : Pick) (part : Bytes) (parts : List Bytes)
    → parse_part part ≡ some (kind, pick)
    → fill s kind pick ≡ some t
    → parse_parts s (part ∷ parts) ≡ parse_parts t parts
unfolding parse_parts
parse_parts-filled s t kind pick part parts e f = step (parse_part part) e
  where
    step :
        (o : Option (TrackKind × Pick))
        → o ≡ some (kind, pick)
        → elim o [
          | none ↦ refused invalid_selector
          | some p ↦ elim (fill s p.0 p.1) [
            | none ↦ refused named_twice
            | some filled ↦ parse_parts filled parts
          ]
        ]
          ≡ parse_parts t parts
    step o e = rw (e, f) refl

only_audio :
    (a : Pick)
    → IsPick a
    → is_nothing a ≡ false
    → parse_selection (canonical (record { video_pick = nothing; audio_pick = a }))
      ≡ accepted (record { video_pick = nothing; audio_pick = a })
unfolding canonical part_of fill parse_parts
only_audio a h e =
    let p = part_of-Spells b'a' audio a refl (omega arith) h e in
    let t : TrackSelection = record { video_pick = nothing; audio_pick = a } in
    ap (λ o. parse_selection (join_parts none o)) p.1
    ∙ parse_selection-parts p.0 p.2.not_empty (omega (arith, p.2.short))
    ∙ ap (parse_parts no_selection) (split_parts-one p.0 p.2.no_dash)
    ∙ parse_parts-filled no_selection t audio a p.0 [] p.2.reads refl

only_video :
    (v : Pick)
    → IsPick v
    → is_nothing v ≡ false
    → parse_selection (canonical (record { video_pick = v; audio_pick = nothing }))
      ≡ accepted (record { video_pick = v; audio_pick = nothing })
unfolding canonical part_of fill parse_parts
only_video v h e =
    let p = part_of-Spells b'v' video v refl (omega arith) h e in
    let t : TrackSelection = record { video_pick = v; audio_pick = nothing } in
    ap (λ o. parse_selection (join_parts o none)) p.1
    ∙ parse_selection-parts p.0 p.2.not_empty (omega (arith, p.2.short))
    ∙ ap (parse_parts no_selection) (split_parts-one p.0 p.2.no_dash)
    ∙ parse_parts-filled no_selection t video v p.0 [] p.2.reads refl

both_kinds :
    (v a : Pick)
    → IsPick v
    → IsPick a
    → is_nothing v ≡ false
    → is_nothing a ≡ false
    → parse_selection (canonical (record { video_pick = v; audio_pick = a }))
      ≡ accepted (record { video_pick = v; audio_pick = a })
unfolding canonical part_of fill parse_parts
both_kinds v a h k e f =
    let p = part_of-Spells b'v' video v refl (omega arith) h e in
    let q = part_of-Spells b'a' audio a refl (omega arith) k f in
    let half : TrackSelection = record { video_pick = v; audio_pick = nothing } in
    let t : TrackSelection = record { video_pick = v; audio_pick = a } in
    ap (λ o. parse_selection (join_parts o (part_of b'a' a))) p.1
    ∙ ap (λ o. parse_selection (join_parts (some p.0) o)) q.1
    ∙ parse_selection-parts (p.0 ++ b'-' ∷ q.0)
        (omega (arith, p.2.not_empty, length-append p.0 (b'-' ∷ q.0)))
        (omega (arith, p.2.short, q.2.short, length-append p.0 (b'-' ∷ q.0)))
    ∙ ap (parse_parts no_selection)
        (split_parts-two p.0 q.0 p.2.no_dash ∙ ap (◌∷◌ p.0) (split_parts-one q.0 q.2.no_dash))
    ∙ parse_parts-filled no_selection half video v p.0 (q.0 ∷ []) p.2.reads refl
    ∙ parse_parts-filled half t audio a q.0 [] q.2.reads refl

canonical-read :
    (v a : Pick)
    → IsPick v
    → IsPick a
    → (is_nothing v && is_nothing a) ≡ false
    → parse_selection (canonical (record { video_pick = v; audio_pick = a }))
      ≡ accepted (record { video_pick = v; audio_pick = a })
canonical-read nothing a h k e = only_audio a k e
canonical-read every nothing h k e = only_video every h refl
canonical-read every every h k e = both_kinds every every h k refl refl
canonical-read every (nth m) h k e = both_kinds every (nth m) h k refl refl
canonical-read (nth n) nothing h k e = only_video (nth n) h refl
canonical-read (nth n) every h k e = both_kinds (nth n) every h k refl refl
canonical-read (nth n) (nth m) h k e = both_kinds (nth n) (nth m) h k refl refl

-- The canonical spelling of a selection that picks something, with track numbers from 1 to 255, is
-- read back as that selection.
pub parse_selection-canonical :
    (s : TrackSelection)
    → IsPick s.video_pick
    → IsPick s.audio_pick
    → (is_nothing s.video_pick && is_nothing s.audio_pick) ≡ false
    → parse_selection (canonical s) ≡ accepted s
parse_selection-canonical s h k e = canonical-read s.video_pick s.audio_pick h k e
