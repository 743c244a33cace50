-- ===== src/Sequence/Numbering.antt =====
-- The numbers of the segments of a sequence in src/sequence.rs name them again.
use segmentor.Common.{
  ℕ, zero, suc, ◌+◌, ◌-◌, ◌^◌, ◌≤◌, ◌<◌, ◌≡◌, refl, ap, ◌∙◌, some, List, [], ◌∷◌, ◌&&◌, ltb, leb,
  if-some, if-cases, sym, get_elem?, arith, leb→le, leb→gt,
}
use mathlib.Core.Option.{some-injective}
use segmentor.Error.{ok, ◌>>=◌, >>=-eq-ok, ok_or, ok_or-eq-ok, ok-injective, invalid_media}
use segmentor.Media.Sample.{partition_point}
use segmentor.Sequence.{first_segments, segments_behind, clip_before, locate_segment}

-- What a step of the numbering gives.
record Step (next count : ℕ) (counts firsts : List ℕ) : Type 0 where
  pub rest : List ℕ
  pub firsts_is : next ∷ rest ≡ firsts
  pub rest_is : first_segments (next + count) counts ≡ ok rest

first_segments-Step :
    (next count : ℕ) (counts firsts : List ℕ)
    → first_segments next (count ∷ counts) ≡ ok firsts
    → Step next count counts firsts
unfolding first_segments
first_segments-Step next count counts firsts e =
    let behind =
      >>=-eq-ok
        (ok_or (segments_behind next count) (invalid_media "a sequence has too many segments"))
        (λ behind. first_segments behind counts >>= λ rest. ok (next ∷ rest)) e in
    let others = >>=-eq-ok (first_segments behind.0 counts) (λ rest. ok (next ∷ rest)) behind.2 in
    let sum : next + count ≡ behind.0 =
      (if-some (ltb count (2 ^ 32) && ltb (next + count) (2 ^ 32))
        (ok_or-eq-ok (segments_behind next count) _ behind.1)).1 in
    record {
      rest = others.0;
      firsts_is = ok-injective others.2;
      rest_is = ap (λ n. first_segments n counts) sum ∙ others.1;
    }

abbrev clips_before : ℕ → List ℕ → ℕ
clips_before index firsts = partition_point (λ first. leb first index) firsts

clips_before-behind :
    (index first : ℕ) (firsts : List ℕ)
    → first ≤ index
    → clips_before index (first ∷ firsts) ≡ suc (clips_before index firsts)
unfolding partition_point
clips_before-behind index first firsts h =
    if-cases (λ n. n ≡ suc (clips_before index firsts)) (leb first index) (λ _. refl)
      (λ e. absurd (omega (arith, leb→gt first index e)))

clips_before-none :
    (index first : ℕ) (firsts : List ℕ) → index < first → clips_before index (first ∷ firsts) ≡ 0
unfolding partition_point
clips_before-none index first firsts h =
    if-cases (λ n. n ≡ 0) (leb first index) (λ e. absurd (omega (arith, leb→le first index e)))
      (λ _. refl)

-- A number in front of all of the clips.
none_before :
    (next : ℕ) (counts firsts : List ℕ) (index : ℕ)
    → first_segments next counts ≡ ok firsts
    → index < next
    → clips_before index firsts ≡ 0
unfolding first_segments partition_point
none_before next [] firsts index e h = ap (clips_before index) (sym (ok-injective e))
none_before next (count ∷ counts) firsts index e h =
    let step = first_segments-Step next count counts firsts e in
    ap (clips_before index) (sym step.firsts_is) ∙ clips_before-none index next step.rest h

-- A clip's first segment, and the clips up to it for each of its segments.
record IsNumbered (next c n : ℕ) (firsts : List ℕ) : Type 0 where
  pub first : ℕ
  pub first_is : get_elem? firsts c ≡ some first
  pub from_next : next ≤ first
  pub clips_to : (i : ℕ) → i < n → clips_before (first + i) firsts ≡ suc c

first_segments-IsNumbered :
    (next : ℕ) (counts firsts : List ℕ) (c n : ℕ)
    → first_segments next counts ≡ ok firsts
    → get_elem? counts c ≡ some n
    → IsNumbered next c n firsts
first_segments-IsNumbered next [] firsts c n e f = cc
first_segments-IsNumbered next (count ∷ counts) firsts zero n e f =
    let step = first_segments-Step next count counts firsts e in
    let size : count ≡ n = some-injective count n f in
    record {
      first = next;
      first_is = ap (λ xs. get_elem? xs 0) (sym step.firsts_is);
      from_next = omega arith;
      clips_to = λ i h.
          ap (clips_before (next + i)) (sym step.firsts_is)
          ∙ clips_before-behind (next + i) next step.rest (omega arith)
          ∙ ap suc (
              none_before (next + count) counts step.rest (next + i) step.rest_is
                (omega (arith, size)));
    }
first_segments-IsNumbered next (count ∷ counts) firsts (suc c) n e f =
    let step = first_segments-Step next count counts firsts e in
    let later = first_segments-IsNumbered (next + count) counts step.rest c n step.rest_is f in
    record {
      first = later.first;
      first_is = ap (λ xs. get_elem? xs (suc c)) (sym step.firsts_is) ∙ later.first_is;
      from_next = omega (arith, later.from_next);
      clips_to = λ i h.
          ap (clips_before (later.first + i)) (sym step.firsts_is)
          ∙ clips_before-behind (later.first + i) next step.rest (omega (arith, later.from_next))
          ∙ ap suc (later.clips_to i h);
    }

clip_before-found :
    (firsts : List ℕ) (index clip first : ℕ)
    → get_elem? firsts clip ≡ some first
    → clip_before firsts index (suc clip) ≡ ok (clip, index - first)
clip_before-found firsts index clip first e = rw e refl

-- When the first segments of a sequence's clips are numbered, clips without segments included, the
-- global number of segment i of a clip, its clip's first number plus i, is located in that clip as
-- its segment i.
pub locate_segment-first_segments :
    (counts firsts : List ℕ) (c n i : ℕ)
    → first_segments 0 counts ≡ ok firsts
    → get_elem? counts c ≡ some n
    → i < n
    → (first : ℕ) × (get_elem? firsts c ≡ some first)
      × (locate_segment firsts (first + i) ≡ ok (c, i))
unfolding locate_segment
locate_segment-first_segments counts firsts c n i e f h =
    let k = first_segments-IsNumbered 0 counts firsts c n e f in
    let local : k.first + i - k.first ≡ i = omega arith in
    (
      k.first,
      k.first_is,
      ap (clip_before firsts (k.first + i)) (k.clips_to i h)
          ∙ clip_before-found firsts (k.first + i) c k.first k.first_is
          ∙ ap (λ x. ok (c, x)) local,
    )
