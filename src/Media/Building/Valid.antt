-- ===== src/Media/Building/Valid.antt =====
-- The index that `SampleIndex::from_samples` of src/media/samples.rs builds.
use segmentor.Common.{
  ℕ, suc, ◌+◌, ◌^◌, ◌≤◌, ◌<◌, ◌≡◌, refl, Bool, true, false, Option, none, some, List, [], ◌∷◌, ◌++◌,
  ltb, ◌==◌, if◌then◌else◌, length, length-append, arith, ltb→lt, if-cases,
}
use mathlib.Core.Option.{some-injective}
use mathlib.Core.Path.{subst, sym}
use segmentor.Error.{ok, Ensures, ensures-ok, ensures-bind, ensures-if, ensures-panic}
use segmentor.Media.Sample.{Sample}
use segmentor.Media.Ascending.{Climbs, Climbs-weaken}
use segmentor.Media.SampleIndex as Samples
use segmentor.Media.SampleIndex.{SampleIndex}
use segmentor.Segment.Planner.Boundaries.{IsWindow}
use segmentor.Media.Building.{
  Built, same_chunk, same_run, with_sample, add_samples, finished_tables, from_samples, no_tables,
}

Climbs-push :
    (lo n : ℕ) (xs : List ℕ) → lo ≤ n → Climbs lo n xs → Climbs lo (n + 1) (xs ++ (n ∷ []))
Climbs-push lo n [] h c = (h, omega arith, tt)
Climbs-push lo n (x ∷ xs) h c = (c.0, omega (arith, c.1), Climbs-push (suc x) n xs c.1 c.2)

-- One size for each sample so far, and sync samples that climb below their number.
abbrev Sound : ℕ → Built → Type 0
Sound index b = (length b.0.sizes ≡ index) × (index ≤ 2 ^ 32) × Climbs 0 index b.1

with_sample-Sound :
    (chunk run : Bool) (index : ℕ) (s : Sample) (b : Built)
    → index < 2 ^ 32
    → Sound index b
    → Sound (index + 1) (with_sample chunk run index s b)
with_sample-Sound chunk run index s b h k = (
  omega (arith, k.0, length-append b.0.sizes (s.size ∷ [])),
  omega arith,
  if-cases (Climbs 0 (index + 1)) s.is_sync (λ _. Climbs-push 0 index b.1 (omega arith) k.2)
      (λ _. Climbs-weaken 0 0 index (index + 1) b.1 (omega arith) (omega arith) k.2),
)

add_samples-Sound :
    (index : ℕ) (previous : Option Sample) (b : Built) (ss : List Sample)
    → Sound index b
    → Ensures (add_samples index previous b ss) (Sound (index + length ss))
unfolding add_samples
add_samples-Sound index previous b [] h =
    let e : index ≡ index + 0 = omega arith in ensures-ok (subst (λ n. Sound n b) e h)
add_samples-Sound index previous b (s ∷ ss) h =
    ensures-if (ltb index (2 ^ 32))
      (λ e. ensures-bind (same_chunk previous s) λ chunk _.
        ensures-bind (same_run previous s) λ run _.
          let next : Built = with_sample chunk run index s b in
          let same : index + 1 + length ss ≡ index + length (s ∷ ss) = omega arith in
          subst (λ n. Ensures (add_samples (index + 1) (some s) next ss) (Sound n)) same
            (add_samples-Sound (index + 1) (some s) next ss
              (with_sample-Sound chunk run index s b (ltb→lt index (2 ^ 32) e) h)))
      (λ _. ensures-panic)

-- A valid window over all of the samples.
pub record IsIndexOf (samples : List Sample) (s : SampleIndex) : Type 0 where
  pub valid : IsWindow s
  pub len_is : Samples.len s ≡ length samples
  pub starts_at_zero : s.start ≡ 0

kept_sync : (b : Bool) {xs sync : List ℕ} → (if b then none else some xs) ≡ some sync → xs ≡ sync
kept_sync true e = cc
kept_sync false {xs} {sync} e = some-injective xs sync e

from_samples-Ensures : (samples : List Sample) → Ensures (from_samples samples) (IsIndexOf samples)
unfolding from_samples finished_tables Samples.new
from_samples-Ensures samples = ensures-bind (add_samples 0 none (no_tables, []) samples) λ b e.
    let h = (add_samples-Sound 0 none (no_tables, []) samples (refl, omega arith, tt)).holds b e in
    let count : length b.0.sizes ≡ length samples = omega (arith, h.0) in
    ensures-ok (record {
      valid = record {
        forward = omega arith;
        inside = omega arith;
        numbered = omega (arith, h.0, h.1);
        sync_climbs = λ sync f.
            subst (Climbs 0 (length b.0.sizes)) (kept_sync (length b.1 == length samples) f)
              (subst (λ n. Climbs 0 n b.1) (sym h.0) h.2);
      };
      len_is = omega (arith, count);
      starts_at_zero = refl;
    })

-- An index that is built from samples given one by one is a valid window that begins at 0 and has
-- as many samples as were given: its sync samples climb strictly and lie inside it.
pub from_samples-IsIndexOf :
    (samples : List Sample) (s : SampleIndex) → from_samples samples ≡ ok s → IsIndexOf samples s
from_samples-IsIndexOf samples s e = (from_samples-Ensures samples).holds s e
