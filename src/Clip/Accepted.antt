-- ===== src/Clip/Accepted.antt =====
-- Which windows `reference_window` of src/clip.rs accepts, and the range of samples it returns.
use segmentor.Common.{
  ℕ, ◌<◌, ◌≡◌, refl, true, false, Option, none, some, List, [], ◌∷◌, arith, if◌then◌else◌, if-cases,
  ◌⊎◌, inl, inr,
}
use segmentor.Common.Int.{pos, ltb_ℤ}
use segmentor.Error.{ok, ◌>>=◌, Ensures, ensures-ok, ensures-bind}
use segmentor.Media.Sample.{Sample}
use segmentor.Media.SampleIndex as Samples
use segmentor.Media.SampleIndex.{SampleIndex}
use segmentor.Media.Iter as Iter
use segmentor.Media.Track.{Track}
use segmentor.Clip.{
  MediaIndex, ClipWindow, last_sample, window_ticks, optional_ticks, is_later, video_window,
  last_shown, or_first, end_behind, last_before,
}
use segmentor.Clip.Time.{end_of_sample, presented}

-- A window that is accepted: it begins before the end of the reference track, ends behind its
-- beginning, and keeps a sample at least.
pub record IsAccepted (index : MediaIndex) (reference : Track) (w : ClipWindow) (range : ℕ × ℕ)
    : Type 0 where
  pub last : Sample
  pub reference_end : ℕ
  pub from : ℕ
  pub to : Option ℕ
  pub last_is : last_sample reference.samples ≡ ok last
  pub end_is : end_of_sample last ≡ ok reference_end
  pub from_is : window_ticks index.presentation_offset_ms reference.timescale w.from_ms ≡ ok from
  pub to_is : optional_ticks index.presentation_offset_ms reference.timescale w.to_ms ≡ ok to
  pub begins_inside : from < reference_end
  pub ends_later : is_later from to ≡ true
  pub not_empty : range.0 < range.1

abbrev NotEmpty : ℕ × ℕ → Type 0
NotEmpty range = range.0 < range.1

-- A number of the list.
abbrev pub Listed : ℕ → List ℕ → Type 0
Listed i [] = ⊥
Listed i (j ∷ js) = (i ≡ j) ⊎ Listed i js

-- A sync sample that is shown at or before `from`, when there is a candidate.
abbrev Shown : SampleIndex → ℕ → (ℕ → Type 0) → Option ℕ → Type 0
Shown samples from P none = Unit {0}
Shown samples from P (some i) =
    P i
    × ((sample : Sample) × (Samples.get samples i ≡ ok sample)
        × (ltb_ℤ (pos from) (presented sample) ≡ false))

last_shown-Shown :
    (samples : SampleIndex) (from : ℕ) (P : ℕ → Type 0) (found : Option ℕ) (is : List ℕ)
    → Shown samples from P found
    → ((i : ℕ) → Listed i is → P i)
    → Ensures (last_shown samples (pos from) found is) (Shown samples from P)
unfolding last_shown
last_shown-Shown samples from P found [] h k = ensures-ok h
last_shown-Shown samples from P found (i ∷ is) h k =
    ensures-bind (Samples.get samples i) λ sample e.
      last_shown-Shown samples from P
        (if ltb_ℤ (pos from) (presented sample) then found else some i) is
        (if-cases (Shown samples from P) (ltb_ℤ (pos from) (presented sample)) (λ _. h)
          (λ f. (k i (inl refl), (sample, e, f))))
        (λ j l. k j (inr l))

-- How a clip of a video track begins: with a sync sample, if the track has one.
abbrev pub BeginsWithSync : List ℕ → ℕ → Type 0
BeginsWithSync [] first = first ≡ 0
BeginsWithSync (i ∷ is) first = Listed first (i ∷ is)

or_first-BeginsWithSync :
    (samples : SampleIndex) (from : ℕ) (o : Option ℕ) (sync : List ℕ)
    → Shown samples from (λ i. Listed i sync) o
    → BeginsWithSync sync (or_first o sync)
or_first-BeginsWithSync samples from none [] h = refl
or_first-BeginsWithSync samples from none (i ∷ is) h = inl refl
or_first-BeginsWithSync samples from (some i) [] h = absurd h.0
or_first-BeginsWithSync samples from (some i) (j ∷ js) h = h.0

abbrev IsVideoCut : SampleIndex → ℕ × ℕ → Type 0
IsVideoCut samples range =
    (sync : List ℕ) × (Samples.sync_indices samples ≡ ok sync)
    × BeginsWithSync sync range.0
    × (range.0 < range.1)

video_window-IsVideoCut :
    (samples : SampleIndex) (from : ℕ) (to : Option ℕ)
    → Ensures (video_window samples from to) (IsVideoCut samples)
unfolding video_window
video_window-IsVideoCut samples from to = ensures-bind (Samples.sync_indices samples) λ sync e.
    ensures-bind (last_shown samples (pos from) none sync) λ shown f.
      ensures-bind
        (elim to [
          | none ↦ ok (Samples.len samples)
          | some to ↦ (do
            kept ← Iter.to_vec samples (or_first shown sync) (Samples.len samples)
            ok (end_behind (or_first shown sync) (last_before (pos to) 0 none kept)))
        ])
        λ end _. ensures-ok (
          sync,
          e,
          or_first-BeginsWithSync samples from shown sync (
              (last_shown-Shown samples from (λ i. Listed i sync) none sync tt (λ i l. l)).holds
                shown f),
          omega arith,
        )

-- The range of samples that a clip keeps of a video track begins with a sync sample when the track
-- has one, and with its first sample otherwise, and is not empty.
pub video_window-BeginsWithSync :
    (samples : SampleIndex) (from : ℕ) (to : Option ℕ) (first end : ℕ)
    → video_window samples from to ≡ ok (first, end)
    → (sync : List ℕ) × (Samples.sync_indices samples ≡ ok sync)
      × BeginsWithSync sync first
      × (first < end)
video_window-BeginsWithSync samples from to first end e =
    (video_window-IsVideoCut samples from to).holds (first, end) e
