-- ===== src/Sequence.antt =====
-- src/sequence.rs: the clips of a sequence, cut one behind the other, and the numbers of their
-- segments. Playlists, versions and the layout check are not modelled.
pub mod Numbering
use segmentor.Common.{
  ℕ, zero, suc, ◌+◌, ◌-◌, ◌^◌, Bool, true, false, Option, none, some, List, [], ◌∷◌, ◌&&◌, ltb, leb,
  ◌==◌, if◌then◌else◌, get_elem?,
}
use segmentor.Error.{
  Result, ok, err, panic, ◌>>=◌, ok_or, expect, invalid_media, invalid_media_with,
}
use segmentor.Media.Sample.{partition_point}
use segmentor.Media.Selection.{TrackSelection, apply_selection}
use segmentor.Clip.{MediaIndex, ClipWindow, Trailing, keep, cut, Trimmed, trim}

-- The fields of `ClipPlan` that the cut reads.
pub record ClipPlan : Type 0 where
  pub file : ℕ
  pub window : ClipWindow
  pub tracks : Option TrackSelection

unfoldable pub narrow : MediaIndex → Option TrackSelection → Result MediaIndex
unfolding apply_selection
narrow index none = ok index
narrow index (some selection) =
    apply_selection selection index.tracks >>= λ tracks. ok (record index { tracks = tracks })

-- An error is named by the position of its clip.
abbrev pub named {ℓ} : {A : Type ℓ} → ℕ → Result A → Result A
named position (ok a) = ok a
named position (err e) = err (invalid_media_with "clip {}: {}" (position ∷ []))
named position panic = panic

abbrev pub trailing_of : List ClipPlan → Trailing
trailing_of [] = keep
trailing_of (p ∷ ps) = cut

-- The loop of `build` that cuts the clips, each with its start; the end of the last is the total.
unfoldable pub trim_clips :
    List MediaIndex → ℕ → ℕ → List ClipPlan → Result (List (ℕ × MediaIndex) × ℕ)
unfolding narrow trim
trim_clips files position start [] = ok ([], start)
trim_clips files position start (p ∷ ps) = do
  file ← expect (get_elem? files p.file)
  index ← named position (narrow file p.tracks)
  trimmed ← named position (trim index p.window start (trailing_of ps))
  rest ← trim_clips files (position + 1) trimmed.end ps
  ok ((start, trimmed.index) ∷ rest.0, rest.1)

-- `u32::try_from(count)`, and the checked sum.
abbrev pub segments_behind : ℕ → ℕ → Option ℕ
segments_behind next count =
    if ltb count (2 ^ 32) && ltb (next + count) (2 ^ 32) then some (next + count) else none

-- The loop of `assemble` that numbers the first segments, over how many segments each clip has.
unfoldable pub first_segments : ℕ → List ℕ → Result (List ℕ)
first_segments next [] = ok []
first_segments next (count ∷ counts) =
    ok_or (segments_behind next count) (invalid_media "a sequence has too many segments")
    >>= λ behind. first_segments behind counts >>= λ rest. ok (next ∷ rest)

-- The clip before the place that `partition_point` finds, and the local number.
abbrev pub clip_before : List ℕ → ℕ → ℕ → Result (ℕ × ℕ)
clip_before firsts index zero = panic
clip_before firsts index (suc clip) =
    expect (get_elem? firsts clip) >>= λ first. ok (clip, index - first)

-- The clip of a global segment in `prepare_segment`, and the segment's number in it.
unfoldable pub locate_segment : List ℕ → ℕ → Result (ℕ × ℕ)
unfolding partition_point
locate_segment firsts index =
    clip_before firsts index (partition_point (λ first. leb first index) firsts)
