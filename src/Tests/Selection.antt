-- ===== src/Tests/Selection.antt =====
-- Runs of the code of src/media/selection.rs: `v1-a12` and `a1`.
use segmentor.Common.{◌≡◌, refl, [], ◌∷◌, arith}
use segmentor.Common.Bytes.{Bytes}
use segmentor.Media.Selection.{
  TrackSelection, nothing, nth, accepted, parse_selection, canonical, part_of, decimal,
  apply_selection, kept_tracks, count_track, numbered_tracks,
}
use segmentor.Media.Selection.Spelling.{parse_selection-canonical}
use segmentor.Media.Selection.Numbers.{IsSelected, apply_selection-IsSelected}
use segmentor.Tests.Planner.{film, sound}

abbrev first_and_twelfth : TrackSelection
first_and_twelfth = record { video_pick = nth 1; audio_pick = nth 12 }

-- `v1-a12`
abbrev selector : Bytes
selector = 118 ∷ 49 ∷ 45 ∷ 97 ∷ 49 ∷ 50 ∷ []

spelled : canonical first_and_twelfth ≡ selector
unfolding canonical part_of decimal
spelled = refl

parse_selection-canonical_example : parse_selection selector ≡ accepted first_and_twelfth
unfolding canonical part_of decimal
parse_selection-canonical_example =
    parse_selection-canonical first_and_twelfth (omega arith, omega arith)
      (omega arith, omega arith) refl

abbrev first_audio : TrackSelection
first_audio = record { video_pick = nothing; audio_pick = nth 1 }

apply_selection-IsSelected_example : IsSelected first_audio (film ∷ sound ∷ []) (sound ∷ [])
unfolding apply_selection kept_tracks count_track numbered_tracks
apply_selection-IsSelected_example =
    apply_selection-IsSelected first_audio (film ∷ sound ∷ []) (sound ∷ []) refl
