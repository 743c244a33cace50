-- ===== src/Cenc/Schedule.antt =====
-- src/cenc/schedule.rs: where the key periods of a rotating asset begin, in segments. What a period
-- is encrypted with is a parameter.
pub mod Places
use segmentor.Common.{
  ℕ, ◌-◌, ◌*◌, Bool, true, false, Option, none, some, List, [], ◌∷◌, ltb, leb, ◌==◌, if◌then◌else◌,
}
use segmentor.Error.{Result, ok, err, ◌>>=◌, invalid_media}
use segmentor.Media.Track.{Track}
use segmentor.Segment.Planner.{Segment, TrackSegment}

-- `KeyPeriod` of src/cenc/keys.rs.
pub record KeyPeriod (K : Type 0) : Type 0 where
  pub start_ms : ℕ
  pub encryption : Option K

pub record ScheduledPeriod (K : Type 0) : Type 0 where
  pub first_segment : ℕ
  pub encryption : Option K

-- `tracks.iter().find(|track| track.id == id)`
unfoldable pub find_track : ℕ → List Track → Option Track
find_track id [] = none
find_track id (t ∷ ts) = let rest = find_track id ts in if t.id == id then some t else rest

-- The decode time and the timescale of the first track's part.
unfoldable pub start_of : List Track → List TrackSegment → Option (ℕ × ℕ)
unfolding find_track
start_of tracks [] = none
start_of tracks (part ∷ parts) = elim (find_track part.track_id tracks) [
  | none ↦ none
  | some t ↦ some (part.decode_time, t.timescale)
]

abbrev pub time_or_zero : Option (ℕ × ℕ) → ℕ
time_or_zero none = 0
time_or_zero (some t) = t.0

unfoldable pub base_time : List Track → List Segment → ℕ
unfolding start_of
base_time tracks [] = 0
base_time tracks (s ∷ ss) = time_or_zero (start_of tracks s.tracks)

-- Does a segment with this start begin at or after `start_ms`?
abbrev pub is_reached : ℕ → ℕ → Option (ℕ × ℕ) → Bool
is_reached base start_ms none = false
is_reached base start_ms (some t) = leb (start_ms * t.1) ((t.0 - base) * 1000)

unfoldable pub starts_after : List Track → ℕ → ℕ → Segment → Bool
unfolding start_of
starts_after tracks base start_ms s = is_reached base start_ms (start_of tracks s.tracks)

unfoldable pub first_segment_of : (Segment → Bool) → List Segment → Option Segment
first_segment_of test [] = none
first_segment_of test (s ∷ ss) =
    let rest = first_segment_of test ss in if test s then some s else rest

-- `previous.first_segment >= first.index`
abbrev pub is_taken : Option ℕ → ℕ → Bool
is_taken none index = false
is_taken (some previous) index = leb index previous

module _ {K : Type 0} where
  -- The loop over the periods, from the last one that was placed.
  unfoldable pub place_periods :
      List Track
      → ℕ
      → List Segment
      → Option ℕ
      → List (KeyPeriod K)
      → Result (List (ScheduledPeriod K))
  unfolding starts_after first_segment_of
  place_periods tracks base plan previous [] = ok []
  place_periods tracks base plan previous (p ∷ ps) =
      elim (first_segment_of (starts_after tracks base p.start_ms) plan) [
        | none ↦ place_periods tracks base plan previous ps
        | some s ↦ elim (is_taken previous s.index) [
          | true ↦ err (invalid_media "two encryption periods begin in the same segment")
          | false ↦ place_periods tracks base plan (some s.index) ps >>= λ rest.
              ok (record { first_segment = s.index; encryption = p.encryption } ∷ rest)
        ]
      ]

  unfoldable pub schedule :
      K → List (KeyPeriod K) → List Track → List Segment → Result (List (ScheduledPeriod K))
  unfolding base_time place_periods
  schedule encryption [] tracks plan =
      ok (record { first_segment = 0; encryption = some encryption } ∷ [])
  schedule encryption (p ∷ ps) tracks plan =
      place_periods tracks (base_time tracks plan) plan none (p ∷ ps)
