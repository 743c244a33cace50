-- ===== src/Media/Selection/Numbers.antt =====
-- What `apply` of src/media/selection.rs leaves of a file's tracks.
use segmentor.Common.{
  ℕ, ◌+◌, ◌<◌, ◌≡◌, refl, sym, ap, Bool, true, false, List, [], ◌∷◌, arith, ltb, if◌then◌else◌,
  length, if-cases, ◌⊎◌, inl, inr,
}
use mathlib.Core.Path.{subst}
use segmentor.Error.{
  ok, panic, ◌>>=◌, Ensures, ensures-ok, ensures-err, ensures-bind, ensures-mono, invalid_media,
}
use segmentor.Media.Sample.{TrackKind, audio, video}
use segmentor.Media.Track.{Track, TrackKey}
use segmentor.Media.Selection.{
  Pick, nothing, every, nth, picks, TrackSelection, Seen, one_more, count_track, kept_tracks,
  numbered_tracks, non_empty, apply_selection,
}

-- The pick takes the track with this number among those of its kind, counted from 1.
abbrev pub Takes : Pick → ℕ → Type 0
Takes nothing number = ⊥
Takes every number = Unit
Takes (nth n) number = number ≡ n

-- The selection takes the next track of the kind, behind the tracks that are counted.
abbrev pub Wants : TrackSelection → Seen → TrackKind → Type 0
Wants s seen video = Takes s.video_pick (seen.videos + 1)
Wants s seen audio = Takes s.audio_pick (seen.audios + 1)

abbrev pub counted : Seen → TrackKind → Seen
counted seen video = record seen { videos = seen.videos + 1 }
counted seen audio = record seen { audios = seen.audios + 1 }

-- A track with nothing but its key changed.
abbrev pub Renamed : Track → Track → Type 0
Renamed t u = u ≡ record t { key = u.key }

-- The tracks that the selection takes, in their order, related to the tracks of the file.
abbrev pub Picked :
    (Track → Track → Type 0) → TrackSelection → Seen → List Track → List Track → Type 0
Picked R s seen [] [] = Unit
Picked R s seen [] (u ∷ us) = ⊥
Picked R s seen (t ∷ ts) [] = ¬ (Wants s seen t.kind) × Picked R s (counted seen t.kind) ts []
Picked R s seen (t ∷ ts) (u ∷ us) =
    (Wants s seen t.kind × R t u × Picked R s (counted seen t.kind) ts us)
    ⊎ (¬ (Wants s seen t.kind) × Picked R s (counted seen t.kind) ts (u ∷ us))

-- The key that a kind's next track gets, and the number of audio tracks with it.
abbrev pub KeyOf : ℕ → TrackKind → TrackKey → Type 0
KeyOf audios video key = key ≡ record { kind = video; ordinal = 1 }
KeyOf audios audio key = key ≡ record { kind = audio; ordinal = audios + 1 }

abbrev pub audios_with : ℕ → TrackKind → ℕ
audios_with audios video = audios
audios_with audios audio = audios + 1

-- Audio tracks numbered afresh in order.
abbrev pub Numbered : ℕ → List Track → Type 0
Numbered audios [] = Unit
Numbered audios (t ∷ ts) = KeyOf audios t.kind t.key × Numbered (audios_with audios t.kind) ts

-- The tracks that the selection takes, unchanged.
abbrev Kept : TrackSelection → Seen → List Track → List Track → Type 0
Kept = Picked (λ t u. t ≡ u)

Kept-skip :
    (s : TrackSelection) (seen : Seen) (t : Track) (ts us : List Track)
    → ¬ (Wants s seen t.kind)
    → Kept s (counted seen t.kind) ts us
    → Kept s seen (t ∷ ts) us
Kept-skip s seen t ts [] n h = (n, h)
Kept-skip s seen t ts (u ∷ us) n h = inr (n, h)

-- The test tells whether the statement holds.
abbrev Tells : Bool → Type 0 → Type 0
Tells b P = (b ≡ true → P) × (b ≡ false → ¬ P)

picks-Tells : (pick : Pick) (number : ℕ) → Tells (picks pick number) (Takes pick number)
picks-Tells nothing number = (λ e. cc e, λ _ h. h)
picks-Tells every number = (λ _. tt, λ e. cc e)
picks-Tells (nth n) number = (λ e. ground (arith, e), λ e h. ground (arith, e, h))

if-ok : (b : Bool) {x n : ℕ} → (if b then ok x else panic) ≡ ok n → n ≡ x
if-ok true e = cc e
if-ok false e = cc e

abbrev IsCounted : TrackSelection → Seen → TrackKind → Bool × Seen → Type 0
IsCounted s seen kind p = Tells p.0 (Wants s seen kind) × (p.1 ≡ counted seen kind)

count_track-IsCounted :
    (s : TrackSelection) (seen : Seen) (kind : TrackKind)
    → Ensures (count_track s seen kind) (IsCounted s seen kind)
unfolding count_track
count_track-IsCounted s seen video = ensures-bind (one_more seen.videos) λ n e.
    let same : n ≡ seen.videos + 1 = if-ok (ltb (seen.videos + 1) 65536) e in
    ensures-ok (
      subst (λ n. Tells (picks s.video_pick n) (Takes s.video_pick (seen.videos + 1))) (sym same)
          (picks-Tells s.video_pick (seen.videos + 1)),
      ap (λ n. record seen { videos = n }) same,
    )
count_track-IsCounted s seen audio = ensures-bind (one_more seen.audios) λ n e.
    let same : n ≡ seen.audios + 1 = if-ok (ltb (seen.audios + 1) 65536) e in
    ensures-ok (
      subst (λ n. Tells (picks s.audio_pick n) (Takes s.audio_pick (seen.audios + 1))) (sym same)
          (picks-Tells s.audio_pick (seen.audios + 1)),
      ap (λ n. record seen { audios = n }) same,
    )

kept_tracks-Kept :
    (s : TrackSelection) (seen : Seen) (ts : List Track)
    → Ensures (kept_tracks s seen ts) (Kept s seen ts)
unfolding kept_tracks
kept_tracks-Kept s seen [] = ensures-ok tt
kept_tracks-Kept s seen (t ∷ ts) = ensures-bind (count_track s seen t.kind) λ p c.
    let (tells, next) = (count_track-IsCounted s seen t.kind).holds p c in
    ensures-bind (kept_tracks s p.1 ts) λ rest e.
      let h = subst (λ seen. Kept s seen ts rest) next ((kept_tracks-Kept s p.1 ts).holds rest e) in
      ensures-ok (
        if-cases (Kept s seen (t ∷ ts)) p.0 (λ b. inl (tells.0 b, refl, h))
          (λ b. Kept-skip s seen t ts rest (tells.1 b) h))

-- Tracks that differ in their keys alone.
abbrev AllRenamed : List Track → List Track → Type 0
AllRenamed [] [] = Unit
AllRenamed [] (u ∷ us) = ⊥
AllRenamed (t ∷ ts) [] = ⊥
AllRenamed (t ∷ ts) (u ∷ us) = Renamed t u × AllRenamed ts us

-- The key that a track gets is the one of its kind.
keyed :
    (t : Track) (kind : TrackKind) (audios : ℕ) (key : TrackKey) (ts us : List Track)
    → t.kind ≡ kind
    → KeyOf audios kind key
    → AllRenamed ts us × Numbered (audios_with audios kind) us
    → AllRenamed (t ∷ ts) (record t { key = key } ∷ us)
      × Numbered audios (record t { key = key } ∷ us)
keyed t kind audios key ts us e h k = (
  (refl, k.0),
  subst (λ kind. KeyOf audios kind key × Numbered (audios_with audios kind) us) (sym e) (h, k.1),
)

numbered_tracks-Numbered :
    (audios : ℕ) (ts : List Track)
    → Ensures (numbered_tracks audios ts) (λ us. AllRenamed ts us × Numbered audios us)
unfolding numbered_tracks
numbered_tracks-Numbered audios [] = ensures-ok (tt, tt)
numbered_tracks-Numbered audios (t ∷ ts) = of_kind t.kind refl (λ n. numbered_tracks-Numbered n ts)
  where
    of_kind :
        (kind : TrackKind)
        → t.kind ≡ kind
        → ((n : ℕ) → Ensures (numbered_tracks n ts) (λ us. AllRenamed ts us × Numbered n us))
        → Ensures
            (elim kind [
              | video ↦ numbered_tracks audios ts >>= λ rest.
                  ok (record t { key = record { kind = video; ordinal = 1 } } ∷ rest)
              | audio ↦ one_more audios >>= λ n. numbered_tracks n ts >>= λ rest.
                  ok (record t { key = record { kind = audio; ordinal = n } } ∷ rest)
            ])
            (λ us. AllRenamed (t ∷ ts) us × Numbered audios us)
    of_kind video e h = ensures-bind (numbered_tracks audios ts) λ rest f. ensures-ok (
        keyed t video audios (record { kind = video; ordinal = 1 }) ts rest e refl
          ((h audios).holds rest f))
    of_kind audio e h = ensures-bind (one_more audios) λ n g.
        let same : n ≡ audios + 1 = if-ok (ltb (audios + 1) 65536) g in
        ensures-bind (numbered_tracks n ts) λ rest f. ensures-ok (
          keyed t audio audios (record { kind = audio; ordinal = n }) ts rest e
            (ap (λ n. record { kind = audio; ordinal = n }) same)
            (subst (λ n. AllRenamed ts rest × Numbered n rest) same ((h n).holds rest f)))

Picked-AllRenamed :
    (s : TrackSelection) (seen : Seen) (ts us vs : List Track)
    → Kept s seen ts us
    → AllRenamed us vs
    → Picked Renamed s seen ts vs
Picked-AllRenamed s seen [] [] [] h k = tt
Picked-AllRenamed s seen [] [] (v ∷ vs) h k = absurd k
Picked-AllRenamed s seen [] (u ∷ us) vs h k = absurd h
Picked-AllRenamed s seen (t ∷ ts) [] [] h k =
    (h.0, Picked-AllRenamed s (counted seen t.kind) ts [] [] h.1 k)
Picked-AllRenamed s seen (t ∷ ts) [] (v ∷ vs) h k = absurd k
Picked-AllRenamed s seen (t ∷ ts) (u ∷ us) [] h k = absurd k
Picked-AllRenamed s seen (t ∷ ts) (u ∷ us) (v ∷ vs) (inl h) k = inl (
  h.0,
  subst (λ x. Renamed x v) (sym h.1) k.0,
  Picked-AllRenamed s (counted seen t.kind) ts us vs h.2 k.1,
)
Picked-AllRenamed s seen (t ∷ ts) (u ∷ us) (v ∷ vs) (inr h) k =
    inr (h.0, Picked-AllRenamed s (counted seen t.kind) ts (u ∷ us) (v ∷ vs) h.1 k)

numbered-not_empty : (ts us : List Track) → 0 < length ts → AllRenamed ts us → 0 < length us
numbered-not_empty [] us h k = absurd (omega arith)
numbered-not_empty (t ∷ ts) [] h k = absurd k
numbered-not_empty (t ∷ ts) (u ∷ us) h k = omega arith

non_empty-ok : (ts : List Track) → Ensures (non_empty ts) (λ us. (us ≡ ts) × (0 < length us))
non_empty-ok [] = ensures-err (invalid_media "tracks `{}` selects no track of this file")
non_empty-ok (t ∷ ts) = ensures-ok (refl, omega arith)

-- What is left of the tracks.
abbrev pub IsSelected : TrackSelection → List Track → List Track → Type 0
IsSelected s tracks kept =
    Picked Renamed s (record { videos = 0; audios = 0 }) tracks kept
    × Numbered 0 kept
    × (0 < length kept)

apply_selection-Ensures :
    (s : TrackSelection) (tracks : List Track)
    → Ensures (apply_selection s tracks) (IsSelected s tracks)
unfolding apply_selection
apply_selection-Ensures s tracks =
    let seen : Seen = record { videos = 0; audios = 0 } in
    ensures-bind (kept_tracks s seen tracks) λ kept e. ensures-bind (non_empty kept) λ some_kept f.
      ensures-mono
        (λ us h.
          let filled = (non_empty-ok kept).holds some_kept f in
          (
            Picked-AllRenamed s seen tracks some_kept us
                (subst (Kept s seen tracks) (sym filled.0)
                  ((kept_tracks-Kept s seen tracks).holds kept e))
                h.0,
            h.1,
            numbered-not_empty some_kept us filled.1 h.0,
          ))
        (numbered_tracks-Numbered 0 some_kept)

-- When a selection leaves tracks of a file, they are exactly the tracks whose number among those of
-- their kind it takes, in their order and with nothing but their keys changed; the audio tracks are
-- numbered afresh from 1, and there is one track at least.
pub apply_selection-IsSelected :
    (s : TrackSelection) (tracks kept : List Track)
    → apply_selection s tracks ≡ ok kept
    → IsSelected s tracks kept
apply_selection-IsSelected s tracks kept e = (apply_selection-Ensures s tracks).holds kept e
