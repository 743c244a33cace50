-- ===== src/Media/Selection.antt =====
-- src/media/selection.rs: the selector of tracks. A text is its bytes. The overrides of an audio
-- track are only data.
pub mod Spelling
pub mod Numbers
use segmentor.Common.{
  ℕ, zero, suc, ◌+◌, ◌-◌, ◌*◌, ◌/◌, ◌%◌, Bool, true, false, Option, none, some, List, [], ◌∷◌, ◌++◌,
  ◌&&◌, ◌||◌, ltb, leb, ◌==◌, if◌then◌else◌, length,
}
use segmentor.Common.Bytes.{Bytes}
use segmentor.Error.{Result, ok, err, panic, ◌>>=◌, invalid_media}
use segmentor.Media.Sample.{TrackKind, audio, video}
use segmentor.Media.Track.{Track, TrackKey}

pub data Pick : Type 0 where
  nothing every : Pick
  nth : ℕ → Pick

pub record TrackSelection : Type 0 where
  pub video_pick : Pick
  pub audio_pick : Pick

-- The two messages of `parse`.
pub data Refusal : Type 0 where
  invalid_selector named_twice : Refusal

pub data Parsed : Type 0 where
  accepted : TrackSelection → Parsed
  refused : Refusal → Parsed

abbrev pub max_bytes : ℕ
max_bytes = 32

abbrev pub onto_first : ℕ → List Bytes → List Bytes
onto_first b [] = (b ∷ []) ∷ []
onto_first b (part ∷ parts) = (b ∷ part) ∷ parts

-- `text.split('-')`
unfoldable pub split_parts : Bytes → List Bytes
split_parts [] = [] ∷ []
split_parts (b ∷ bs) =
    let rest = split_parts bs in if b == b'-' then [] ∷ rest else onto_first b rest

-- The value of decimal digits behind `value`, and nothing for other bytes.
unfoldable pub decimal_value : ℕ → Bytes → Option ℕ
decimal_value value [] = some value
decimal_value value (b ∷ bs) = elim (leb b'0' b && leb b b'9') [
  | true ↦ decimal_value (value * 10 + (b - b'0')) bs
  | false ↦ none
]

abbrev pub fit_u8 : Option ℕ → Option ℕ
fit_u8 none = none
fit_u8 (some n) = if ltb n 256 then some n else none

-- One to three digits, as a `u8`.
unfoldable pub parse_number : Bytes → Option ℕ
unfolding decimal_value
parse_number digits =
    if length digits == 0 || ltb 3 (length digits) then none else fit_u8 (decimal_value 0 digits)

abbrev pub pick_of : ℕ → Pick
pick_of number = if number == 0 then every else nth number

-- The letter of a part. A byte that begins a longer character is not a letter either.
abbrev pub kind_of : ℕ → Option TrackKind
kind_of b = if b == b'v' then some video else (if b == b'a' then some audio else none)

abbrev pub part_with : Option ℕ → Option TrackKind → Option (TrackKind × Pick)
part_with none kind = none
part_with (some number) none = none
part_with (some number) (some kind) = some (kind, pick_of number)

unfoldable pub parse_part : Bytes → Option (TrackKind × Pick)
unfolding parse_number
parse_part [] = none
parse_part (b ∷ digits) = part_with (parse_number digits) (kind_of b)

abbrev pub is_nothing : Pick → Bool
is_nothing nothing = true
is_nothing every = false
is_nothing (nth n) = false

-- The slot of the kind, which must be free.
unfoldable pub fill : TrackSelection → TrackKind → Pick → Option TrackSelection
fill s video pick = if is_nothing s.video_pick then some (record s { video_pick = pick }) else none
fill s audio pick = if is_nothing s.audio_pick then some (record s { audio_pick = pick }) else none

unfoldable pub parse_parts : TrackSelection → List Bytes → Parsed
unfolding parse_part fill
parse_parts s [] = accepted s
parse_parts s (part ∷ parts) = elim (parse_part part) [
  | none ↦ refused invalid_selector
  | some p ↦ elim (fill s p.0 p.1) [
    | none ↦ refused named_twice
    | some filled ↦ parse_parts filled parts
  ]
]

abbrev pub no_selection : TrackSelection
no_selection = record { video_pick = nothing; audio_pick = nothing }

unfoldable pub parse_selection : Bytes → Parsed
unfolding parse_parts split_parts
parse_selection text =
    if length text == 0 || ltb max_bytes (length text)
    then refused invalid_selector
    else parse_parts no_selection (split_parts text)

-- A `u8` in decimal.
unfoldable pub decimal : ℕ → Bytes
decimal n =
    if ltb n 10
    then (b'0' + n) ∷ []
    else if ltb n 100
    then (b'0' + n / 10) ∷ (b'0' + n % 10) ∷ []
    else (b'0' + n / 100) ∷ (b'0' + n / 10 % 10) ∷ (b'0' + n % 10) ∷ []

unfoldable pub part_of : ℕ → Pick → Option Bytes
unfolding decimal
part_of letter nothing = none
part_of letter every = some (letter ∷ b'0' ∷ [])
part_of letter (nth n) = some (letter ∷ decimal n)

-- `join("-")` of the parts that there are.
abbrev pub join_parts : Option Bytes → Option Bytes → Bytes
join_parts none none = []
join_parts none (some b) = b
join_parts (some a) none = a
join_parts (some a) (some b) = a ++ b'-' ∷ b

unfoldable pub canonical : TrackSelection → Bytes
unfolding part_of
canonical s = join_parts (part_of b'v' s.video_pick) (part_of b'a' s.audio_pick)

-- The tracks of each kind so far: `videos` and `audios`, which are `u16`.
pub record Seen : Type 0 where
  pub videos : ℕ
  pub audios : ℕ

abbrev pub picks : Pick → ℕ → Bool
picks nothing seen = false
picks every seen = true
picks (nth n) seen = seen == n

abbrev pub one_more : ℕ → Result ℕ
one_more n = if ltb (n + 1) 65536 then ok (n + 1) else panic

-- Whether a track is kept, and the counts behind it.
unfoldable pub count_track : TrackSelection → Seen → TrackKind → Result (Bool × Seen)
count_track s seen video =
    one_more seen.videos >>= λ n. ok (picks s.video_pick n, record seen { videos = n })
count_track s seen audio =
    one_more seen.audios >>= λ n. ok (picks s.audio_pick n, record seen { audios = n })

unfoldable pub kept_tracks : TrackSelection → Seen → List Track → Result (List Track)
unfolding count_track
kept_tracks s seen [] = ok []
kept_tracks s seen (t ∷ ts) = count_track s seen t.kind >>= λ p.
    kept_tracks s p.1 ts >>= λ rest. ok (if p.0 then t ∷ rest else rest)

unfoldable pub numbered_tracks : ℕ → List Track → Result (List Track)
numbered_tracks audios [] = ok []
numbered_tracks audios (t ∷ ts) = elim t.kind [
  | video ↦ numbered_tracks audios ts >>= λ rest.
      ok (record t { key = record { kind = video; ordinal = 1 } } ∷ rest)
  | audio ↦ one_more audios >>= λ n. numbered_tracks n ts >>= λ rest.
      ok (record t { key = record { kind = audio; ordinal = n } } ∷ rest)
]

abbrev pub non_empty : List Track → Result (List Track)
non_empty [] = err (invalid_media "tracks `{}` selects no track of this file")
non_empty (t ∷ ts) = ok (t ∷ ts)

unfoldable pub apply_selection : TrackSelection → List Track → Result (List Track)
unfolding kept_tracks numbered_tracks
apply_selection s tracks = kept_tracks s (record { videos = 0; audios = 0 }) tracks >>= λ kept.
    non_empty kept >>= numbered_tracks 0
