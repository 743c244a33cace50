-- ===== src/Http/Stream.antt =====
-- src/http/stream.rs: the task that streams the body of one segment. The client, the queue of jobs
-- and the source are outside of the task: they answer from the history of what the task did.
pub mod Delivery
pub mod Parts
pub mod Reads
pub mod Runs
pub mod Interleaved
pub mod Requested
pub mod Body
use segmentor.Common.{
  ℕ, zero, suc, ◌+◌, ◌-◌, min, max, Bool, true, false, Option, none, some, List, [], ◌∷◌, ◌++◌,
  ◌&&◌, ◌||◌, ◌==◌, String, ltb, leb, if◌then◌else◌, length, take, drop, slice, get_or,
}
use segmentor.Common.Bytes.{Bytes}
use segmentor.Error.{saturating_add}
use segmentor.Fmp4.Fragment.{ByteRange, PreparedSegment}
use segmentor.Http.Range.{ByteInterval, overlap}
use segmentor.Http.Coalesce.{Read, split, span, Span, requested_pieces, coalesce, piece_end}
use segmentor.Http.Windows.{Window, Member, interleaved_windows}

pub data StreamAbort : Type 0 where
  client : StreamAbort
  idle : StreamAbort
  error : StreamAbort

-- `std::io::Result<Bytes>`, which the sender takes.
pub data Item : Type 0 where
  chunk : Bytes → Item
  failure : String → Item

pub data Event : Type 0 where
  read_range : ByteRange → Event
  sent : Item → Event

-- `accept` is the send to the client under the idle timeout, `permit` whether a job slot comes
-- before the queue timeout, `read` the source's answer. The newest event comes first.
pub record Outside : Type 0 where
  pub accept : List Event → Item → Option StreamAbort
  pub permit : List Event → Bool
  pub read : List Event → ByteRange → Option Bytes

pub record StreamState : Type 0 where
  pub first_permit : Bool
  pub history : List Event

-- `stuck` is a slice out of range, or a loop out of fuel.
pub data Outcome {ℓ} (A : Type ℓ) : Type ℓ where
  done : A → StreamState → Outcome A
  aborted : StreamAbort → StreamState → Outcome A
  stuck : Outcome A

abbrev pub Task {ℓ} : Type ℓ → Type ℓ
Task A = StreamState → Outcome A

abbrev pub continue {ℓ κ} : {A : Type ℓ} {B : Type κ} → Outcome A → (A → Task B) → Outcome B
continue (done a s) rest = rest a s
continue (aborted reason s) rest = aborted reason s
continue stuck rest = stuck

infixl 5 ◌>>=◌
abbrev pub ◌>>=◌ {ℓ κ} : {A : Type ℓ} {B : Type κ} → Task A → (A → Task B) → Task B
task >>= rest = λ s. continue (task s) rest

infixl 5 ◌>>◌
abbrev pub ◌>>◌ {ℓ} : {B : Type ℓ} → Task (Unit {0}) → Task B → Task B
task >> rest = task >>= λ _. rest

abbrev pub finished : Task (Unit {0})
finished = done tt

abbrev pub stops {ℓ} : {A : Type ℓ} → Task A
stops s = stuck

abbrev pub after : Event → StreamState → StreamState
after event s = record s { history = event ∷ s.history }

abbrev pub sent_if : Option StreamAbort → Item → Task (Unit {0})
sent_if none item s = done tt (after (sent item) s)
sent_if (some reason) item s = aborted reason s

abbrev pub errored {ℓ} : {A : Type ℓ} → Outcome (Unit {0}) → Outcome A
errored (done _ s) = aborted error s
errored (aborted reason s) = aborted error s
errored stuck = stuck

-- `span.get(from..to)`
abbrev pub get_slice : Bytes → ℕ → ℕ → Option Bytes
get_slice bytes from to =
    if leb from to && leb to (length bytes) then some (slice bytes from to) else none

-- The bytes of each piece in a read that begins at `start`.
unfoldable pub joined_pieces : ℕ → Bytes → List ByteRange → Option Bytes
joined_pieces start bytes [] = some []
joined_pieces start bytes (p ∷ ps) =
    let rest = joined_pieces start bytes ps in
    elim (get_slice bytes (p.offset - start) (p.offset - start + p.length)) [
      | none ↦ none
      | some piece ↦ elim rest [ none ↦ none | some more ↦ some (piece ++ more) ]
    ]

-- `held[run - 1].extend_from_slice(bytes)`, after `held.resize_with(run, Vec::new)` when shorter;
-- the first argument is `run - 1`.
unfoldable pub hold : ℕ → Bytes → List Bytes → List Bytes
hold zero bytes [] = bytes ∷ []
hold zero bytes (h ∷ hs) = (h ++ bytes) ∷ hs
hold (suc n) bytes [] = [] ∷ hold n bytes []
hold (suc n) bytes (h ∷ hs) = h ∷ hold n bytes hs

-- The bytes that are ready to send, and those held for the later runs.
pub record Routed : Type 0 where
  pub ready : Bytes
  pub held : List Bytes

unfoldable pub route : ℕ → Bytes → Routed → Routed
unfolding hold
route zero bytes r = record r { ready = r.ready ++ bytes }
route (suc run) bytes r = record r { held = hold run bytes r.held }

-- The loop over a window's members.
unfoldable pub route_members : ℕ → Bytes → List Member → Routed → Option Routed
unfolding route
route_members start bytes [] r = some r
route_members start bytes (m ∷ ms) r =
    elim (get_slice bytes (m.1.offset - start) (saturating_add (m.1.offset - start) m.1.length)) [
      | none ↦ none
      | some piece ↦ route_members start bytes ms (route m.0 piece r)
    ]

module _ (outside : Outside) where
  unfoldable pub send : Item → Task (Unit {0})
  send item s = sent_if (outside.accept s.history item) item s

  unfoldable pub fail {ℓ} : {A : Type ℓ} → String → Task A
  unfolding send
  fail message s = errored (send (failure message) s)

  -- The answer of the source, when a slot is held.
  abbrev pub answered : ByteRange → Option Bytes → Task Bytes
  answered r none s = fail "source read failed" s
  answered r (some bytes) s = done bytes s

  unfoldable pub read : ℕ → ℕ → Task Bytes
  unfolding fail
  read offset size s =
      if s.first_permit || outside.permit s.history
      then answered (record { offset = offset; length = size })
          (outside.read s.history (record { offset = offset; length = size }))
          (after (read_range (record { offset = offset; length = size }))
            (record s { first_permit = false }))
      else fail "segment read queue timed out" s

  -- The loop that sends `at..end` of the header in pieces of `chunk_size`, which is not 0.
  unfoldable pub send_header : ℕ → ℕ → Bytes → ℕ → ℕ → Task (Unit {0})
  unfolding send
  send_header zero chunk_size header at end = if ltb at end then stops else finished
  send_header (suc fuel) chunk_size header at end = elim (ltb at end) [
    | true ↦
        send (chunk (slice header at (min end (saturating_add at chunk_size))))
        >> send_header fuel chunk_size header (min end (saturating_add at chunk_size)) end
    | false ↦ finished
  ]

  -- The loop of `Read::Split`.
  unfoldable pub send_split : ℕ → ℕ → ℕ → ℕ → Task (Unit {0})
  unfolding send read
  send_split fuel chunk_size offset zero = finished
  send_split zero chunk_size offset (suc remaining) = stops
  send_split (suc fuel) chunk_size offset (suc remaining) =
      read offset (min (suc remaining) chunk_size) >>= λ bytes.
      send (chunk bytes)
      >> send_split fuel chunk_size (offset + min (suc remaining) chunk_size)
          (suc remaining - min (suc remaining) chunk_size)

  -- `span.slice(..length)`, which panics when the read was too short.
  abbrev pub prefix_of : Bytes → ℕ → Task Bytes
  prefix_of bytes size = if leb size (length bytes) then done (take size bytes) else stops

  abbrev pub or_too_short {ℓ} : {A : Type ℓ} → Option A → Task A
  or_too_short none = fail "source read was shorter than requested"
  or_too_short (some a) = done a

  -- The chunk made of the bytes of a `Read::Span`.
  unfoldable pub chunk_of : Span → Bytes → Task Bytes
  unfolding fail joined_pieces
  chunk_of s bytes =
      if length s.pieces == 1 && piece_at s.pieces == s.start
      then prefix_of bytes (length_at s.pieces)
      else or_too_short (joined_pieces s.start bytes s.pieces)
    where
      piece_at : List ByteRange → ℕ
      piece_at [] = 0
      piece_at (p ∷ ps) = p.offset

      length_at : List ByteRange → ℕ
      length_at [] = 0
      length_at (p ∷ ps) = p.length

  unfoldable pub serve_read : ℕ → Read → Task (Unit {0})
  unfolding send read send_split chunk_of
  serve_read chunk_size (split p) = send_split p.length chunk_size p.offset p.length
  serve_read chunk_size (span s) =
      read s.start (s.end - s.start) >>= λ bytes. chunk_of s bytes >>= λ joined. send (chunk joined)

  unfoldable pub serve_reads : ℕ → List Read → Task (Unit {0})
  unfolding serve_read
  serve_reads chunk_size [] = finished
  serve_reads chunk_size (r ∷ rs) = serve_read chunk_size r >> serve_reads chunk_size rs

  abbrev pub send_ready : Bytes → Task (Unit {0})
  send_ready [] = finished
  send_ready (b ∷ bs) = send (chunk (b ∷ bs))

  -- The loop over the windows; what is held is left at the end.
  unfoldable pub serve_windows : List Window → List Bytes → Task (List Bytes)
  unfolding send read fail route_members
  serve_windows [] held = done held
  serve_windows (w ∷ ws) held = read w.start (w.end - w.start) >>= λ bytes.
      or_too_short (route_members w.start bytes w.members (record { ready = []; held = held }))
      >>= λ routed. send_ready routed.ready >> serve_windows ws routed.held

  -- `bytes.chunks(chunk_size)`, each sent.
  unfoldable pub send_chunks : ℕ → ℕ → Bytes → Task (Unit {0})
  unfolding send
  send_chunks fuel chunk_size [] = finished
  send_chunks zero chunk_size (b ∷ bs) = stops
  send_chunks (suc fuel) chunk_size (b ∷ bs) =
      send (chunk (take chunk_size (b ∷ bs)))
      >> send_chunks fuel chunk_size (drop chunk_size (b ∷ bs))

  unfoldable pub send_held : ℕ → List Bytes → Task (Unit {0})
  unfolding send_chunks
  send_held chunk_size [] = finished
  send_held chunk_size (bytes ∷ held) =
      send_chunks (length bytes) chunk_size bytes >> send_held chunk_size held

  unfoldable pub stream_interleaved : ℕ → List Window → Task (Unit {0})
  unfolding serve_windows send_held
  stream_interleaved chunk_size windows = serve_windows windows [] >>= send_held (max chunk_size 1)

  -- The header's part of the body.
  abbrev pub stream_header : ℕ → Bytes → Option ByteInterval → Task (Unit {0})
  stream_header chunk_size header none = finished
  stream_header chunk_size header (some i) =
      send_header (i.end - i.start) (max chunk_size 1) header i.start i.end

  -- The source's part, read in windows or group by group.
  abbrev pub stream_pieces : ℕ → List ByteRange → Option (List Window) → Task (Unit {0})
  stream_pieces chunk_size pieces (some windows) = stream_interleaved chunk_size windows
  stream_pieces chunk_size pieces none = serve_reads chunk_size (coalesce pieces chunk_size)

  unfoldable pub stream : PreparedSegment → ByteInterval → ℕ → Task (Unit {0})
  unfolding overlap send_header requested_pieces interleaved_windows coalesce serve_reads
      stream_interleaved
  stream prepared interval chunk_size =
      stream_header chunk_size prepared.header (overlap interval 0 (length prepared.header))
      >> (let pieces = requested_pieces interval (length prepared.header) prepared.ranges in
          stream_pieces chunk_size pieces (interleaved_windows pieces chunk_size))
