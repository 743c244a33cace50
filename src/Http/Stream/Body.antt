-- ===== src/Http/Stream/Body.antt =====
-- What the whole task of src/http/stream.rs sends, against the bytes of the segment.
use segmentor.Common.{
  ℕ, suc, ◌-◌, ◌<◌, ◌≡◌, refl, sym, ap, ◌∙◌, min, max, Option, none, some, List, ◌++◌, length,
  slice, arith, ltb, All, if-cases, if-some, ◌&&◌, ltb→ge,
}
use mathlib.Core.Path.{subst}
use segmentor.Common.Bytes.{Bytes}
use segmentor.Common.Slices.{slice-empty, slice-append_both}
use segmentor.Error.{u64_mod}
use segmentor.Fmp4.Fragment.{ByteRange, PreparedSegment}
use segmentor.Http.Range.{ByteInterval, overlap}
use segmentor.Http.Coalesce.{requested_pieces, coalesce, read_bytes}
use segmentor.Http.Coalesce.Order.{coalesce-IsBounded}
use segmentor.Http.Windows.{
  Window, interleaved_windows, windows_of, sort_members, tag_from, is_interleaved, Member,
  window_bytes,
}
use segmentor.Http.Windows.Order.{
  members_of, windows_of-members, windows_of-IsWindow, IsWindow, All-sort_members,
  sort_members-Sorted, tag_from-All,
}
use segmentor.Http.Stream.{Outside, StreamState, stream, stream_header, stream_pieces}
use segmentor.Http.Stream.Delivery.{IsSource, Delivers, >>=-Delivers, done-Delivers}
use segmentor.Http.Stream.Requested.{requested_pieces-parts, requested_pieces-Fits}
use segmentor.Http.Stream.Parts.{AnyUnit, send_header-Delivers}
use segmentor.Http.Stream.Reads.{parts, Fits, serve_reads-Delivers}
use segmentor.Http.Stream.Interleaved.{stream_interleaved-Delivers}
use segmentor.Http.Stream.Runs.{run_bytes, later_runs, first-later_runs, held-later_runs}

-- The bytes of a segment: its header, and what its ranges name in the file.
abbrev pub segment_bytes : Bytes → PreparedSegment → Bytes
segment_bytes file prepared = prepared.header ++ parts file prepared.ranges

-- A chunk of a byte at least, and a segment whose ranges lie inside the file.
pub record IsServable (file : Bytes) (prepared : PreparedSegment) (chunk_size : ℕ) : Type 0 where
  pub chunk_size_pos : 0 < chunk_size
  pub header_is_u64 : length prepared.header < u64_mod
  pub file_is_u64 : length file < u64_mod
  pub ranges_fit : All (Fits file) prepared.ranges

-- The windows of the interleaved plan.
interleaved_windows-eq :
    (ps : List ByteRange) (chunk_size : ℕ) (ws : List Window)
    → interleaved_windows ps chunk_size ≡ some ws
    → windows_of chunk_size (sort_members (tag_from 0 0 ps)) ≡ ws
unfolding interleaved_windows
interleaved_windows-eq ps chunk_size ws e =
    (if-some
      (is_interleaved ps chunk_size
        && ltb (window_bytes (windows_of chunk_size (sort_members (tag_from 0 0 ps))))
            (read_bytes (coalesce ps chunk_size)))
      e).1

module _ (outside : Outside) (file : Bytes) where
  windows-Delivers :
      IsSource outside file
      → (chunk_size : ℕ) (ps : List ByteRange) (ws : List Window) (s : StreamState)
      → length file < u64_mod
      → All (Fits file) ps
      → windows_of chunk_size (sort_members (tag_from 0 0 ps)) ≡ ws
      → Delivers outside file AnyUnit s
          (parts file ps)
          (stream_pieces outside chunk_size ps (some ws) s)
  windows-Delivers is_source chunk_size ps ws s h k e =
      let sorted : List Member = sort_members (tag_from 0 0 ps) in
      let members : members_of ws ≡ sorted =
        ap members_of (sym e) ∙ windows_of-members chunk_size sorted in
      let fit : All (IsWindow (length file)) ws = subst (All (IsWindow (length file))) e (
        windows_of-IsWindow (length file) chunk_size sorted
          (All-sort_members (λ m. Fits file m.1) (tag_from 0 0 ps)
            (tag_from-All (Fits file) 0 0 ps k))
          (sort_members-Sorted (tag_from 0 0 ps))) in
      subst
        (λ x. Delivers outside file AnyUnit s x (stream_pieces outside chunk_size ps (some ws) s))
        (ap (λ ms. run_bytes file ms 0 ++ later_runs file ps) members ∙ first-later_runs file ps)
        (stream_interleaved-Delivers outside file is_source chunk_size ws (later_runs file ps) s h
          fit
          (λ held f.
            held-later_runs file ps held λ i. f i ∙ ap (λ ms. run_bytes file ms (suc i)) members))

  stream_pieces-Delivers :
      IsSource outside file
      → (chunk_size : ℕ) (ps : List ByteRange) (o : Option (List Window)) (s : StreamState)
      → interleaved_windows ps chunk_size ≡ o
      → 0 < chunk_size
      → length file < u64_mod
      → All (Fits file) ps
      → Delivers outside file AnyUnit s (parts file ps) (stream_pieces outside chunk_size ps o s)
  stream_pieces-Delivers is_source chunk_size ps none s e h k l =
      let planned = coalesce-IsBounded ps chunk_size in
      subst
        (λ qs.
          Delivers outside file AnyUnit s (parts file qs)
            (stream_pieces outside chunk_size ps none s))
        planned.0
        (serve_reads-Delivers outside file is_source chunk_size (coalesce ps chunk_size) s h
          planned.1 (subst (All (Fits file)) (sym planned.0) l))
  stream_pieces-Delivers is_source chunk_size ps (some ws) s e h k l =
      windows-Delivers is_source chunk_size ps ws s k l (interleaved_windows-eq ps chunk_size ws e)

module _ (outside : Outside) (file : Bytes) where
  stream_header-Delivers :
      (chunk_size : ℕ) (header : Bytes) (i : ByteInterval) (s : StreamState)
      → length header < u64_mod
      → Delivers outside file AnyUnit s
          (slice header i.start (min i.end (length header)))
          (stream_header outside chunk_size header (overlap i 0 (length header)) s)
  unfolding overlap
  stream_header-Delivers chunk_size header i s h =
      if-cases
        (λ (o : Option ByteInterval).
          Delivers outside file AnyUnit s (slice header i.start (min i.end (length header)))
            (stream_header outside chunk_size header o s))
        (ltb (max i.start 0) (min i.end (length header)))
        (λ e.
          let from : max i.start 0 ≡ i.start = omega arith in
          rw from (
            send_header-Delivers outside file (min i.end (length header) - i.start)
              (max chunk_size 1) header i.start (min i.end (length header)) s (omega arith)
              (omega arith) (omega arith)))
        (λ e.
          done-Delivers outside file AnyUnit tt s
            (slice-empty header i.start (min i.end (length header))
              (omega (arith, ltb→ge (max i.start 0) (min i.end (length header)) e)))
            tt)

  -- With chunks of a byte at least, a header and a file shorter than 2 ^ 64 bytes, ranges that lie
  -- inside the file, and a source that answers a read with that part of the file or fails, the task
  -- that streams a response refines sending the interval of the header and the ranges' bytes in one
  -- go: when it is done it has sent exactly those bytes, when it is aborted it has sent a prefix of
  -- them, which takes a client, a queue or a source that fails, and it is never stuck, whether the
  -- pieces are read one group at a time or the tracks together in windows.
  pub stream-Delivers :
      IsSource outside file
      → (prepared : PreparedSegment) (i : ByteInterval) (chunk_size : ℕ) (s : StreamState)
      → IsServable file prepared chunk_size
      → Delivers outside file AnyUnit s
          (slice (segment_bytes file prepared) i.start i.end)
          (stream outside prepared i chunk_size s)
  unfolding stream
  stream-Delivers is_source prepared i chunk_size s h =
      let header_end : ℕ = length prepared.header in
      let pieces : List ByteRange = requested_pieces i header_end prepared.ranges in
      >>=-Delivers outside file AnyUnit AnyUnit s
        (slice prepared.header i.start (min i.end header_end)) (parts file pieces)
        (stream_header outside chunk_size prepared.header (overlap i 0 header_end) s)
        (λ _. stream_pieces outside chunk_size pieces (interleaved_windows pieces chunk_size))
        (ap (◌++◌ (slice prepared.header i.start (min i.end header_end)))
            (requested_pieces-parts file i header_end prepared.ranges h.ranges_fit)
          ∙ sym (slice-append_both prepared.header (parts file prepared.ranges) i.start i.end))
        (stream_header-Delivers chunk_size prepared.header i s h.header_is_u64)
        (λ _ t _.
          stream_pieces-Delivers outside file is_source chunk_size pieces
            (interleaved_windows pieces chunk_size) t refl h.chunk_size_pos h.file_is_u64
            (requested_pieces-Fits file i header_end prepared.ranges h.ranges_fit))
