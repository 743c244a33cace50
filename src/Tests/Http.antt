-- ===== src/Tests/Http.antt =====
-- Runs of the code of src/http/range.rs and src/http/stream.rs: a part of a small segment whose two
-- tracks are interleaved in the file.
use segmentor.Common.{
  ℕ, ◌+◌, ◌-◌, ◌≡◌, refl, sym, true, false, none, some, List, [], ◌∷◌, ◌++◌, slice, All, ◌≤◌, arith,
}
use mathlib.Core.Option.{some-injective}
use segmentor.Common.Bytes.{Bytes}
use segmentor.Fmp4.Fragment.{ByteRange, PreparedSegment}
use segmentor.Fmp4.Fragment.Ranges.{total_length}
use segmentor.Http.Range.{
  ByteInterval, requested_range, bytes_unit, overlap, is_text, strip_prefix, has_byte, split_once,
  parse_digits, parse_u64, suffix_range, end_before, bounds_of, checked_range, range_of_text,
}
use segmentor.Http.Range.Bounds.{IsInside, requested_range-IsInside}
use segmentor.Http.Coalesce.{
  coalesce, coalesce_pieces_from, piece_fits, read_bytes, requested_pieces, gap_budget_bytes,
}
use segmentor.Http.Coalesce.Order.{served, IsBounded, coalesce-IsBounded}
use segmentor.Http.Coalesce.Budget.{coalesce-WithinBudget}
use segmentor.Http.Windows.{
  Window, interleaved_windows, is_interleaved, tag_from, last_run, any_longer, held_bytes,
  insert_member, sort_members, windows_of, windows_from, window_bytes,
}
use segmentor.Http.Windows.Short.{interleaved_windows-IsShort}
use segmentor.Http.Stream.{
  Outside, StreamState, stream, done, sent, chunk, read_range, send, read, send_header,
  route_members, route, hold, serve_windows, send_chunks, send_held, stream_interleaved,
}
use segmentor.Http.Stream.Delivery.{IsSource, IsWilling, Delivers}
use segmentor.Http.Stream.Parts.{AnyUnit}
use segmentor.Http.Stream.Body.{IsServable, stream-Delivers}

-- `bytes=2-5`
abbrev range_text : Bytes
range_text = bytes_unit ++ b'2' ∷ b'-' ∷ b'5' ∷ []

requested_range-IsInside_example : IsInside 10 (record { start = 2; end = 6 })
unfolding requested_range is_text strip_prefix has_byte split_once parse_digits parse_u64
    suffix_range end_before bounds_of checked_range range_of_text
requested_range-IsInside_example =
    requested_range-IsInside (some range_text) false 10 (record { start = 2; end = 6 }) refl

abbrev small_file : Bytes
small_file = 0 ∷ 1 ∷ 2 ∷ 3 ∷ 4 ∷ 5 ∷ 6 ∷ 7 ∷ 8 ∷ 9 ∷ 10 ∷ 11 ∷ 12 ∷ 13 ∷ []

abbrev at : ℕ → ℕ → ByteRange
at offset size = record { offset = offset; length = size }

abbrev two_tracks : List ByteRange
two_tracks = at 4 2 ∷ at 8 2 ∷ at 6 2 ∷ at 10 2 ∷ []

abbrev muxed : PreparedSegment
muxed = record { header = 100 ∷ 101 ∷ 102 ∷ []; ranges = two_tracks; content_length = 11 }

coalesce-IsBounded_example :
    (served (coalesce two_tracks 8) ≡ two_tracks) × All (IsBounded 8) (coalesce two_tracks 8)
coalesce-IsBounded_example = coalesce-IsBounded two_tracks 8

coalesce-WithinBudget_example :
    read_bytes (coalesce two_tracks 8) ≤ total_length two_tracks + gap_budget_bytes
coalesce-WithinBudget_example = coalesce-WithinBudget two_tracks 8

-- Both tracks are read at once.
abbrev one_window : List Window
one_window =
    record {
      start = 4;
      end = 12;
      members = (0, at 4 2) ∷ (1, at 6 2) ∷ (0, at 8 2) ∷ (1, at 10 2) ∷ [];
    }
    ∷ []

interleaved_windows-IsShort_example :
    All (λ w. w.end - w.start ≤ 8) one_window
    × (window_bytes one_window ≤ total_length two_tracks + gap_budget_bytes)
unfolding interleaved_windows is_interleaved tag_from last_run any_longer held_bytes insert_member
    sort_members windows_of windows_from window_bytes coalesce coalesce_pieces_from piece_fits
    read_bytes
interleaved_windows-IsShort_example = interleaved_windows-IsShort two_tracks 8 one_window refl

-- A client that takes everything, and the file.
abbrev prompt : Outside
prompt = record {
  accept = λ history item. none;
  permit = λ history. true;
  read = λ history r. some (slice small_file r.offset (r.offset + r.length));
}

prompt-IsSource : IsSource prompt small_file
prompt-IsSource history r bytes e = sym (some-injective _ _ e)

prompt-IsWilling : IsWilling prompt small_file
prompt-IsWilling = record {
  accepts = λ history item. refl;
  permits = λ history. refl;
  answers = λ history r h e. cc e;
}

muxed-IsServable : IsServable small_file muxed 8
muxed-IsServable = record {
  chunk_size_pos = omega arith;
  header_is_u64 = omega arith;
  file_is_u64 = omega arith;
  ranges_fit = (omega arith, (omega arith, (omega arith, (omega arith, tt))));
}

abbrev fresh : StreamState
fresh = record { first_permit = false; history = [] }

abbrev asked : ByteInterval
asked = record { start = 1; end = 9 }

-- Two bytes of the header, two pieces of the first track, and one of the second.
muxed_run :
    stream prompt muxed asked 8 fresh
    ≡ done tt (record fresh {
      history =
          sent (chunk (6 ∷ 7 ∷ []))
          ∷ sent (chunk (4 ∷ 5 ∷ 8 ∷ 9 ∷ []))
          ∷ read_range (at 4 6)
          ∷ sent (chunk (101 ∷ 102 ∷ []))
          ∷ [];
    })
unfolding stream overlap send_header send read requested_pieces interleaved_windows is_interleaved
    tag_from last_run any_longer held_bytes insert_member sort_members windows_of windows_from
    window_bytes coalesce coalesce_pieces_from piece_fits read_bytes stream_interleaved
    serve_windows route_members route hold send_held send_chunks
muxed_run = refl

stream-Delivers_example :
    Delivers prompt small_file AnyUnit fresh
      (101 ∷ 102 ∷ 4 ∷ 5 ∷ 8 ∷ 9 ∷ 6 ∷ 7 ∷ [])
      (stream prompt muxed asked 8 fresh)
stream-Delivers_example =
    stream-Delivers prompt small_file prompt-IsSource muxed asked 8 fresh muxed-IsServable
