-- ===== src/Http/Coalesce.antt =====
-- src/http/stream.rs: the pieces of the source that a body needs, and `coalesce`, which groups them
-- into reads. The sums of offsets and lengths are exact: a range lies inside a source, whose length
-- is a `u64`.
pub mod Order
pub mod Budget
use segmentor.Common.{
  ℕ, ◌+◌, ◌-◌, ◌*◌, Bool, true, false, Option, none, some, List, [], ◌∷◌, ◌++◌, ◌&&◌, ltb, leb,
  length,
}
use segmentor.Error.{checked_sub}
use segmentor.Fmp4.Fragment.{ByteRange}
use segmentor.Http.Range.{ByteInterval, overlap}

abbrev pub piece_end : ByteRange → ℕ
piece_end p = p.offset + p.length

abbrev pub piece_of : ℕ → ByteRange → ByteInterval → ByteRange
piece_of virtual_offset r shared = record {
  offset = r.offset + shared.start - virtual_offset;
  length = shared.end - shared.start;
}

-- The loop of `requested_pieces`: `virtual_offset` is where a range's bytes stand in the segment.
unfoldable pub requested_pieces : ByteInterval → ℕ → List ByteRange → List ByteRange
unfolding overlap
requested_pieces interval virtual_offset [] = []
requested_pieces interval virtual_offset (r ∷ rs) =
    let rest = requested_pieces interval (virtual_offset + r.length) rs in
    elim (overlap interval virtual_offset (virtual_offset + r.length)) [
      | none ↦ rest
      | some shared ↦ piece_of virtual_offset r shared ∷ rest
    ]

abbrev pub max_gap_bytes : ℕ
max_gap_bytes = 64 * 1024

abbrev pub gap_budget_bytes : ℕ
gap_budget_bytes = 256 * 1024

-- The fields of `Read::Span`, and the read being built.
pub record Span : Type 0 where
  pub start : ℕ
  pub end : ℕ
  pub pieces : List ByteRange

pub data Read : Type 0 where
  split : ByteRange → Read
  span : Span → Read

abbrev pub span_of : ByteRange → Span
span_of p = record { start = p.offset; end = piece_end p; pieces = p ∷ [] }

abbrev pub extended : Span → ByteRange → Span
extended s p = record { start = s.start; end = piece_end p; pieces = s.pieces ++ (p ∷ []) }

-- Does a gap, when the piece comes behind the read, stay within the limits?
abbrev pub gap_fits : ℕ → ℕ → Span → ByteRange → Option ℕ → Bool
gap_fits chunk_size gap_spent s p none = false
gap_fits chunk_size gap_spent s p (some gap) =
    leb gap max_gap_bytes
    && leb (gap_spent + gap) gap_budget_bytes
    && leb (piece_end p - s.start) chunk_size

unfoldable pub piece_fits : ℕ → ℕ → Span → ByteRange → Bool
piece_fits chunk_size gap_spent s p = gap_fits chunk_size gap_spent s p (checked_sub p.offset s.end)

-- The loop of `coalesce`, from the gaps spent and the read being built.
unfoldable pub coalesce_pieces_from : ℕ → ℕ → Option Span → List ByteRange → List Read
unfolding piece_fits
coalesce_pieces_from chunk_size gap_spent none [] = []
coalesce_pieces_from chunk_size gap_spent (some s) [] = span s ∷ []
coalesce_pieces_from chunk_size gap_spent none (p ∷ ps) = elim (ltb chunk_size p.length) [
  | true ↦ split p ∷ coalesce_pieces_from chunk_size gap_spent none ps
  | false ↦ coalesce_pieces_from chunk_size gap_spent (some (span_of p)) ps
]
coalesce_pieces_from chunk_size gap_spent (some s) (p ∷ ps) =
    elim (piece_fits chunk_size gap_spent s p) [
      | true ↦
          coalesce_pieces_from chunk_size (gap_spent + (p.offset - s.end)) (some (extended s p)) ps
      | false ↦ span s ∷ elim (ltb chunk_size p.length) [
        | true ↦ split p ∷ coalesce_pieces_from chunk_size gap_spent none ps
        | false ↦ coalesce_pieces_from chunk_size gap_spent (some (span_of p)) ps
      ]
    ]

unfoldable pub coalesce : List ByteRange → ℕ → List Read
unfolding coalesce_pieces_from
coalesce pieces chunk_size = coalesce_pieces_from chunk_size 0 none pieces

abbrev pub read_length : Read → ℕ
read_length (split p) = p.length
read_length (span s) = s.end - s.start

-- How many bytes some reads ask of the source.
unfoldable pub read_bytes : List Read → ℕ
read_bytes [] = 0
read_bytes (r ∷ rs) = read_length r + read_bytes rs
