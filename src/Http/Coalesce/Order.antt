-- ===== src/Http/Coalesce/Order.antt =====
-- The reads of `coalesce` of src/http/stream.rs serve the pieces in their order, and each within its
-- chunk.
use segmentor.Common.{
  ℕ, ◌∙◌, ◌+◌, ◌-◌, ◌≤◌, ◌<◌, ◌≡◌, refl, ap, true, Option, none, some, List, [], ◌∷◌, ◌++◌,
  append_assoc, All, All-append, All-map, arith, ltb, bool-holds, ◌⊎◌, inl, inr, ltb→lt, ltb→ge,
}
use segmentor.Fmp4.Fragment.{ByteRange}
use segmentor.Http.Coalesce.{
  Read, split, span, Span, span_of, extended, piece_fits, coalesce_pieces_from, coalesce, piece_end,
  gap_budget_bytes,
}

abbrev pub pieces_of : Read → List ByteRange
pieces_of (split p) = p ∷ []
pieces_of (span s) = s.pieces

-- The pieces that some reads serve, in order.
abbrev pub served : List Read → List ByteRange
served [] = []
served (r ∷ rs) = pieces_of r ++ served rs

abbrev pending : Option Span → List ByteRange
pending none = []
pending (some s) = s.pieces

-- What a piece that joins a read meets.
pub piece_fits-true :
    (chunk_size gap_spent : ℕ) (s : Span) (p : ByteRange)
    → piece_fits chunk_size gap_spent s p ≡ true
    → (s.end ≤ p.offset)
      × (gap_spent + (p.offset - s.end) ≤ gap_budget_bytes)
      × (piece_end p - s.start ≤ chunk_size)
unfolding piece_fits
piece_fits-true chunk_size gap_spent s p e = ground arith

coalesce_pieces_from-served :
    (chunk_size gap_spent : ℕ) (current : Option Span) (ps : List ByteRange)
    → served (coalesce_pieces_from chunk_size gap_spent current ps) ≡ pending current ++ ps
unfolding coalesce_pieces_from
coalesce_pieces_from-served chunk_size gap_spent none [] = refl
coalesce_pieces_from-served chunk_size gap_spent (some s) [] = refl
coalesce_pieces_from-served chunk_size gap_spent none (p ∷ ps) =
    bool-holds (λ rs. served rs ≡ p ∷ ps) (ltb chunk_size p.length)
      (λ _. ap (◌∷◌ p) (coalesce_pieces_from-served chunk_size gap_spent none ps))
      (λ _. coalesce_pieces_from-served chunk_size gap_spent (some (span_of p)) ps)
coalesce_pieces_from-served chunk_size gap_spent (some s) (p ∷ ps) =
    bool-holds (λ rs. served rs ≡ s.pieces ++ p ∷ ps) (piece_fits chunk_size gap_spent s p)
      (λ _.
        coalesce_pieces_from-served chunk_size (gap_spent + (p.offset - s.end))
          (some (extended s p)) ps
        ∙ append_assoc s.pieces (p ∷ []) ps)
      (λ _. ap (◌++◌ s.pieces) (
        bool-holds (λ rs. served rs ≡ p ∷ ps) (ltb chunk_size p.length)
          (λ _. ap (◌∷◌ p) (coalesce_pieces_from-served chunk_size gap_spent none ps))
          (λ _. coalesce_pieces_from-served chunk_size gap_spent (some (span_of p)) ps)))

-- A piece inside the read of `start..end`.
abbrev pub InSpan : ℕ → ℕ → ByteRange → Type 0
InSpan start end p = (start ≤ p.offset) × (piece_end p ≤ end)

-- One of the pieces ends at `end`.
abbrev pub Reaches : ℕ → List ByteRange → Type 0
Reaches end [] = ⊥
Reaches end (p ∷ ps) = (piece_end p ≡ end) ⊎ Reaches end ps

Reaches-append :
    (end : ℕ) (ps : List ByteRange) (p : ByteRange)
    → piece_end p ≡ end
    → Reaches end (ps ++ (p ∷ []))
Reaches-append end [] p e = inl e
Reaches-append end (q ∷ qs) p e = inr (Reaches-append end qs p e)

abbrev pub IsSpan : ℕ → Span → Type 0
IsSpan chunk_size s =
    (s.start ≤ s.end)
    × (s.end - s.start ≤ chunk_size)
    × All (InSpan s.start s.end) s.pieces
    × Reaches s.end s.pieces

-- A read within the limits: a split piece is longer than a chunk, and any other read is no longer
-- than one, holds its pieces, and ends where one of them does.
abbrev pub IsBounded : ℕ → Read → Type 0
IsBounded chunk_size (split p) = chunk_size < p.length
IsBounded chunk_size (span s) = IsSpan chunk_size s

abbrev PendingIsSpan : ℕ → Option Span → Type 0
PendingIsSpan chunk_size none = Unit {0}
PendingIsSpan chunk_size (some s) = IsSpan chunk_size s

span_of-IsSpan :
    (chunk_size : ℕ) (p : ByteRange) → p.length ≤ chunk_size → IsSpan chunk_size (span_of p)
span_of-IsSpan chunk_size p h =
    (omega arith, omega arith, ((omega arith, omega arith), tt), inl refl)

extended-IsSpan :
    (chunk_size gap_spent : ℕ) (s : Span) (p : ByteRange)
    → piece_fits chunk_size gap_spent s p ≡ true
    → IsSpan chunk_size s
    → IsSpan chunk_size (extended s p)
extended-IsSpan chunk_size gap_spent s p e h =
    let f = piece_fits-true chunk_size gap_spent s p e in
    (
      omega arith,
      f.2,
      All-append (InSpan s.start (piece_end p)) s.pieces (p ∷ [])
          (All-map (λ q k. (k.0, omega arith)) s.pieces h.2) ((omega arith, omega arith), tt),
      Reaches-append (piece_end p) s.pieces p refl,
    )

coalesce_pieces_from-IsBounded :
    (chunk_size gap_spent : ℕ) (current : Option Span) (ps : List ByteRange)
    → PendingIsSpan chunk_size current
    → All (IsBounded chunk_size) (coalesce_pieces_from chunk_size gap_spent current ps)
unfolding coalesce_pieces_from
coalesce_pieces_from-IsBounded chunk_size gap_spent none [] h = tt
coalesce_pieces_from-IsBounded chunk_size gap_spent (some s) [] h = (h, tt)
coalesce_pieces_from-IsBounded chunk_size gap_spent none (p ∷ ps) h =
    bool-holds (All (IsBounded chunk_size)) (ltb chunk_size p.length)
      (λ e. (
        ltb→lt chunk_size p.length e,
        coalesce_pieces_from-IsBounded chunk_size gap_spent none ps tt,
      ))
      (λ e.
        coalesce_pieces_from-IsBounded chunk_size gap_spent (some (span_of p)) ps
          (span_of-IsSpan chunk_size p (ltb→ge chunk_size p.length e)))
coalesce_pieces_from-IsBounded chunk_size gap_spent (some s) (p ∷ ps) h =
    bool-holds (All (IsBounded chunk_size)) (piece_fits chunk_size gap_spent s p)
      (λ e.
        coalesce_pieces_from-IsBounded chunk_size (gap_spent + (p.offset - s.end))
          (some (extended s p)) ps (extended-IsSpan chunk_size gap_spent s p e h))
      (λ _. (
        h,
        bool-holds (All (IsBounded chunk_size)) (ltb chunk_size p.length)
            (λ f. (
              ltb→lt chunk_size p.length f,
              coalesce_pieces_from-IsBounded chunk_size gap_spent none ps tt,
            ))
            (λ f.
              coalesce_pieces_from-IsBounded chunk_size gap_spent (some (span_of p)) ps
                (span_of-IsSpan chunk_size p (ltb→ge chunk_size p.length f))),
      ))

-- The reads that the pieces are grouped into serve exactly those pieces in their order; a piece
-- that is split is longer than a chunk, and every other read is no longer than a chunk, holds each
-- piece that it serves, and ends where one of them does.
pub coalesce-IsBounded :
    (pieces : List ByteRange) (chunk_size : ℕ)
    → (served (coalesce pieces chunk_size) ≡ pieces)
      × All (IsBounded chunk_size) (coalesce pieces chunk_size)
unfolding coalesce
coalesce-IsBounded pieces chunk_size = (
  coalesce_pieces_from-served chunk_size 0 none pieces,
  coalesce_pieces_from-IsBounded chunk_size 0 none pieces tt,
)
