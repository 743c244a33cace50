-- ===== src/Http/Coalesce/Budget.antt =====
-- How much more than its pieces `coalesce` of src/http/stream.rs reads.
use segmentor.Common.{ℕ, ◌+◌, ◌-◌, ◌≤◌, Option, none, some, List, [], ◌∷◌, arith, ltb, bool-holds}
use segmentor.Fmp4.Fragment.{ByteRange}
use segmentor.Fmp4.Fragment.Ranges.{total_length}
use segmentor.Http.Coalesce.{
  Span, span_of, extended, piece_fits, coalesce_pieces_from, coalesce, gap_budget_bytes, read_bytes,
}
use segmentor.Http.Coalesce.Order.{piece_fits-true}

abbrev pending_length : Option Span → ℕ
pending_length none = 0
pending_length (some s) = s.end - s.start

abbrev PendingIsOrdered : Option Span → Type 0
PendingIsOrdered none = Unit {0}
PendingIsOrdered (some s) = s.start ≤ s.end

-- What is read from here on, when the gaps so far cost `gap_spent`.
abbrev WithinBudget : ℕ → ℕ → ℕ → Type 0
WithinBudget gap_spent payload bytes = bytes + gap_spent ≤ payload + gap_budget_bytes

-- A piece begins a read, or is one of its own.
begun-WithinBudget :
    (chunk_size gap_spent : ℕ) (p : ByteRange) (ps : List ByteRange)
    → WithinBudget gap_spent
        (total_length ps)
        (read_bytes (coalesce_pieces_from chunk_size gap_spent none ps))
    → WithinBudget gap_spent
        (p.length + total_length ps)
        (read_bytes (coalesce_pieces_from chunk_size gap_spent (some (span_of p)) ps))
    → WithinBudget gap_spent
        (p.length + total_length ps)
        (read_bytes (coalesce_pieces_from chunk_size gap_spent none (p ∷ ps)))
unfolding coalesce_pieces_from read_bytes
begun-WithinBudget chunk_size gap_spent p ps h k =
    bool-holds (λ rs. WithinBudget gap_spent (p.length + total_length ps) (read_bytes rs))
      (ltb chunk_size p.length) (λ _. omega arith) (λ _. k)

coalesce_pieces_from-WithinBudget :
    (chunk_size gap_spent : ℕ) (current : Option Span) (ps : List ByteRange)
    → gap_spent ≤ gap_budget_bytes
    → PendingIsOrdered current
    → WithinBudget gap_spent
        (pending_length current + total_length ps)
        (read_bytes (coalesce_pieces_from chunk_size gap_spent current ps))
unfolding coalesce_pieces_from read_bytes
coalesce_pieces_from-WithinBudget chunk_size gap_spent none [] h k = omega arith
coalesce_pieces_from-WithinBudget chunk_size gap_spent (some s) [] h k = omega arith
coalesce_pieces_from-WithinBudget chunk_size gap_spent none (p ∷ ps) h k = omega (
  arith,
  begun-WithinBudget chunk_size gap_spent p ps
      (omega (arith, coalesce_pieces_from-WithinBudget chunk_size gap_spent none ps h tt))
      (omega (
        arith,
        coalesce_pieces_from-WithinBudget chunk_size gap_spent (some (span_of p)) ps h
            (omega arith),
      )),
)
coalesce_pieces_from-WithinBudget chunk_size gap_spent (some s) (p ∷ ps) h k =
    bool-holds
      (λ rs.
        WithinBudget gap_spent (s.end - s.start + (p.length + total_length ps)) (read_bytes rs))
      (piece_fits chunk_size gap_spent s p)
      (λ e.
        let f = piece_fits-true chunk_size gap_spent s p e in
        omega (
          arith,
          f.0,
          coalesce_pieces_from-WithinBudget chunk_size (gap_spent + (p.offset - s.end))
              (some (extended s p)) ps f.1 (omega arith),
        ))
      (λ _. omega (
        arith,
        begun-WithinBudget chunk_size gap_spent p ps
            (omega (arith, coalesce_pieces_from-WithinBudget chunk_size gap_spent none ps h tt))
            (omega (
              arith,
              coalesce_pieces_from-WithinBudget chunk_size gap_spent (some (span_of p)) ps h
                  (omega arith),
            )),
      ))

-- The grouped reads ask for no more bytes than the pieces have together and the budget of 256 KiB
-- for gaps.
pub coalesce-WithinBudget :
    (pieces : List ByteRange) (chunk_size : ℕ)
    → read_bytes (coalesce pieces chunk_size) ≤ total_length pieces + gap_budget_bytes
unfolding coalesce
coalesce-WithinBudget pieces chunk_size =
    omega (arith, coalesce_pieces_from-WithinBudget chunk_size 0 none pieces (omega arith) tt)
