-- ===== src/Http/Stream/Reads.antt =====
-- What the reads planned by `coalesce` make the task of src/http/stream.rs send.
use segmentor.Common.{
  ℕ, suc, ◌+◌, ◌-◌, ◌≤◌, ◌<◌, ◌≡◌, refl, sym, ap, ◌∙◌, Bool, true, Option, none, some, List, [],
  ◌∷◌, ◌++◌, append_assoc, append-nil, length, slice, take, drop, take-take_le, length-slice, arith,
  leb, ◌==◌, ◌&&◌, if-cases, le→leb, All, All-append_front, All-append_back, inl, inr,
}
use segmentor.Common.Slices.{slice-slice}
use segmentor.Common.Bytes.{Bytes}
use segmentor.Fmp4.Fragment.{ByteRange}
use segmentor.Http.Coalesce.{Read, split, span, Span, piece_end}
use segmentor.Http.Coalesce.Order.{served, pieces_of, IsBounded, InSpan, Reaches}
use segmentor.Http.Stream.{
  Outside, StreamState, chunk, Task, continue, send, read, get_slice, joined_pieces, prefix_of,
  or_too_short, chunk_of, serve_read, serve_reads,
}
use segmentor.Http.Stream.Delivery.{
  IsSource, Delivers, >>=-Delivers, done-Delivers, send-Delivers, read-Delivers, IsPart,
}
use segmentor.Http.Stream.Parts.{AnyUnit, send_split-Delivers}

-- The bytes of the file at some pieces, one piece behind the other.
abbrev pub parts : Bytes → List ByteRange → Bytes
parts file [] = []
parts file (p ∷ ps) = slice file p.offset (piece_end p) ++ parts file ps

pub parts-append :
    (file : Bytes) (ps qs : List ByteRange) → parts file (ps ++ qs) ≡ parts file ps ++ parts file qs
parts-append file [] qs = refl
parts-append file (p ∷ ps) qs =
    ap (◌++◌ (slice file p.offset (piece_end p))) (parts-append file ps qs)
    ∙ sym (append_assoc (slice file p.offset (piece_end p)) (parts file ps) (parts file qs))

abbrev pub Fits : Bytes → ByteRange → Type 0
Fits file p = piece_end p ≤ length file

-- A piece inside a read is found in what was read.
pub get_slice-slice :
    (file : Bytes) (start end : ℕ) (p : ByteRange) (to : ℕ)
    → InSpan start end p
    → end ≤ length file
    → to ≡ p.offset - start + p.length
    → get_slice (slice file start end) (p.offset - start) to
      ≡ some (slice file p.offset (piece_end p))
get_slice-slice file start end p to h k e = rw (low, high) (ap some same)
  where
    low : leb (p.offset - start) to ≡ true
    low = le→leb (p.offset - start) to (omega arith)

    high : leb to (length (slice file start end)) ≡ true
    high =
        le→leb to (length (slice file start end))
          (omega (arith, length-slice file start end (omega (arith, h.0, h.1)) k))

    from_is : start + (p.offset - start) ≡ p.offset
    from_is = omega (arith, h.0)

    to_is : start + to ≡ piece_end p
    to_is = omega (arith, h.0)

    same : slice (slice file start end) (p.offset - start) to ≡ slice file p.offset (piece_end p)
    same =
        slice-slice file start end (p.offset - start) to (omega (arith, h.1))
        ∙ ap (λ n. slice file n (start + to)) from_is
        ∙ ap (slice file p.offset) to_is

joined_step :
    (o rest : Option Bytes) {a b : Bytes}
    → o ≡ some a
    → rest ≡ some b
    → elim o [ none ↦ none | some x ↦ elim rest [ none ↦ none | some y ↦ some (x ++ y) ] ]
      ≡ some (a ++ b)
joined_step o rest e f = rw (e, f) refl

-- A read ends inside the file when its pieces do.
end_within :
    (file : Bytes) (end : ℕ) (ps : List ByteRange)
    → Reaches end ps
    → All (Fits file) ps
    → end ≤ length file
end_within file end [] h k = absurd h
end_within file end (p ∷ ps) (inl e) k = omega (arith, k.0)
end_within file end (p ∷ ps) (inr h) k = end_within file end ps h k.1

pub joined_pieces-parts :
    (file : Bytes) (start end : ℕ) (ps : List ByteRange)
    → end ≤ length file
    → All (InSpan start end) ps
    → joined_pieces start (slice file start end) ps ≡ some (parts file ps)
unfolding joined_pieces
joined_pieces-parts file start end [] h k = refl
joined_pieces-parts file start end (p ∷ ps) h k =
    joined_step (get_slice (slice file start end) (p.offset - start) (p.offset - start + p.length))
      (joined_pieces start (slice file start end) ps)
      (get_slice-slice file start end p (p.offset - start + p.length) k.0 h refl)
      (joined_pieces-parts file start end ps h k.1)

module _ (outside : Outside) (file : Bytes) where
  -- The pieces' bytes, copied out of what was read.
  joined-Delivers :
      (start end : ℕ) (ps : List ByteRange) (s : StreamState)
      → end ≤ length file
      → All (InSpan start end) ps
      → Delivers outside file
          (λ joined. joined ≡ parts file ps)
          s
          []
          (or_too_short outside (joined_pieces start (slice file start end) ps) s)
  joined-Delivers start end ps s h k =
      rw (joined_pieces-parts file start end ps h k)
        (done-Delivers outside file (λ joined. joined ≡ parts file ps) (parts file ps) s refl refl)

  -- The front of what was read, when a single piece begins there.
  prefix_of-Delivers :
      (start end : ℕ) (p : ByteRange) (s : StreamState)
      → end ≤ length file
      → InSpan start end p
      → p.offset ≡ start
      → Delivers outside file
          (λ joined. joined ≡ parts file (p ∷ []))
          s
          []
          (prefix_of outside (slice file start end) p.length s)
  prefix_of-Delivers start end p s h k e = rw enough (
      done-Delivers outside file (λ joined. joined ≡ parts file (p ∷ []))
        (take p.length (slice file start end)) s refl same)
    where
      enough : leb p.length (length (slice file start end)) ≡ true
      enough =
          le→leb p.length (length (slice file start end))
            (omega (arith, k.1, length-slice file start end (omega (arith, k.0, k.1)) h))

      size : piece_end p - p.offset ≡ p.length
      size = omega arith

      same : take p.length (slice file start end) ≡ parts file (p ∷ [])
      same =
          take-take_le p.length (end - start) (drop start file) (omega (arith, k.1))
          ∙ ap (λ n. take p.length (drop n file)) (sym e)
          ∙ ap (λ n. take n (drop p.offset file)) (sym size)
          ∙ sym (append-nil (slice file p.offset (piece_end p)))

  chunk_of-Delivers :
      (start end : ℕ) (ps : List ByteRange) (s : StreamState)
      → end ≤ length file
      → All (InSpan start end) ps
      → Delivers outside file
          (λ joined. joined ≡ parts file ps)
          s
          []
          (chunk_of outside
            (record { start = start; end = end; pieces = ps })
            (slice file start end)
            s)
  unfolding chunk_of
  chunk_of-Delivers start end [] s h k = joined-Delivers start end [] s h k
  chunk_of-Delivers start end (p ∷ []) s h k =
      if-cases
        (λ (task : Task Bytes).
          Delivers outside file (λ joined. joined ≡ parts file (p ∷ [])) s [] (task s))
        (p.offset == start) (λ e. prefix_of-Delivers start end p s h k.0 (ground arith))
        (λ _. joined-Delivers start end (p ∷ []) s h k)
  chunk_of-Delivers start end (p ∷ q ∷ ps) s h k =
      if-cases
        (λ (task : Task Bytes).
          Delivers outside file (λ joined. joined ≡ parts file (p ∷ q ∷ ps)) s [] (task s))
        (length (p ∷ q ∷ ps) == 1 && (p.offset == start))
        (λ e. absurd (several (length ps) (p.offset == start) e))
        (λ _. joined-Delivers start end (p ∷ q ∷ ps) s h k)
    where
      several : (n : ℕ) (b : Bool) → (suc (suc n) == 1 && b) ≡ true → ⊥
      several n b e = ground arith

  serve_read-Delivers :
      IsSource outside file
      → (size : ℕ) (r : Read) (s : StreamState) → 0 < size
      → IsBounded size r
      → All (Fits file) (pieces_of r)
      → Delivers outside file AnyUnit s (parts file (pieces_of r)) (serve_read outside size r s)
  unfolding serve_read
  serve_read-Delivers is_source size (split p) s h k l =
      rw (append-nil (slice file p.offset (piece_end p))) (
        send_split-Delivers outside file is_source p.length size p.offset p.length s h l.0
          (omega arith))
  serve_read-Delivers is_source size (span w) s h k l =
      let end_in : w.end ≤ length file = end_within file w.end w.pieces k.3 l in
      let span_is : w.start + (w.end - w.start) ≡ w.end = omega (arith, k.0) in
      >>=-Delivers outside file (IsPart outside file w.start (w.end - w.start)) AnyUnit s []
        (parts file w.pieces) (read outside w.start (w.end - w.start) s)
        (λ bytes t. continue (chunk_of outside w bytes t) λ joined. send outside (chunk joined))
        refl (read-Delivers outside file is_source w.start (w.end - w.start) s (omega arith))
        (λ bytes t e. serve_span w bytes t end_in k.2 (e ∙ ap (slice file w.start) span_is))
    where
      serve_span :
          (w : Span) (bytes : Bytes) (t : StreamState)
          → w.end ≤ length file
          → All (InSpan w.start w.end) w.pieces
          → bytes ≡ slice file w.start w.end
          → Delivers outside file AnyUnit t
              (parts file w.pieces)
              (continue (chunk_of outside w bytes t) λ joined. send outside (chunk joined))
      serve_span w bytes t h k e =
          >>=-Delivers outside file (λ joined. joined ≡ parts file w.pieces) AnyUnit t []
            (parts file w.pieces) (chunk_of outside w bytes t)
            (λ joined. send outside (chunk joined)) refl
            (rw e (chunk_of-Delivers w.start w.end w.pieces t h k))
            (λ joined u f. rw f (send-Delivers outside file (parts file w.pieces) u))

  pub serve_reads-Delivers :
      IsSource outside file
      → (size : ℕ) (rs : List Read) (s : StreamState) → 0 < size
      → All (IsBounded size) rs
      → All (Fits file) (served rs)
      → Delivers outside file AnyUnit s (parts file (served rs)) (serve_reads outside size rs s)
  unfolding serve_reads
  serve_reads-Delivers is_source size [] s h k l = done-Delivers outside file AnyUnit tt s refl tt
  serve_reads-Delivers is_source size (r ∷ rs) s h k l =
      >>=-Delivers outside file AnyUnit AnyUnit s (parts file (pieces_of r))
        (parts file (served rs)) (serve_read outside size r s) (λ _. serve_reads outside size rs)
        (sym (parts-append file (pieces_of r) (served rs)))
        (serve_read-Delivers is_source size r s h k.0
          (All-append_front (Fits file) (pieces_of r) (served rs) l))
        (λ _ t _.
          serve_reads-Delivers is_source size rs t h k.1
            (All-append_back (Fits file) (pieces_of r) (served rs) l))
