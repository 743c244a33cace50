-- ===== src/Http/Stream/Requested.antt =====
-- The bytes of the pieces that `requested_pieces` of src/http/stream.rs picks.
use segmentor.Common.{
  ℕ, ◌+◌, ◌-◌, ◌≤◌, ◌<◌, ◌≡◌, refl, sym, ap, ◌∙◌, min, max, Option, none, some, List, [], ◌∷◌, ◌++◌,
  length, slice, length-slice, take, drop-nil, take-nil, arith, ltb, All, if-cases, ltb→lt, ltb→ge,
}
use segmentor.Common.Bytes.{Bytes}
use segmentor.Common.Slices.{slice-slice, slice-empty, slice-append_both}
use segmentor.Fmp4.Fragment.{ByteRange}
use segmentor.Http.Range.{ByteInterval, overlap}
use segmentor.Http.Coalesce.{requested_pieces, piece_of, piece_end}
use segmentor.Http.Stream.Reads.{parts, Fits}

-- A piece of a range, as a slice of what the range names.
within_range :
    (file : Bytes) (r : ByteRange) (from to : ℕ) {start end : ℕ}
    → start ≡ r.offset + from
    → end ≡ r.offset + min to r.length
    → slice file start end ≡ slice (slice file r.offset (piece_end r)) from (min to r.length)
within_range file r from to e f =
    rw (e, f) (sym (slice-slice file r.offset (piece_end r) from (min to r.length) (omega arith)))

-- A slice of the ranges' bytes, cut behind the first range.
two_parts :
    (file : Bytes) (i : ByteInterval) (v : ℕ) (r : ByteRange) (rs : List ByteRange)
    → Fits file r
    → slice (parts file (r ∷ rs)) (i.start - v) (i.end - v)
      ≡ slice (slice file r.offset (piece_end r)) (i.start - v) (min (i.end - v) r.length)
        ++ slice (parts file rs) (i.start - (v + r.length)) (i.end - (v + r.length))
two_parts file i v r rs h =
    let size : length (slice file r.offset (piece_end r)) ≡ r.length =
      omega (arith, length-slice file r.offset (piece_end r) (omega arith) h) in
    let from : i.start - v - r.length ≡ i.start - (v + r.length) = omega arith in
    let to : i.end - v - r.length ≡ i.end - (v + r.length) = omega arith in
    slice-append_both (slice file r.offset (piece_end r)) (parts file rs) (i.start - v) (i.end - v)
    ∙ rw (size, from, to) refl

-- The pieces inside the interval, in the segment's own offsets.
pub requested_pieces-parts :
    (file : Bytes) (i : ByteInterval) (virtual_offset : ℕ) (rs : List ByteRange)
    → All (Fits file) rs
    → parts file (requested_pieces i virtual_offset rs)
      ≡ slice (parts file rs) (i.start - virtual_offset) (i.end - virtual_offset)
unfolding requested_pieces overlap
requested_pieces-parts file i v [] h = sym (
    ap (take (i.end - v - (i.start - v))) (drop-nil (i.start - v))
    ∙ take-nil (i.end - v - (i.start - v)))
requested_pieces-parts file i v (r ∷ rs) h =
    let rest = requested_pieces-parts file i (v + r.length) rs h.1 in
    if-cases
      (λ (o : Option ByteInterval).
        parts file (elim o [
          | none ↦ requested_pieces i (v + r.length) rs
          | some shared ↦ piece_of v r shared ∷ requested_pieces i (v + r.length) rs
        ])
        ≡ slice (parts file (r ∷ rs)) (i.start - v) (i.end - v))
      (ltb (max i.start v) (min i.end (v + r.length)))
      (λ e.
        let lt : max i.start v < min i.end (v + r.length) =
          ltb→lt (max i.start v) (min i.end (v + r.length)) e in
        ap (λ x. x ++ parts file (requested_pieces i (v + r.length) rs))
          (within_range file r (i.start - v) (i.end - v) (piece_from lt) (piece_to lt))
        ∙ ap (◌++◌ (slice (whole r) (i.start - v) (min (i.end - v) r.length))) rest
        ∙ sym (two_parts file i v r rs h.0))
      (λ e.
        let ge : min i.end (v + r.length) ≤ max i.start v =
          ltb→ge (max i.start v) (min i.end (v + r.length)) e in
        rest
        ∙ ap (λ x. x ++ slice (parts file rs) (i.start - (v + r.length)) (i.end - (v + r.length)))
            (sym (slice-empty (whole r) (i.start - v) (min (i.end - v) r.length) (omega arith)))
        ∙ sym (two_parts file i v r rs h.0))
  where
    whole : ByteRange → Bytes
    whole r = slice file r.offset (piece_end r)

    piece_from :
        max i.start v < min i.end (v + r.length)
        → r.offset + max i.start v - v ≡ r.offset + (i.start - v)
    piece_from lt = omega arith

    piece_to :
        max i.start v < min i.end (v + r.length)
        → r.offset + max i.start v - v + (min i.end (v + r.length) - max i.start v)
          ≡ r.offset + min (i.end - v) r.length
    piece_to lt = omega arith

pub requested_pieces-Fits :
    (file : Bytes) (i : ByteInterval) (virtual_offset : ℕ) (rs : List ByteRange)
    → All (Fits file) rs
    → All (Fits file) (requested_pieces i virtual_offset rs)
unfolding requested_pieces overlap
requested_pieces-Fits file i v [] h = tt
requested_pieces-Fits file i v (r ∷ rs) h =
    if-cases
      (λ (o : Option ByteInterval). All (Fits file) (elim o [
        | none ↦ requested_pieces i (v + r.length) rs
        | some shared ↦ piece_of v r shared ∷ requested_pieces i (v + r.length) rs
      ]))
      (ltb (max i.start v) (min i.end (v + r.length)))
      (λ e. (
        omega (arith, h.0, ltb→lt (max i.start v) (min i.end (v + r.length)) e),
        requested_pieces-Fits file i (v + r.length) rs h.1,
      ))
      (λ _. requested_pieces-Fits file i (v + r.length) rs h.1)
