-- ===== src/Mp4/Boxes/Walk.antt =====
-- What the walk over sibling boxes of src/mp4/boxes.rs returns, on any bytes.
use segmentor.Common.{
  ℕ, zero, suc, ◌+◌, ◌≤◌, ◌≡◌, ◌≢◌, List, [], ◌∷◌, ◌==◌, if◌then◌else◌, le→leb, arith, length, drop,
  slice, length-drop, drop-take, take-take, take-take_le,
}
use segmentor.Common.Bytes.{Bytes, from_be_bytes}
use segmentor.Error.{ok, panic, >>=-ne-panic, >>=-eq-ok}
use segmentor.Mp4.Boxes.{RawBox, box_size, box_payload, rest_after, child_boxes_loop, child_boxes}

-- 16 bytes where the 32-bit size field is 1, else 8.
abbrev pub header_length : Bytes → ℕ
header_length bytes = if from_be_bytes (slice bytes 0 4) == 1 then 16 else 8

-- The box stands at the front of the bytes, behind its header, and ends inside them.
pub record IsFrontBox (bytes : Bytes) (b : RawBox) : Type 0 where
  pub has_header : header_length bytes ≤ b.size
  pub within : b.size ≤ length bytes
  pub name_at : b.name ≡ slice bytes 4 8
  pub payload_at : b.payload ≡ slice bytes (header_length bytes) b.size

-- The boxes stand one behind the other and use up the bytes.
abbrev pub Tiles : Bytes → List RawBox → Type 0
Tiles bytes [] = bytes ≡ []
Tiles bytes (c ∷ cs) = IsFrontBox bytes c × Tiles (drop c.size bytes) cs

abbrev pub total_size : List RawBox → ℕ
total_size [] = 0
total_size (c ∷ cs) = c.size + total_size cs

box_size-ne-panic : (bytes : Bytes) (size32 : ℕ) → box_size bytes 0 size32 ≢ panic
unfolding box_size
box_size-ne-panic bytes size32 = ground arith

box_payload-ne-panic : (bytes : Bytes) → box_payload bytes 0 ≢ panic
unfolding box_payload
box_payload-ne-panic bytes = ground arith

name_of_header : (bytes : Bytes) → slice (slice bytes 0 8) 4 8 ≡ slice bytes 4 8
name_of_header bytes = rw (drop-take 4 8 bytes) (take-take 4 (drop 4 bytes))

size_of_header : (bytes : Bytes) → slice (slice bytes 0 8) 0 4 ≡ slice bytes 0 4
size_of_header bytes = take-take_le 4 8 bytes (omega arith)

box_payload_front : (bytes : Bytes) (b : RawBox) → box_payload bytes 0 ≡ ok b → IsFrontBox bytes b
unfolding box_payload
box_payload_front bytes b e = ground (arith, name_of_header bytes, size_of_header bytes)

child_boxes_loop-ne-panic :
    (fuel : ℕ) (bytes : Bytes) → length bytes ≤ fuel → child_boxes_loop fuel bytes ≢ panic
unfolding child_boxes_loop
child_boxes_loop-ne-panic fuel [] h = λ e. cc
child_boxes_loop-ne-panic zero (b ∷ bs) h = absurd (omega arith)
child_boxes_loop-ne-panic (suc fuel) (b ∷ bs) h =
    >>=-ne-panic (box_payload (b ∷ bs) 0) _ (box_payload-ne-panic (b ∷ bs)) λ child e.
      let front = box_payload_front (b ∷ bs) child e in
      let rest = drop child.size (b ∷ bs) in
      rw (le→leb child.size (length (b ∷ bs)) front.within) (
        >>=-ne-panic (child_boxes_loop fuel rest) _
          (child_boxes_loop-ne-panic fuel rest
            (ground (arith, front.has_header, length-drop child.size (b ∷ bs))))
          (λ cs _ p. cc))

-- On every run of bytes the walk over sibling boxes ends, in a list or an error, without a read
-- outside them, an overflow, or running out of rounds.
pub child_boxes-ne-panic : (bytes : Bytes) → child_boxes bytes ≢ panic
unfolding child_boxes
child_boxes-ne-panic bytes = child_boxes_loop-ne-panic (length bytes) bytes (omega arith)

child_boxes_loop-Tiles :
    (fuel : ℕ) (bytes : Bytes) (cs : List RawBox)
    → child_boxes_loop fuel bytes ≡ ok cs
    → Tiles bytes cs × (total_size cs ≡ length bytes)
unfolding child_boxes_loop
child_boxes_loop-Tiles fuel [] cs e = ground arith
child_boxes_loop-Tiles zero (b ∷ bs) cs e = cc
child_boxes_loop-Tiles (suc fuel) (b ∷ bs) cs e =
    let (child, e1, f) = >>=-eq-ok (box_payload (b ∷ bs) 0) _ e in
    let front = box_payload_front (b ∷ bs) child e1 in
    let (rest, e2, g) = >>=-eq-ok (rest_after (b ∷ bs) child.size) _ f in
    let (more, e3, k) = >>=-eq-ok (child_boxes_loop fuel rest) _ g in
    let (tiles, total) = child_boxes_loop-Tiles fuel rest more e3 in
    let here : rest ≡ drop child.size (b ∷ bs) = ground (arith, front.within) in
    let all : cs ≡ child ∷ more = ground arith in
    rw (all) (
      (front, rw here at tiles),
      omega (arith, rw here at total, length-drop child.size (b ∷ bs), front.within),
    )

-- The boxes that the walk over sibling boxes returns stand one behind the other in the bytes, each
-- behind a header of its own and ending inside the bytes, and their sizes add up to the number of
-- bytes.
pub child_boxes-Tiles :
    (bytes : Bytes) (cs : List RawBox)
    → child_boxes bytes ≡ ok cs
    → Tiles bytes cs × (total_size cs ≡ length bytes)
unfolding child_boxes
child_boxes-Tiles bytes cs e = child_boxes_loop-Tiles (length bytes) bytes cs e
