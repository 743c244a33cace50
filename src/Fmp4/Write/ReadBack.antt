-- ===== src/Fmp4/Write/ReadBack.antt =====
-- Boxes that src/fmp4/fragment.rs writes, walked by src/mp4/boxes.rs.
use segmentor.Common.{
  ℕ, zero, suc, ◌+◌, ◌-◌, ◌≤◌, ◌<◌, ◌^◌, ◌≡◌, refl, sym, ap, ◌∙◌, true, false, List, [], ◌∷◌, ◌++◌,
  arith, ltb, ◌==◌, le→leb, length, length-append, take-append, drop-append, All, Bool-cases, inl,
  inr, ltb→lt, append_assoc,
}
use segmentor.Common.Bytes.{Bytes, to_be_bytes, from_be_bytes, from_be_bytes-to_be_bytes_four}
use segmentor.Error.{
  Result, ok, ◌>>=◌, ok_or, checked_add, invalid_media, >>=-eq-ok, ok-injective, ok_or-eq-ok,
}
use segmentor.Fmp4.Write.{write_box, write_box_header}
use segmentor.Mp4.Boxes.{
  RawBox, box_payload, box_size, fits, child_boxes, child_boxes_loop, rest_after,
}

-- Boxes one behind the other, each a name and a payload.
abbrev pub write_boxes : List (Bytes × Bytes) → Result Bytes
write_boxes [] = ok []
write_boxes ((name, payload) ∷ rest) = do
  box ← write_box name payload
  boxes ← write_boxes rest
  ok (box ++ boxes)

abbrev pub boxes_of : List (Bytes × Bytes) → List RawBox
boxes_of [] = []
boxes_of ((name, payload) ∷ rest) =
    record { name = name; payload = payload; size = length payload + 8 } ∷ boxes_of rest

module _ (a b c d n0 n1 n2 n3 : ℕ) (payload rest : Bytes) where
  abbrev laid_out : Bytes
  laid_out = a ∷ b ∷ c ∷ d ∷ n0 ∷ n1 ∷ n2 ∷ n3 ∷ (payload ++ rest)

  -- A box at the front of the bytes, whose header holds its size.
  front_box :
      from_be_bytes (a ∷ b ∷ c ∷ d ∷ []) ≡ length payload + 8
      → length payload + 8 < 2 ^ 32
      → box_payload laid_out 0
        ≡ ok
            (record { name = n0 ∷ n1 ∷ n2 ∷ n3 ∷ []; payload = payload; size = length payload + 8 })
  unfolding box_payload box_size fits
  front_box e h =
      rw (le→leb 8 (length laid_out) (omega arith), e, not_one, not_zero, fit, cut)
        (ap (λ p. ok (boxed p)) (take-append payload rest))
    where
      not_one : (length payload + 8 == 1) ≡ false
      not_one = ground arith

      not_zero : (length payload + 8 == 0) ≡ false
      not_zero = ground arith

      fit : fits laid_out 0 (length payload + 8) 8 ≡ true
      fit = ground (arith, length-append payload rest)

      cut : 0 + (length payload + 8) - 8 ≡ length payload
      cut = omega arith

      boxed : Bytes → RawBox
      boxed p = record { name = n0 ∷ n1 ∷ n2 ∷ n3 ∷ []; payload = p; size = length payload + 8 }

  behind_box : rest_after laid_out (length payload + 8) ≡ ok rest
  behind_box =
      rw
        (
          le→leb (length payload + 8) (length laid_out) (omega (arith, length-append payload rest)),
          split,
        )
        (ap (λ xs. ok xs) (drop-append payload rest))
    where
      split : length payload + 8 ≡ suc (suc (suc (suc (suc (suc (suc (suc (length payload))))))))
      split = omega arith

-- A name of four bytes.
record IsName (name : Bytes) : Type 0 where
  n0 : ℕ
  n1 : ℕ
  n2 : ℕ
  n3 : ℕ
  name_is : name ≡ n0 ∷ n1 ∷ n2 ∷ n3 ∷ []

four_bytes : (name : Bytes) → length name ≡ 4 → IsName name
four_bytes [] h = absurd (omega (arith, h))
four_bytes (a ∷ []) h = absurd (omega (arith, h))
four_bytes (a ∷ b ∷ []) h = absurd (omega (arith, h))
four_bytes (a ∷ b ∷ c ∷ []) h = absurd (omega (arith, h))
four_bytes (a ∷ b ∷ c ∷ d ∷ []) h = record { n0 = a; n1 = b; n2 = c; n3 = d; name_is = refl }
four_bytes (a ∷ b ∷ c ∷ d ∷ e ∷ rest) h = absurd (omega (arith, h))

header_lem :
    (size : ℕ) (name header : Bytes)
    → write_box_header size name ≡ ok header
    → (header ≡ to_be_bytes 4 size ++ name) × (size < 2 ^ 32)
unfolding write_box_header
header_lem size name header e = elim (Bool-cases (ltb size (2 ^ 32))) [
  | inl h ↦ (ok-injective (sym (rw h at e)), ltb→lt _ _ h)
  | inr h ↦ cc (rw h at e)
]

-- The bytes of a written box, and their size.
write_box_lem :
    (name payload box : Bytes)
    → write_box name payload ≡ ok box
    → (box ≡ to_be_bytes 4 (length payload + 8) ++ (name ++ payload))
      × (length payload + 8 < 2 ^ 32)
unfolding write_box write_box_header
write_box_lem name payload box e =
    let (size, e1, f) =
      >>=-eq-ok (ok_or (checked_add (length payload) 8) (invalid_media "box size overflow")) _ e in
    let e2 = ok_or-eq-ok _ _ e1 in
    let size_is : size ≡ length payload + 8 = ground arith in
    let (header, e3, g) = >>=-eq-ok (write_box_header size name) _ f in
    let (header_is, small) = header_lem size name header e3 in
    let box_is : box ≡ header ++ payload = ok-injective (sym g) in
    (
      box_is ∙ ap (λ xs. xs ++ payload) (header_is ∙ ap (λ n. to_be_bytes 4 n ++ name) size_is),
      omega (arith, small, size_is),
    )

-- The front box of the bytes, and what stands behind it.
front_written :
    (name payload rest : Bytes)
    → length name ≡ 4
    → length payload + 8 < 2 ^ 32
    → let bytes : Bytes = to_be_bytes 4 (length payload + 8) ++ (name ++ (payload ++ rest)) in
      (box_payload bytes 0
        ≡ ok (record { name = name; payload = payload; size = length payload + 8 }))
      × (rest_after bytes (length payload + 8) ≡ ok rest)
unfolding to_be_bytes
front_written name payload rest four small =
    let f = four_bytes name four in
    let size = length payload + 8 in
    rw f.name_is (
      front_box _ _ _ _ f.n0 f.n1 f.n2 f.n3 payload rest (from_be_bytes-to_be_bytes_four size small)
          small,
      behind_box _ _ _ _ f.n0 f.n1 f.n2 f.n3 payload rest,
    )

loop_step :
    (fuel b : ℕ) (bs : Bytes) (child : RawBox) (rest : Bytes) (cs : List RawBox)
    → box_payload (b ∷ bs) 0 ≡ ok child
    → rest_after (b ∷ bs) child.size ≡ ok rest
    → child_boxes_loop fuel rest ≡ ok cs
    → child_boxes_loop (suc fuel) (b ∷ bs) ≡ ok (child ∷ cs)
unfolding child_boxes_loop
loop_step fuel b bs child rest cs e1 e2 e3 = rw (e1, e2, e3) refl

-- A round of the walk on a written box.
written_step :
    (fuel : ℕ) (name payload rest : Bytes) (cs : List RawBox)
    → length name ≡ 4
    → length payload + 8 < 2 ^ 32
    → (length rest ≤ fuel → child_boxes_loop fuel rest ≡ ok cs)
    → length (to_be_bytes 4 (length payload + 8) ++ (name ++ (payload ++ rest))) ≤ suc fuel
    → child_boxes_loop
        (suc fuel)
        (to_be_bytes 4 (length payload + 8) ++ (name ++ (payload ++ rest)))
      ≡ ok (record { name = name; payload = payload; size = length payload + 8 } ∷ cs)
unfolding to_be_bytes
written_step fuel name payload rest cs four small walk h =
    let (front, behind) = front_written name payload rest four small in
    loop_step fuel _ _ _ rest cs front behind
      (walk (omega (arith, h, length-append name (payload ++ rest), length-append payload rest)))

-- What the first of several written boxes puts in front of the others.
written_first :
    (name payload : Bytes) (rows : List (Bytes × Bytes)) (bytes : Bytes)
    → write_boxes ((name, payload) ∷ rows) ≡ ok bytes
    → (rest : Bytes) × (write_boxes rows ≡ ok rest)
      × (bytes ≡ to_be_bytes 4 (length payload + 8) ++ (name ++ (payload ++ rest)))
      × (length payload + 8 < 2 ^ 32)
unfolding to_be_bytes
written_first name payload rows bytes e =
    let (box, e1, f) = >>=-eq-ok (write_box name payload) _ e in
    let (rest, e2, g) = >>=-eq-ok (write_boxes rows) _ f in
    let (box_is, small) = write_box_lem name payload box e1 in
    let head = to_be_bytes 4 (length payload + 8) in
    let bytes_are : bytes ≡ box ++ rest = ok-injective (sym g) in
    (
      rest,
      e2,
      bytes_are
          ∙ ap (λ xs. xs ++ rest) box_is
          ∙ ap (λ xs. head ++ xs) (append_assoc name payload rest),
      small,
    )

children_written :
    (fuel : ℕ) (rows : List (Bytes × Bytes)) (bytes : Bytes)
    → All (λ row. length row.0 ≡ 4) rows
    → write_boxes rows ≡ ok bytes
    → length bytes ≤ fuel
    → child_boxes_loop fuel bytes ≡ ok (boxes_of rows)
unfolding child_boxes_loop to_be_bytes
children_written fuel [] bytes four e h =
    let none_left : bytes ≡ [] = ok-injective (sym e) in rw none_left refl
children_written zero (row ∷ rows) bytes four e h =
    let (rest, e2, bytes_are, small) = written_first row.0 row.1 rows bytes e in
    absurd (omega (arith, rw bytes_are at h))
children_written (suc fuel) (row ∷ rows) bytes four e h =
    let (rest, e2, bytes_are, small) = written_first row.0 row.1 rows bytes e in
    rw bytes_are (
      written_step fuel row.0 row.1 rest (boxes_of rows) four.0 small
        (λ k. children_written fuel rows rest four.1 e2 k) (rw bytes_are at h))

-- Boxes that are written one behind the other, each with a name of four bytes, are returned by the
-- walk over sibling boxes with their names, their payloads and their sizes.
pub child_boxes-write_boxes :
    (rows : List (Bytes × Bytes)) (bytes : Bytes)
    → All (λ row. length row.0 ≡ 4) rows
    → write_boxes rows ≡ ok bytes
    → child_boxes bytes ≡ ok (boxes_of rows)
unfolding child_boxes
child_boxes-write_boxes rows bytes four e =
    children_written (length bytes) rows bytes four e (omega arith)
