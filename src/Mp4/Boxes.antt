-- ===== src/Mp4/Boxes.antt =====
-- src/mp4/boxes.rs: one box, the walk over sibling boxes, and the search for a child.
pub mod Reader
pub mod Walk
use segmentor.Common.{
  ℕ, zero, suc, ◌+◌, ◌-◌, ◌≡◌, Bool, true, false, Option, none, some, List, [], ◌∷◌, ◌&&◌, ◌||◌,
  not, ltb, leb, ◌==◌, if◌then◌else◌, length, drop, slice, ◌^◌, String,
}
use segmentor.Common.Bytes.{Bytes, from_be_bytes, be_value}
use segmentor.Error.{
  Error, Result, ok, err, panic, ◌>>=◌, ◌>>◌, guard, ok_or, expect, invalid_media,
  invalid_media_with, checked_add, u64_mod,
}

pub record RawBox : Type 0 where
  pub name : Bytes
  pub payload : Bytes
  pub size : ℕ

-- `data.get(from..to)`
abbrev pub get_range : Bytes → ℕ → ℕ → Option Bytes
get_range bytes from to =
    if leb from to && leb to (length bytes) then some (slice bytes from to) else none

-- `[u8] == [u8]`
abbrev pub same_bytes : Bytes → Bytes → Bool
same_bytes [] [] = true
same_bytes (a ∷ as') (b ∷ bs) = a == b && same_bytes as' bs
same_bytes _ _ = false

-- The size and the header size that the header's fields give.
unfoldable pub box_size : Bytes → ℕ → ℕ → Result (ℕ × ℕ)
box_size bytes offset size32 =
    if size32 == 1
    then (do
      from ← expect (checked_add offset 8)
      to ← expect (checked_add offset 16)
      extended ←
          ok_or (get_range bytes from to) (invalid_media "extended MP4 box header is truncated")
      ok (from_be_bytes extended, 16))
    else if size32 == 0
    then ok (length bytes - offset, 8)
    else ok (size32, 8)

unfoldable pub fits : Bytes → ℕ → ℕ → ℕ → Bool
fits bytes offset size header_size =
    leb header_size size && ltb (offset + size) u64_mod && leb (offset + size) (length bytes)

unfoldable pub box_payload : Bytes → ℕ → Result RawBox
unfolding box_size fits
box_payload bytes offset = do
  end ← expect (checked_add offset 8)
  header ← ok_or (get_range bytes offset end) (invalid_media "MP4 box header is truncated")
  (size, header_size) ← box_size bytes offset (from_be_bytes (slice header 0 4))
  guard (fits bytes offset size header_size) (invalid_media "MP4 child box size is invalid")
  ok (record {
    name = slice header 4 8;
    payload = slice bytes (offset + header_size) (offset + size);
    size = size;
  })

-- `&data[size..]`
abbrev pub rest_after : Bytes → ℕ → Result Bytes
rest_after bytes size = if leb size (length bytes) then ok (drop size bytes) else panic

unfoldable pub child_boxes_loop : ℕ → Bytes → Result (List RawBox)
child_boxes_loop fuel [] = ok []
child_boxes_loop zero (b ∷ bs) = panic
child_boxes_loop (suc fuel) (b ∷ bs) = do
  child ← box_payload (b ∷ bs) 0
  rest ← rest_after (b ∷ bs) child.size
  children ← child_boxes_loop fuel rest
  ok (child ∷ children)

-- A box takes a byte at least, so a round for each byte is enough.
unfoldable pub child_boxes : Bytes → Result (List RawBox)
unfolding child_boxes_loop
child_boxes bytes = child_boxes_loop (length bytes) bytes

unfoldable pub find_named : Bytes → List RawBox → Option RawBox
find_named name [] = none
find_named name (c ∷ cs) = if same_bytes c.name name then some c else find_named name cs

unfoldable pub optional_child : Bytes → Bytes → Result (Option RawBox)
unfolding child_boxes find_named
optional_child bytes name = do children ← child_boxes bytes; ok (find_named name children)

-- `byte.is_ascii_graphic() || byte == b' '`, else `?`
unfoldable pub fourcc : Bytes → Bytes
fourcc [] = []
fourcc (c ∷ cs) = (if leb 0x20 c && leb c 0x7e then c else b'?') ∷ fourcc cs

unfoldable pub required_child : Bytes → Bytes → Result RawBox
unfolding optional_child fourcc
required_child bytes name = do
  found ← optional_child bytes name
  ok_or found (invalid_media_with "required MP4 box `{}` is missing" (fourcc name))
