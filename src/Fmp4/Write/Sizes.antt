-- ===== src/Fmp4/Write/Sizes.antt =====
-- The sizes of the boxes that src/fmp4/fragment.rs writes.
use segmentor.Common.{
  ℕ, ◌+◌, ◌-◌, ◌*◌, ◌^◌, ◌≡◌, refl, List, [], ◌∷◌, ◌++◌, arith, ltb, length, length-append,
}
use segmentor.Common.Int.{ℤ, pos, negsuc}
use segmentor.Common.Bytes.{Bytes, to_be_bytes, length-to_be_bytes}
use segmentor.Error.{
  guard, ok_or, checked_add, invalid_media, Ensures, ensures-ok, ensures-err, ensures-if,
  ensures-bind, ensures-mono,
}
use segmentor.Media.Sample.{Sample, TrackKind}
use segmentor.Fmp4.Write.{
  signed_bytes, write_full_box_fields, write_box_header, write_box, trun_entries, build_traf,
  concat, moof_of, build_moof, tfhd_payload, tfdt_payload, trun_payload,
}

length-signed_bytes : (z : ℤ) → length (signed_bytes z) ≡ 4
unfolding signed_bytes
length-signed_bytes (pos n) = length-to_be_bytes 4 n
length-signed_bytes (negsuc n) = length-to_be_bytes 4 (2 ^ 32 - n - 1)

pub write_box_header-length :
    (size : ℕ) (name : Bytes)
    → Ensures (write_box_header size name) (λ b. length b ≡ 4 + length name)
unfolding write_box_header
write_box_header-length size name =
    let h : length (to_be_bytes 4 size ++ name) ≡ 4 + length name = omega arith in
    ensures-if (ltb size (2 ^ 32)) (λ _. ensures-ok h) (λ _. ensures-err _)

pub write_box-length :
    (name payload : Bytes)
    → Ensures (write_box name payload) (λ b. length b ≡ 4 + length name + length payload)
unfolding write_box
write_box-length name payload =
    ensures-bind (ok_or (checked_add (length payload) 8) (invalid_media "box size overflow"))
      λ size _. ensures-bind (write_box_header size name) λ header e.
        let h : length (header ++ payload) ≡ 4 + length name + length payload = omega (
          arith,
          length-append header payload,
          (write_box_header-length size name).holds header e,
        ) in
        ensures-ok h

length-trun_entries :
    (kind : TrackKind) (ss : List Sample) → length (trun_entries kind ss) ≡ 16 * length ss
unfolding trun_entries
length-trun_entries kind [] = refl
length-trun_entries kind (s ∷ ss) = omega (
  arith,
  length-append (signed_bytes s.composition_offset) (trun_entries kind ss),
  length-signed_bytes s.composition_offset,
  length-trun_entries kind ss,
)

length-trun_payload :
    (kind : TrackKind) (ss : List Sample) (data_offset : ℤ)
    → length (trun_payload kind ss data_offset) ≡ 12 + 16 * length ss
unfolding write_full_box_fields
length-trun_payload kind ss data_offset = omega (
  arith,
  length-append (signed_bytes data_offset) (trun_entries kind ss),
  length-signed_bytes data_offset,
  length-trun_entries kind ss,
)

-- A `traf` takes the same room whatever its data offset.
build_traf-length :
    (id : ℕ) (kind : TrackKind) (ss : List Sample) (time : ℕ) (data_offset : ℤ) (extra : Bytes)
    → Ensures
        (build_traf id kind ss time data_offset extra)
        (λ b. length b ≡ 64 + 16 * length ss + length extra)
unfolding build_traf
build_traf-length id kind ss time data_offset extra =
    ensures-bind (guard (ltb (length ss) (2 ^ 32)) (invalid_media "fragment has too many samples"))
      λ _ _. ensures-bind (write_box (b't' ∷ b'f' ∷ b'h' ∷ b'd' ∷ []) (tfhd_payload id)) λ tfhd e1.
        ensures-bind (write_box (b't' ∷ b'f' ∷ b'd' ∷ b't' ∷ []) (tfdt_payload time)) λ tfdt e2.
          ensures-bind
            (write_box (b't' ∷ b'r' ∷ b'u' ∷ b'n' ∷ []) (trun_payload kind ss data_offset))
            λ trun e3.
              ensures-mono
                (λ b h. omega (
                  arith,
                  h,
                  length-append tfhd (tfdt ++ (trun ++ extra)),
                  length-append tfdt (trun ++ extra),
                  length-append trun extra,
                  (write_box-length (b't' ∷ b'f' ∷ b'h' ∷ b'd' ∷ []) (tfhd_payload id)).holds tfhd
                      e1,
                  (write_box-length (b't' ∷ b'f' ∷ b'd' ∷ b't' ∷ []) (tfdt_payload time)).holds tfdt
                      e2,
                  (write_box-length (b't' ∷ b'r' ∷ b'u' ∷ b'n' ∷ [])
                        (trun_payload kind ss data_offset)).holds
                      trun e3,
                  length-trun_payload kind ss data_offset,
                ))
                (write_box-length (b't' ∷ b'r' ∷ b'a' ∷ b'f' ∷ [])
                  (tfhd ++ (tfdt ++ (trun ++ extra))))

moof_of-length :
    (number : ℕ) (moof_extra : Bytes) (trafs : List Bytes)
    → Ensures
        (moof_of number moof_extra trafs)
        (λ b. length b ≡ 24 + length moof_extra + length (concat trafs))
unfolding moof_of
moof_of-length number moof_extra trafs =
    ensures-bind
      (write_box (b'm' ∷ b'f' ∷ b'h' ∷ b'd' ∷ [])
        (write_full_box_fields 0 0 ++ to_be_bytes 4 number))
      λ mfhd e.
        ensures-mono
          (λ b h. omega (
            arith,
            h,
            length-append mfhd (moof_extra ++ concat trafs),
            length-append moof_extra (concat trafs),
            (write_box-length (b'm' ∷ b'f' ∷ b'h' ∷ b'd' ∷ [])
                  (write_full_box_fields 0 0 ++ to_be_bytes 4 number)).holds
                mfhd e,
          ))
          (write_box-length (b'm' ∷ b'o' ∷ b'o' ∷ b'f' ∷ []) (mfhd ++ (moof_extra ++ concat trafs)))

-- The length of a `moof` does not depend on its data offset, nor on anything else but the number
-- of its samples and the boxes carried along.
pub build_moof-length :
    (id : ℕ) (kind : TrackKind) (ss : List Sample) (time number : ℕ) (data_offset : ℤ)
    (extra moof_extra : Bytes)
    → Ensures
        (build_moof id kind ss time number data_offset extra moof_extra)
        (λ b. length b ≡ 88 + 16 * length ss + length extra + length moof_extra)
unfolding build_moof concat
build_moof-length id kind ss time number data_offset extra moof_extra =
    ensures-bind (build_traf id kind ss time data_offset extra) λ traf e.
      ensures-mono
        (λ b h. omega (
          arith,
          h,
          length-append traf [],
          (build_traf-length id kind ss time data_offset extra).holds traf e,
        ))
        (moof_of-length number moof_extra (traf ∷ []))
