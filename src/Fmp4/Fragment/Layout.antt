-- ===== src/Fmp4/Fragment/Layout.antt =====
-- The header that src/fmp4/fragment.rs puts in front of a segment's samples.
use segmentor.Common.{
  ℕ, ◌+◌, ◌^◌, ◌≡◌, ◌≤◌, refl, sym, ap, ◌∙◌, not, List, [], ◌∷◌, ◌++◌, arith, ltb, leb, ◌==◌,
  length, length-append, leb→le,
}
use segmentor.Common.Int.{pos}
use segmentor.Common.Bytes.{Bytes}
use segmentor.Error.{
  Result, ok, guard, ok_or, checked_add, invalid_media, Ensures, ensures-ok, ensures-bind,
  ensures-mono, ok_or-eq-ok, expect-eq-ok, guard-eq-ok,
}
use segmentor.Config.Limits.{LimitsConfig}
use segmentor.Fmp4.Write.{build_moof, write_box_header}
use segmentor.Fmp4.Write.Sizes.{build_moof-length, write_box_header-length}
use segmentor.Fmp4.Fragment.{
  PreparedSegment, ByteRange, coalesced_ranges, payload_from, finish, prepare_samples,
  prepare_media_segment, data_offset_of, in_track,
}
use segmentor.Fmp4.Fragment.Ranges.{
  range_positions, sample_positions, total_length, total_size, coalesced_ranges_lem,
  payload_from-total_size,
}
use segmentor.Media.Iter.{to_vec}
use segmentor.Media.Sample.{Sample}
use segmentor.Media.Tables.{plus}
use segmentor.Media.Track.{Track}
use segmentor.Segment.Planner.{TrackSegment}

-- A prepared segment: a `moof` whose samples start, as its data offset says, right behind the
-- header; ranges that read these samples in order; and the length of both together.
pub record IsPrepared (t : Track) (g : TrackSegment) (number limit : ℕ) (p : PreparedSegment)
    : Type 0 where
  pub samples : List Sample
  pub moof : Bytes
  pub mdat : Bytes
  pub samples_are : to_vec t.samples g.first_sample g.end_sample ≡ ok samples
  pub moof_is :
      build_moof t.id t.kind samples g.decode_time number (pos (length p.header)) [] [] ≡ ok moof
  pub mdat_is : write_box_header (total_size samples + 8) (b'm' ∷ b'd' ∷ b'a' ∷ b't' ∷ []) ≡ ok mdat
  pub header_is : p.header ≡ moof ++ mdat
  pub reads : range_positions p.ranges ≡ sample_positions samples
  pub content_length_is : p.content_length ≡ length p.header + total_length p.ranges
  pub within_limit : total_length p.ranges ≤ limit

plus-eq-ok : (a b : ℕ) {c : ℕ} → plus a b ≡ ok c → c ≡ a + b
plus-eq-ok a b e = ground (arith, expect-eq-ok (checked_add a b) e)

-- What `finish` returns.
record IsFinished (moof : Bytes) (payload_len : ℕ) (ranges : Result (List ByteRange))
    (p : PreparedSegment) : Type 0 where
  mdat : Bytes
  mdat_is : write_box_header (payload_len + 8) (b'm' ∷ b'd' ∷ b'a' ∷ b't' ∷ []) ≡ ok mdat
  header_is : p.header ≡ moof ++ mdat
  content_length_is : p.content_length ≡ length p.header + payload_len
  ranges_are : ranges ≡ ok p.ranges

finish-IsFinished :
    (moof : Bytes) (payload_len : ℕ) (ranges : Result (List ByteRange))
    → Ensures (finish moof payload_len ranges) (IsFinished moof payload_len ranges)
unfolding finish
finish-IsFinished moof payload_len ranges = ensures-bind (plus payload_len 8) λ size e1.
    ensures-bind (write_box_header size (b'm' ∷ b'd' ∷ b'a' ∷ b't' ∷ [])) λ mdat e2.
      ensures-bind
        (ok_or (checked_add (length (moof ++ mdat)) payload_len)
          (invalid_media "fragment size overflow"))
        λ content e3. ensures-bind ranges λ found e4.
          let size_is = plus-eq-ok payload_len 8 e1 in
          let e5 = ok_or-eq-ok _ _ e3 in
          let content_is : content ≡ length (moof ++ mdat) + payload_len = ground arith in
          ensures-ok (record {
            mdat = mdat;
            mdat_is = rw size_is at e2;
            header_is = refl;
            content_length_is = content_is;
            ranges_are = e4;
          })

mdat_header_length :
    (size : ℕ) (mdat : Bytes)
    → write_box_header size (b'm' ∷ b'd' ∷ b'a' ∷ b't' ∷ []) ≡ ok mdat
    → length mdat ≡ 8
mdat_header_length size mdat e =
    omega (arith, (write_box_header-length size (b'm' ∷ b'd' ∷ b'a' ∷ b't' ∷ [])).holds mdat e)

module _ (t : Track) (g : TrackSegment) (number : ℕ) (limits : LimitsConfig)
    (samples : List Sample) where
  abbrev moof_at : ℕ → Result Bytes
  moof_at data_offset = build_moof t.id t.kind samples g.decode_time number (pos data_offset) [] []

  -- Two tries at the header have the same length.
  same_length : (a b : ℕ) (m n : Bytes) → moof_at a ≡ ok m → moof_at b ≡ ok n → length m ≡ length n
  same_length a b m n e h =
      (build_moof-length t.id t.kind samples g.decode_time number (pos a) [] []).holds m e
      ∙ sym ((build_moof-length t.id t.kind samples g.decode_time number (pos b) [] []).holds n h)

  data_offset_of_lem : (n : ℕ) → Ensures (data_offset_of n) (λ d. d ≡ n + 8)
  data_offset_of_lem n = ensures-bind (plus n 8) λ d e.
      ensures-bind (guard (ltb d (2 ^ 31)) (invalid_media "fragment header is too large"))
        λ _ _. ensures-ok (plus-eq-ok n 8 e)

  assemble :
      (data_offset payload_len : ℕ) (provisional moof : Bytes) (p : PreparedSegment)
      → to_vec t.samples g.first_sample g.end_sample ≡ ok samples
      → moof_at 0 ≡ ok provisional
      → data_offset ≡ length provisional + 8
      → moof_at data_offset ≡ ok moof
      → payload_from 0 samples ≡ ok payload_len
      → payload_len ≤ limits.max_segment_bytes
      → IsFinished moof payload_len (coalesced_ranges samples) p
      → IsPrepared t g number limits.max_segment_bytes p
  assemble data_offset payload_len provisional moof p v e1 e2 e3 e4 h f =
      let total = payload_from-total_size samples payload_len e4 in
      let ranges = coalesced_ranges_lem samples p.ranges f.ranges_are in
      let header_length : length p.header ≡ data_offset = omega (
        arith,
        ap length f.header_is,
        length-append moof f.mdat,
        mdat_header_length (payload_len + 8) f.mdat f.mdat_is,
        same_length 0 data_offset provisional moof e1 e3,
        e2,
      ) in
      record {
        samples = samples;
        moof = moof;
        mdat = f.mdat;
        samples_are = v;
        moof_is = rw header_length e3;
        mdat_is = rw total at f.mdat_is;
        header_is = f.header_is;
        reads = ranges.0;
        content_length_is = omega (arith, f.content_length_is, ranges.1, total);
        within_limit = omega (arith, ranges.1, total, h);
      }

  prepare_samples-IsPrepared :
      to_vec t.samples g.first_sample g.end_sample ≡ ok samples
      → Ensures
          (prepare_samples t g number limits samples)
          (IsPrepared t g number limits.max_segment_bytes)
  unfolding prepare_samples
  prepare_samples-IsPrepared v =
      ensures-bind (guard (not (length samples == 0)) (invalid_media "segment contains no samples"))
        λ _ _. ensures-bind (moof_at 0) λ provisional e1.
          ensures-bind (data_offset_of (length provisional)) λ data_offset e2.
            ensures-bind (moof_at data_offset) λ moof e3.
              ensures-bind (payload_from 0 samples) λ payload_len e4.
                ensures-bind
                  (guard (leb payload_len limits.max_segment_bytes)
                    (invalid_media "segment payload exceeds configured limit"))
                  λ _ e5.
                    ensures-bind
                      (ok_or (checked_add (length moof) 8)
                        (invalid_media "fragment header size overflow"))
                      λ _ _.
                        ensures-mono
                          (λ p f.
                            assemble data_offset payload_len provisional moof p v e1
                              ((data_offset_of_lem (length provisional)).holds data_offset e2) e3 e4
                              (leb→le _ _ (guard-eq-ok _ _ e5)) f)
                          (finish-IsFinished moof payload_len (coalesced_ranges samples))

prepare_media_segment-Ensures :
    (t : Track) (g : TrackSegment) (number : ℕ) (limits : LimitsConfig)
    → Ensures
        (prepare_media_segment t g number limits)
        (IsPrepared t g number limits.max_segment_bytes)
unfolding prepare_media_segment
prepare_media_segment-Ensures t g number limits =
    ensures-bind (guard (in_track t g) (invalid_media "segment sample range is invalid")) λ _ _.
      ensures-bind (to_vec t.samples g.first_sample g.end_sample)
        λ samples e. prepare_samples-IsPrepared t g number limits samples e

-- A segment that is prepared has the samples of its range: its header is a moof whose data offset
-- is the header's length, then the header of an mdat of the samples' size; its ranges read the
-- bytes of the samples in order and each once; its length is that of the header and the ranges
-- together; and the ranges are no longer than the limit.
pub prepare_media_segment-IsPrepared :
    (t : Track) (g : TrackSegment) (number : ℕ) (limits : LimitsConfig) (p : PreparedSegment)
    → prepare_media_segment t g number limits ≡ ok p
    → IsPrepared t g number limits.max_segment_bytes p
prepare_media_segment-IsPrepared t g number limits p e =
    (prepare_media_segment-Ensures t g number limits).holds p e
