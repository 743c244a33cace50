-- ===== src/Tests/Cenc.antt =====
-- Runs of the code of src/cenc/bits.rs and src/cenc/schedule.rs: the NAL unit and the codes that the
-- repository tests, and two key periods over two segments.
use segmentor.Common.{◌^◌, ◌<◌, ◌+◌, ◌*◌, ℕ, List, none, ◌≡◌, refl, [], ◌∷◌, some, arith}
use segmentor.Common.Bytes.{Bytes}
use segmentor.Error.{ok}
use segmentor.Segment.Planner.{Segment}
use segmentor.Tests.Planner.{film}
use segmentor.Cenc.Schedule.{
  KeyPeriod, ScheduledPeriod, schedule, place_periods, base_time, first_segment_of, starts_after,
  start_of, find_track,
}
use segmentor.Cenc.Schedule.Places.{Placed, schedule-Placed}
use segmentor.Cenc.Bits.{
  read_bits, bits_loop, read_bit, BitReader, moved_to, unescape, rbsp_new, nal_bytes_covering,
  read_ue,
}
use segmentor.Cenc.Bits.Escape.{escape, ComesFrom, rbsp_new-escape, rbsp_new-ComesFrom}
use segmentor.Cenc.Bits.Range.{Advanced, read_bits-Advanced}
use segmentor.Cenc.Bits.Codes.{bits_ahead, number_bits, read_ue-ue_bits}

abbrev payload : Bytes
payload = 101 ∷ 0 ∷ 0 ∷ 1 ∷ 255 ∷ []

abbrev nal : Bytes
nal = 101 ∷ 0 ∷ 0 ∷ 3 ∷ 1 ∷ 255 ∷ []

escaped : escape 0 payload ≡ nal
unfolding escape
escaped = refl

covering : nal_bytes_covering (rbsp_new nal 64) 32 ≡ some 5
unfolding nal_bytes_covering rbsp_new unescape
covering = refl

rbsp_new-escape_example : (rbsp_new nal 64).bytes ≡ payload
unfolding escape
rbsp_new-escape_example = rbsp_new-escape payload 64 (omega arith)

rbsp_new-ComesFrom_example : ComesFrom nal 0 (rbsp_new nal 64).origin (rbsp_new nal 64).bytes
rbsp_new-ComesFrom_example = rbsp_new-ComesFrom nal 64

-- 1 | 010 | 011 | 00100 | 00101
abbrev codes : BitReader
codes = record { source = 166 ∷ 66 ∷ 128 ∷ []; bit_position = 7 }

read_ue-ue_bits_example :
    (read_ue codes ≡ ok (3, moved_to 12 codes))
    × (bits_ahead (moved_to 12 codes) ≡ 0 ∷ 0 ∷ 1 ∷ 0 ∷ 1 ∷ 0 ∷ 0 ∷ 0 ∷ 0 ∷ 0 ∷ 0 ∷ 0 ∷ [])
unfolding number_bits
read_ue-ue_bits_example =
    read_ue-ue_bits 2 0 codes (0 ∷ 0 ∷ 1 ∷ 0 ∷ 1 ∷ 0 ∷ 0 ∷ 0 ∷ 0 ∷ 0 ∷ 0 ∷ 0 ∷ []) (omega arith)
      (omega arith) refl

abbrev two_segments : List Segment
two_segments = starting 0 0 ∷ starting 1 20 ∷ []
  where
    starting : ℕ → ℕ → Segment
    starting index time = record {
      index = index;
      tracks =
          record {
            track_id = 1;
            first_sample = 2 * index;
            end_sample = 2 * index + 2;
            decode_time = time;
            duration = 20;
          }
          ∷ [];
    }

-- Clear at first, and one key from the fifth millisecond on.
abbrev clear_lead : KeyPeriod ℕ
clear_lead = record { start_ms = 0; encryption = none }

abbrev keyed : KeyPeriod ℕ
keyed = record { start_ms = 5; encryption = some 7 }

abbrev placed_periods : List (ScheduledPeriod ℕ)
placed_periods =
    record { first_segment = 0; encryption = none }
    ∷ record { first_segment = 1; encryption = some 7 }
    ∷ []

schedule-Placed_example :
    Placed
      (film ∷ [])
      (base_time (film ∷ []) two_segments)
      two_segments
      (clear_lead ∷ keyed ∷ [])
      none
      placed_periods
unfolding schedule place_periods base_time first_segment_of starts_after start_of find_track
schedule-Placed_example =
    schedule-Placed 7 clear_lead (keyed ∷ []) (film ∷ []) two_segments placed_periods refl

read_bits-Advanced_example : (4 < 2 ^ 5) × (4 < 2 ^ 32) × Advanced codes 5 (moved_to 12 codes)
unfolding read_bits bits_loop read_bit
read_bits-Advanced_example = read_bits-Advanced 5 codes (moved_to 12 codes) 4 (omega arith) refl
