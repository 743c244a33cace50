-- ===== src/Clip/Time.antt =====
-- The conversions between clocks in src/clip.rs. A position on a sequence's timeline is its
-- nanoseconds; products are in `u128`, and do not overflow there.
use segmentor.Common.{ℕ, ◌*◌, ◌/◌, ◌-◌, Option, none, some, ltb, ◌==◌, if◌then◌else◌}
use segmentor.Common.Int.{ℤ, pos, ◌+ℤ◌}
use segmentor.Error.{Error, Result, ◌>>=◌, ok_or, checked_add, invalid_media, u64_mod}
use segmentor.Media.Sample.{Sample}

abbrev pub nanos_per_second : ℕ
nanos_per_second = 1000000000

abbrev pub overflow : Error
overflow = invalid_media "clip timing overflow"

-- `u64::try_from`
abbrev pub fit_u64 : ℕ → Option ℕ
fit_u64 n = if ltb n u64_mod then some n else none

abbrev pub checked_div : ℕ → ℕ → Option ℕ
checked_div a b = if b == 0 then none else some (a / b)

-- `TimelinePosition::millis`, `in_ticks` and `after`.
abbrev pub millis : ℕ → ℕ
millis position = position / 1000000

unfoldable pub in_ticks : ℕ → ℕ → Result ℕ
in_ticks position timescale = ok_or (fit_u64 (position * timescale / nanos_per_second)) overflow

unfoldable pub after_ticks : ℕ → ℕ → ℕ → Result ℕ
after_ticks position ticks timescale = do
  nanos ← ok_or (checked_div (ticks * nanos_per_second) timescale) overflow
  fitting ← ok_or (fit_u64 nanos) overflow
  ok_or (checked_add position fitting) overflow

unfoldable pub presented : Sample → ℤ
presented sample = pos sample.decode_time +ℤ sample.composition_offset

unfoldable pub end_of_sample : Sample → Result ℕ
end_of_sample sample = ok_or (checked_add sample.decode_time sample.duration) overflow

unfoldable pub ms_to_ticks : ℕ → ℕ → Result ℕ
ms_to_ticks milliseconds timescale = ok_or (fit_u64 (milliseconds * timescale / 1000)) overflow

unfoldable pub ticks_to_ms : ℕ → ℕ → ℕ
ticks_to_ms ticks timescale = elim (checked_div (ticks * 1000) timescale) [
  | none ↦ u64_mod - 1
  | some milliseconds ↦ if ltb milliseconds u64_mod then milliseconds else u64_mod - 1
]

unfoldable pub rescale_ticks : ℕ → ℕ → ℕ → Result ℕ
rescale_ticks value from_timescale to_timescale = do
  scaled ← ok_or (checked_div (value * to_timescale) from_timescale) overflow
  ok_or (fit_u64 scaled) overflow
