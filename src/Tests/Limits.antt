-- ===== src/Tests/Limits.antt =====
-- The default limits of src/config/limits.rs pass its check, on a machine with 8 threads or one that
-- does not tell.
use segmentor.Common.{◌<◌, ◌≡◌, refl, none, some, All}
use segmentor.Error.{ok}
use segmentor.Config.Limits.{
  validate, any_zero, default_limits, default_segment_jobs, checked_limits, validate-All,
}

default_passes : validate (default_limits (some 8)) ≡ ok tt
unfolding validate any_zero default_limits default_segment_jobs
default_passes = refl

other_default_passes : validate (default_limits none) ≡ ok tt
unfolding validate any_zero default_limits default_segment_jobs
other_default_passes = refl

default_is_positive : All (λ n. 0 < n) (checked_limits (default_limits (some 8)))
default_is_positive = validate-All (default_limits (some 8)) default_passes
