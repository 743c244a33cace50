-- ===== src/Config/Limits.antt =====
-- src/config/limits.rs: the resource limits that parsing, planning and serving enforce.
use segmentor.Common.{
  ℕ, Bool, true, false, List, [], ◌∷◌, ◌==◌, ◌||◌, if◌then◌else◌, Option, none, some, min, ◌*◌, ◌<◌,
  ◌≡◌, refl, All, or-false, arith,
}
use segmentor.Error.{Error, Result, ok, err, configuration}

pub record LimitsConfig : Type 0 where
  pub max_assets : ℕ
  pub max_source_bytes : ℕ
  pub max_metadata_bytes : ℕ
  pub max_fragments : ℕ
  pub metadata_concurrency : ℕ
  pub tolerate_truncated_tail : Bool
  pub max_tracks : ℕ
  pub max_samples_per_track : ℕ
  pub max_samples_per_segment : ℕ
  pub max_segment_bytes : ℕ
  pub max_segment_jobs : ℕ
  pub segment_queue_timeout_ms : ℕ
  pub stream_chunk_bytes : ℕ
  pub max_request_header_bytes : ℕ
  pub request_timeout_ms : ℕ
  pub max_startup_parses : ℕ
  pub max_concurrent_requests : ℕ
  pub response_idle_timeout_ms : ℕ
  pub max_index_bytes : ℕ
  pub max_connections : ℕ
  pub header_read_timeout_ms : ℕ
  pub max_subtitles : ℕ
  pub max_subtitle_bytes : ℕ
  pub max_subtitles_total_bytes : ℕ
  pub max_renditions : ℕ
  pub max_clips : ℕ
  pub max_sequence_files : ℕ

-- The limits that must not be 0, in the order of the check.
abbrev pub checked_limits : LimitsConfig → List ℕ
checked_limits c =
    c.max_assets ∷ c.max_source_bytes ∷ c.max_metadata_bytes ∷ c.max_fragments
    ∷ c.metadata_concurrency ∷ c.max_tracks ∷ c.max_samples_per_track ∷ c.max_samples_per_segment
    ∷ c.max_segment_bytes ∷ c.max_segment_jobs ∷ c.segment_queue_timeout_ms ∷ c.stream_chunk_bytes
    ∷ c.max_request_header_bytes ∷ c.request_timeout_ms ∷ c.max_startup_parses
    ∷ c.max_concurrent_requests ∷ c.response_idle_timeout_ms ∷ c.max_index_bytes ∷ c.max_connections
    ∷ c.header_read_timeout_ms ∷ c.max_subtitles ∷ c.max_subtitle_bytes
    ∷ c.max_subtitles_total_bytes ∷ c.max_renditions ∷ c.max_clips ∷ c.max_sequence_files ∷ []

unfoldable pub any_zero : List ℕ → Bool
any_zero [] = false
any_zero (n ∷ ns) = n == 0 || any_zero ns

unfoldable pub validate : LimitsConfig → Result (Unit {0})
unfolding any_zero
validate c =
    if any_zero (checked_limits c)
    then err (configuration "all resource limits must be greater than zero")
    else ok tt

-- The parallelism of the machine, where the standard library can tell it, is an argument. A
-- `NonZeroUsize` is not 0, and a product above `u64::MAX` is above 32.
unfoldable pub default_segment_jobs : Option ℕ → ℕ
default_segment_jobs none = 2
default_segment_jobs (some parallelism) = min (parallelism * 2) 32

unfoldable pub default_limits : Option ℕ → LimitsConfig
unfolding default_segment_jobs
default_limits parallelism = record {
  max_assets = 1000;
  max_source_bytes = 1024 * 1024 * 1024 * 1024;
  max_metadata_bytes = 64 * 1024 * 1024;
  max_fragments = 20000;
  metadata_concurrency = 16;
  tolerate_truncated_tail = false;
  max_tracks = 8;
  max_samples_per_track = 2000000;
  max_samples_per_segment = 100000;
  max_segment_bytes = 64 * 1024 * 1024;
  max_segment_jobs = default_segment_jobs parallelism;
  segment_queue_timeout_ms = 2000;
  stream_chunk_bytes = 256 * 1024;
  max_request_header_bytes = 16 * 1024;
  request_timeout_ms = 30000;
  max_startup_parses = 4;
  max_concurrent_requests = 10000;
  response_idle_timeout_ms = 30000;
  max_index_bytes = 4 * 1024 * 1024 * 1024;
  max_connections = 10000;
  header_read_timeout_ms = 10000;
  max_subtitles = 16;
  max_subtitle_bytes = 2 * 1024 * 1024;
  max_subtitles_total_bytes = 8 * 1024 * 1024;
  max_renditions = 8;
  max_clips = 64;
  max_sequence_files = 256;
}

any_zero-All : (ns : List ℕ) → any_zero ns ≡ false → All (λ n. 0 < n) ns
unfolding any_zero
any_zero-All [] e = tt
any_zero-All (n ∷ ns) e =
    let both = or-false (n == 0) (any_zero ns) e in (ground arith, any_zero-All ns both.1)

-- What a check that passes says of every limit.
pub validate-All :
    (c : LimitsConfig) {u : Unit {0}} → validate c ≡ ok u → All (λ n. 0 < n) (checked_limits c)
unfolding validate
validate-All c e = any_zero-All (checked_limits c) (
    passed (any_zero (checked_limits c))
      (configuration "all resource limits must be greater than zero") e)
  where
    passed : (b : Bool) (x : Error) {u : Unit {0}} → (if b then err x else ok tt) ≡ ok u → b ≡ false
    passed true x e = cc e
    passed false x e = refl
