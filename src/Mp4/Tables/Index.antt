-- ===== src/Mp4/Tables/Index.antt =====
-- The index that `sample_index` of src/mp4/tables.rs builds.
use segmentor.Common.{
  ℕ, ◌≤◌, ◌^◌, ◌≡◌, refl, Option, none, some, List, arith, length, leb, leb→le, length-replicate,
}
use segmentor.Error.{ok, guard, invalid_media, Ensures, ensures-ok, ensures-bind, guard-eq-ok}
use segmentor.Config.Limits.{LimitsConfig}
use segmentor.Media.Ascending.{Climbs}
use segmentor.Media.SampleIndex.{SampleIndex, new, len}
use segmentor.Mp4.Tables.Parse.{SampleTables, SampleSizes, constant, table}
use segmentor.Mp4.Tables.Chunks.{chunks}
use segmentor.Mp4.Tables.{
  sample_index, count_of, size_list, timing_runs, composition_tables, sync_table, sync_indexes,
  sort, dedup, report,
}
use segmentor.Mp4.Tables.Sync.{sync_table-Climbs}
use segmentor.Segment.Planner.Boundaries.{IsWindow}

length-size_list : (sizes : SampleSizes) → length (size_list sizes) ≡ count_of sizes
unfolding size_list count_of
length-size_list (constant size count) = length-replicate count size
length-size_list (table sizes) = refl

stss-Climbs :
    (count : ℕ) (o : Option (List ℕ)) (sync : List ℕ)
    → sync_table count o ≡ some sync
    → Climbs 0 count sync
unfolding sync_table
stss-Climbs count none sync e = cc
stss-Climbs count (some numbers) sync e =
    let same : sync ≡ dedup (sort (sync_indexes count numbers)) = cc e in
    rw same (sync_table-Climbs count numbers)

sample_index-Ensures :
    (t : SampleTables) (source_len : ℕ) (limits : LimitsConfig)
    → limits.max_samples_per_track ≤ 2 ^ 32
    → Ensures (sample_index t source_len limits) (λ s. IsWindow s × (len s ≡ count_of t.sizes))
unfolding sample_index new
sample_index-Ensures t source_len limits h =
    ensures-bind
      (guard (leb (count_of t.sizes) limits.max_samples_per_track)
        (invalid_media "sample count exceeds configured limit"))
      λ _ e1.
        ensures-bind (chunks t.sample_to_chunk t.chunk_offsets (size_list t.sizes) source_len)
          λ c _. ensures-bind (timing_runs t.time_to_sample (count_of t.sizes)) λ timing _.
            ensures-bind (composition_tables t.composition (count_of t.sizes)) λ composition _.
              ensures-bind (report c.beyond_source) λ _ _.
                let count = length-size_list t.sizes in
                let bounded = leb→le _ _ (guard-eq-ok _ _ e1) in
                ensures-ok (
                  record {
                    forward = omega arith;
                    inside = omega arith;
                    numbered = omega (arith, count, bounded, h);
                    sync_climbs = λ sync e. rw count (stss-Climbs (count_of t.sizes) t.sync sync e);
                  },
                  omega (arith, count),
                )

-- With a limit of at most 2 ^ 32 samples, an index that is built from the sample tables is a valid
-- window over all of the samples that the size table counts: its sync samples climb strictly and
-- lie inside it.
pub sample_index-IsWindow :
    (t : SampleTables) (source_len : ℕ) (limits : LimitsConfig) (s : SampleIndex)
    → limits.max_samples_per_track ≤ 2 ^ 32
    → sample_index t source_len limits ≡ ok s
    → IsWindow s × (len s ≡ count_of t.sizes)
sample_index-IsWindow t source_len limits s h e =
    (sample_index-Ensures t source_len limits h).holds s e
