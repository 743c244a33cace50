-- ===== src/Lib.antt =====
-- Segmentor: packaging of MP4 files into HLS and DASH segments while they are served.
--
-- A request reaches an asset of the registry. The asset's file is parsed: the boxes of `moov` are
-- walked (src/mp4/boxes.rs), the sample tables of each track are read and turned into a compact index
-- (src/mp4/tables.rs, src/media/samples.rs), and the samples are cut into segments
-- (src/segment/planner.rs). A fragmented file lists its samples in fragments instead
-- (src/mp4/fragments.rs). Edit lists move the tracks onto one timeline (src/mp4/edit.rs). A segment
-- is served as a header that is written for it, and byte ranges of the file (src/fmp4/fragment.rs),
-- which a task streams to the client (src/http/stream.rs).
-- A file's tracks may be narrowed by a selector (src/media/selection.rs), cut to a clip (src/clip.rs),
-- and played behind other clips as a sequence (src/sequence.rs). Encryption that rotates its keys is
-- scheduled over the segments (src/cenc/schedule.rs); what it may encrypt is found by reading NAL
-- units bit by bit (src/cenc/bits.rs).
-- Loaded assets stay in a cache that is bounded by weight (src/registry/cache.rs).
--
-- Where each part is:
--   Common, Common/*         helpers on lists, Booleans, integers and big-endian bytes.
--   Error                    `Error` and `Result` of src/error.rs, checked and saturating arithmetic.
--   Config/Limits            `LimitsConfig` of src/config/limits.rs.
--   Media/Sample             `Sample` and `TrackKind` of src/media/index.rs.
--   Media/Tables             `Tables` of src/media/samples.rs, one function per method.
--   Media/SampleIndex        `SampleIndex` of src/media/samples.rs, one function per method.
--   Media/Iter               `Iter` of src/media/samples.rs.
--   Media/Track              `Track` of src/media/index.rs.
--   Media/Building           `SampleIndex::from_samples` of src/media/samples.rs; Building/Valid is
--                            about the index that it builds.
--   Media/Selection          src/media/selection.rs; Selection/Spelling and Selection/Numbers are about
--                            its texts and the tracks it leaves.
--   Media/Ascending          lists of sample numbers that climb.
--   Mp4/Boxes, Boxes/Reader  src/mp4/boxes.rs; Boxes/Walk is about the walk over sibling boxes.
--   Mp4/Tables, Tables/*     src/mp4/tables.rs; Tables/Timing, Sync and Index are about its
--                            results.
--   Mp4/Fragments, and below src/mp4/fragments.rs: Trun has `tfhd` and `trun` boxes; Runs and Order
--                            are about the order of the samples.
--   Mp4/Edit, Edit/Apply     src/mp4/edit.rs; Edit/Offset and Edit/Shifts are about its offset.
--   Fmp4/Write               the boxes that src/fmp4/fragment.rs writes; Write/Sizes is about sizes,
--                            Write/ReadBack about walking them.
--   Fmp4/Fragment            the rest of src/fmp4/fragment.rs; the modules below it are about its
--                            ranges and its header.
--   Http/Range               src/http/range.rs; Range/Bounds is about what it returns.
--   Http/Coalesce            the grouping of reads in src/http/stream.rs; the modules below it are
--                            about the reads' order and size.
--   Http/Windows             `interleaved_windows` of src/http/stream.rs, likewise.
--   Http/Stream              the streaming task of src/http/stream.rs; the modules below it are about
--                            what each of its loops sends.
--   Cenc/Bits                src/cenc/bits.rs; Bits/Codes, Range and Escape are about its fields and its
--                            escaped bytes.
--   Cenc/Schedule            src/cenc/schedule.rs; Schedule/Places is about where its periods begin.
--   Clip, Clip/Time          src/clip.rs; Clip/Accepted and Clip/Rounding are about its windows and its
--                            clocks.
--   Sequence                 src/sequence.rs; Sequence/Numbering is about the segments' numbers.
--   Segment/Planner          src/segment/planner.rs; the modules below it are about its cuts.
--   Registry/Cache           src/registry/cache.rs; the modules below it are about its operations.
--   Tests                    concrete runs of the code, and the theorems at them.
--
-- How the code is read:
--   - Unsigned integers are natural numbers. Additions and products that the code checks are checked
--     against 2 ^ 64, those that it does not check panic there, as a build with overflow checks does;
--     `usize` has 64 bits. In src/mp4/edit.rs every operation on `i128` is checked; the sums of
--     `i128` in src/media/samples.rs stay far inside the range and are exact, and so are the products
--     of `u128` in src/clip.rs and src/cenc/schedule.rs. In src/http/stream.rs the sums of a range's
--     offset and length are exact, since a range lies inside a source whose length is a `u64`.
--   - `Result` has a third case, `panic`: an index out of bounds, a failed `expect` or `assert!`, an
--     overflow, or a loop that runs out of rounds. A theorem that a result is `ok`, or is not
--     `panic`, so says that the code ends there as well.
--   - Rounds: the walk over boxes has one for each byte, since a box takes 8 bytes at least; the cut
--     of a track has one for each sample and one more, since each round moves past a sample; the
--     eviction has one for each entry and one more, since each round removes an entry; an iterator
--     has one for each position of its range; each loop that sends chunks has one for each byte that is
--     left, since a chunk has a byte at least.
--   - The streaming task is a state passing function: the client, the queue of jobs and the source
--     answer from the history of its reads and sends, whatever they do. `stuck` is its `panic`.
--   - A message is its format and its numeric arguments.
--   - `partition_point`, `sort_unstable`, `dedup`, `binary_search` on a sorted slice and `HashMap` of
--     the standard library are functions on lists; a map is an association list.
--   - The asset that the cache holds is a type parameter with a weight.
--
-- Not modelled: the network, the file system, the HTTP framework, ciphers, configuration files, logs
-- and metrics, which are input and output; manifests, which are text made from a plan; the hash that
-- names a version; and the init segment, the encryption of samples, subtitles and adaptive sets.
pub mod Common
pub mod Error
pub mod Config
pub mod Media
pub mod Mp4
pub mod Fmp4
pub mod Http
pub mod Cenc
pub mod Clip
pub mod Sequence
pub mod Segment
pub mod Registry
pub mod Tests
