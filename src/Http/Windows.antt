-- ===== src/Http/Windows.antt =====
-- src/http/stream.rs: `interleaved_windows`, which plans the reads of a segment whose tracks are
-- interleaved in the file. The sums of offsets and lengths are exact, as in `Coalesce`.
pub mod Order
pub mod Short
use segmentor.Common.{
  ℕ, suc, ◌+◌, ◌-◌, ◌*◌, max, Bool, true, false, Option, none, some, List, [], ◌∷◌, ◌++◌, ◌&&◌,
  ◌||◌, not, ◌==◌, ltb, leb, if◌then◌else◌,
}
use segmentor.Error.{u64_mod}
use segmentor.Fmp4.Fragment.{ByteRange}
use segmentor.Http.Coalesce.{piece_end, coalesce, read_bytes, max_gap_bytes, gap_budget_bytes}

abbrev pub Member : Type 0
Member = ℕ × ByteRange

pub record Window : Type 0 where
  pub start : ℕ
  pub end : ℕ
  pub members : List Member

abbrev pub max_runs : ℕ
max_runs = 4

abbrev pub held_chunks : ℕ
held_chunks = 4

-- A new run starts wherever a piece comes earlier in the file than the one before it.
abbrev pub run_at : ℕ → ℕ → ByteRange → ℕ
run_at run previous_end p = if ltb p.offset previous_end then suc run else run

unfoldable pub tag_from : ℕ → ℕ → List ByteRange → List Member
tag_from run previous_end [] = []
tag_from run previous_end (p ∷ ps) =
    (run_at run previous_end p, p) ∷ tag_from (run_at run previous_end p) (piece_end p) ps

-- The run of the last piece, or the one before the first.
unfoldable pub last_run : ℕ → List Member → ℕ
last_run run [] = run
last_run run (m ∷ ms) = last_run m.0 ms

unfoldable pub any_longer : ℕ → List ByteRange → Bool
any_longer chunk_size [] = false
any_longer chunk_size (p ∷ ps) = ltb chunk_size p.length || any_longer chunk_size ps

unfoldable pub held_bytes : List Member → ℕ
held_bytes [] = 0
held_bytes (m ∷ ms) = (if m.0 == 0 then 0 else m.1.length) + held_bytes ms

-- `sort_by_key`, which is stable.
unfoldable pub insert_member : Member → List Member → List Member
insert_member m [] = m ∷ []
insert_member m (n ∷ ns) =
    let rest = insert_member m ns in if leb m.1.offset n.1.offset then m ∷ n ∷ ns else n ∷ rest

unfoldable pub sort_members : List Member → List Member
unfolding insert_member
sort_members [] = []
sort_members (m ∷ ms) = insert_member m (sort_members ms)

abbrev pub window_of : Member → Window
window_of m = record { start = m.1.offset; end = piece_end m.1; members = m ∷ [] }

abbrev pub joins : ℕ → ℕ → Window → ByteRange → Bool
joins chunk_size gap_spent w p =
    leb (p.offset - w.end) max_gap_bytes
    && leb (gap_spent + (p.offset - w.end)) gap_budget_bytes
    && leb (max (piece_end p) w.end - w.start) chunk_size

abbrev pub joined : Window → Member → Window
joined w m = record {
  start = w.start;
  end = max w.end (piece_end m.1);
  members = w.members ++ (m ∷ []);
}

-- The loop over the sorted pieces, from the gaps spent and the last window.
unfoldable pub windows_from : ℕ → ℕ → Window → List Member → List Window
windows_from chunk_size gap_spent w [] = w ∷ []
windows_from chunk_size gap_spent w (m ∷ ms) = elim (joins chunk_size gap_spent w m.1) [
  | true ↦ windows_from chunk_size (gap_spent + (m.1.offset - w.end)) (joined w m) ms
  | false ↦ w ∷ windows_from chunk_size gap_spent (window_of m) ms
]

unfoldable pub windows_of : ℕ → List Member → List Window
unfolding windows_from
windows_of chunk_size [] = []
windows_of chunk_size (m ∷ ms) = windows_from chunk_size 0 (window_of m) ms

unfoldable pub window_bytes : List Window → ℕ
window_bytes [] = 0
window_bytes (w ∷ ws) = (w.end - w.start) + window_bytes ws

abbrev pub saturating_mul : ℕ → ℕ → ℕ
saturating_mul a b = if ltb (a * b) u64_mod then a * b else u64_mod - 1

-- Are the runs several and few, the pieces no longer than a chunk, and the bytes to hold few?
unfoldable pub is_interleaved : List ByteRange → ℕ → Bool
unfolding tag_from last_run any_longer held_bytes
is_interleaved pieces chunk_size =
    leb 2 (suc (last_run 0 (tag_from 0 0 pieces)))
    && leb (suc (last_run 0 (tag_from 0 0 pieces))) max_runs
    && not (any_longer chunk_size pieces)
    && leb (held_bytes (tag_from 0 0 pieces)) (saturating_mul chunk_size held_chunks)

unfoldable pub interleaved_windows : List ByteRange → ℕ → Option (List Window)
unfolding is_interleaved tag_from sort_members windows_of window_bytes coalesce read_bytes
interleaved_windows pieces chunk_size =
    let windows = windows_of chunk_size (sort_members (tag_from 0 0 pieces)) in
    if is_interleaved pieces chunk_size
      && ltb (window_bytes windows) (read_bytes (coalesce pieces chunk_size))
    then some windows
    else none
