-- ===== src/Http/Windows/Short.antt =====
-- How much the windows of `interleaved_windows` of src/http/stream.rs read.
use segmentor.Common.{
  ℕ, suc, ◌+◌, ◌-◌, ◌≤◌, ◌≡◌, refl, Bool, true, false, List, [], ◌∷◌, some, ◌&&◌, not, ltb, leb,
  arith, bool-holds, ltb→lt, ltb→ge, All, if-some, and-true, or-false,
}
use mathlib.Core.Path.{subst}
use segmentor.Fmp4.Fragment.{ByteRange}
use segmentor.Fmp4.Fragment.Ranges.{total_length}
use segmentor.Http.Coalesce.{coalesce, read_bytes, gap_budget_bytes}
use segmentor.Http.Coalesce.Budget.{coalesce-WithinBudget}
use segmentor.Http.Windows.{
  Member, Window, any_longer, is_interleaved, interleaved_windows, joins, joined, window_of,
  windows_from, windows_of, window_bytes, tag_from, sort_members, last_run, max_runs, held_bytes,
  held_chunks, saturating_mul,
}
use segmentor.Http.Windows.Order.{All-sort_members, tag_from-All}

abbrev IsShort : ℕ → Window → Type 0
IsShort chunk_size w = w.end - w.start ≤ chunk_size

abbrev PieceIsShort : ℕ → Member → Type 0
PieceIsShort chunk_size m = m.1.length ≤ chunk_size

windows_from-IsShort :
    (chunk_size gap_spent : ℕ) (w : Window) (ms : List Member)
    → IsShort chunk_size w
    → All (PieceIsShort chunk_size) ms
    → All (IsShort chunk_size) (windows_from chunk_size gap_spent w ms)
unfolding windows_from
windows_from-IsShort chunk_size gap_spent w [] h k = (h, tt)
windows_from-IsShort chunk_size gap_spent w (m ∷ ms) h k =
    bool-holds (All (IsShort chunk_size)) (joins chunk_size gap_spent w m.1)
      (λ e.
        windows_from-IsShort chunk_size (gap_spent + (m.1.offset - w.end)) (joined w m) ms
          (joins-IsShort chunk_size gap_spent w m e) k.1)
      (λ _.
        (h, windows_from-IsShort chunk_size gap_spent (window_of m) ms (omega (arith, k.0)) k.1))
  where
    joins-IsShort :
        (chunk_size gap_spent : ℕ) (w : Window) (m : Member)
        → joins chunk_size gap_spent w m.1 ≡ true
        → IsShort chunk_size (joined w m)
    joins-IsShort chunk_size gap_spent w m e = ground arith

windows_of-IsShort :
    (chunk_size : ℕ) (ms : List Member)
    → All (PieceIsShort chunk_size) ms
    → All (IsShort chunk_size) (windows_of chunk_size ms)
unfolding windows_of
windows_of-IsShort chunk_size [] h = tt
windows_of-IsShort chunk_size (m ∷ ms) h =
    windows_from-IsShort chunk_size 0 (window_of m) ms (omega (arith, h.0)) h.1

any_longer-false :
    (chunk_size : ℕ) (ps : List ByteRange)
    → any_longer chunk_size ps ≡ false
    → All (λ p. p.length ≤ chunk_size) ps
unfolding any_longer
any_longer-false chunk_size [] e = tt
any_longer-false chunk_size (p ∷ ps) e =
    let both = or-false (ltb chunk_size p.length) (any_longer chunk_size ps) e in
    (ltb→ge chunk_size p.length both.0, any_longer-false chunk_size ps both.1)

is_interleaved-any_longer :
    (ps : List ByteRange) (chunk_size : ℕ)
    → is_interleaved ps chunk_size ≡ true
    → any_longer chunk_size ps ≡ false
unfolding is_interleaved
is_interleaved-any_longer ps chunk_size e =
    let runs : ℕ = suc (last_run 0 (tag_from 0 0 ps)) in
    third (leb 2 runs) (leb runs max_runs) (any_longer chunk_size ps)
      (leb (held_bytes (tag_from 0 0 ps)) (saturating_mul chunk_size held_chunks)) e
  where
    third : (a b c d : Bool) → (a && b && not c && d) ≡ true → c ≡ false
    third a b false d e = refl
    third true true true d e = cc
    third true false true d e = cc
    third false b true d e = cc

-- When the tracks of a segment are read together, every window is no longer than a chunk, and the
-- windows ask for no more bytes than the pieces have together and the budget for gaps.
pub interleaved_windows-IsShort :
    (ps : List ByteRange) (chunk_size : ℕ) (ws : List Window)
    → interleaved_windows ps chunk_size ≡ some ws
    → All (λ w. w.end - w.start ≤ chunk_size) ws
      × (window_bytes ws ≤ total_length ps + gap_budget_bytes)
unfolding interleaved_windows
interleaved_windows-IsShort ps chunk_size ws e =
    let sorted : List Member = sort_members (tag_from 0 0 ps) in
    let chosen =
      if-some
        (is_interleaved ps chunk_size
          && ltb (window_bytes (windows_of chunk_size sorted))
              (read_bytes (coalesce ps chunk_size)))
        e in
    let both =
      and-true (is_interleaved ps chunk_size)
        (ltb (window_bytes (windows_of chunk_size sorted)) (read_bytes (coalesce ps chunk_size)))
        chosen.0 in
    subst
      (λ ws. All (IsShort chunk_size) ws × (window_bytes ws ≤ total_length ps + gap_budget_bytes))
      chosen.1
      (
        windows_of-IsShort chunk_size sorted (
            All-sort_members (PieceIsShort chunk_size) (tag_from 0 0 ps) (
              tag_from-All (λ p. p.length ≤ chunk_size) 0 0 ps
                (any_longer-false chunk_size ps (is_interleaved-any_longer ps chunk_size both.0)))),
        omega (
          arith,
          coalesce-WithinBudget ps chunk_size,
          ltb→lt (window_bytes (windows_of chunk_size sorted)) (read_bytes (coalesce ps chunk_size))
              both.1,
        ),
      )
