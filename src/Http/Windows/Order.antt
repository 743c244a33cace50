-- ===== src/Http/Windows/Order.antt =====
-- The order in which `interleaved_windows` of src/http/stream.rs reads: its pieces are sorted, and
-- each stands in a window that holds it.
use segmentor.Common.{
  ℕ, suc, ◌+◌, ◌-◌, ◌≤◌, ◌<◌, ◌≡◌, refl, ap, ◌∙◌, max, List, [], ◌∷◌, ◌++◌, append_assoc, length,
  arith, leb, ltb, if-cases, bool-holds, All, All-map, All-append, leb→le, leb→gt,
}
use segmentor.Fmp4.Fragment.{ByteRange}
use segmentor.Http.Coalesce.{piece_end}
use segmentor.Http.Coalesce.Order.{InSpan}
use segmentor.Http.Windows.{
  Member, Window, run_at, tag_from, insert_member, sort_members, window_of, joined, joins,
  windows_from, windows_of,
}

abbrev Behind : ℕ → Member → Type 0
Behind offset m = offset ≤ m.1.offset

-- Sorted by the offsets.
abbrev pub Sorted : List Member → Type 0
Sorted [] = Unit {0}
Sorted (m ∷ ms) = All (Behind m.1.offset) ms × Sorted ms

pub All-insert_member :
    (P : Member → Type 0) (m : Member) (ns : List Member)
    → P m
    → All P ns
    → All P (insert_member m ns)
unfolding insert_member
All-insert_member P m [] h k = (h, tt)
All-insert_member P m (n ∷ ns) h k =
    if-cases (All P) (leb m.1.offset n.1.offset) (λ _. (h, k))
      (λ _. (k.0, All-insert_member P m ns h k.1))

pub All-sort_members : (P : Member → Type 0) (ms : List Member) → All P ms → All P (sort_members ms)
unfolding sort_members
All-sort_members P [] h = tt
All-sort_members P (m ∷ ms) h =
    All-insert_member P m (sort_members ms) h.0 (All-sort_members P ms h.1)

insert_member-Sorted : (m : Member) (ns : List Member) → Sorted ns → Sorted (insert_member m ns)
unfolding insert_member
insert_member-Sorted m [] h = (tt, tt)
insert_member-Sorted m (n ∷ ns) h =
    if-cases Sorted (leb m.1.offset n.1.offset)
      (λ e.
        let le : m.1.offset ≤ n.1.offset = leb→le m.1.offset n.1.offset e in
        ((le, All-map (λ x k. omega arith) ns h.0), h))
      (λ e.
        let le : n.1.offset < m.1.offset = leb→gt m.1.offset n.1.offset e in
        (
          All-insert_member (Behind n.1.offset) m ns (omega arith) h.0,
          insert_member-Sorted m ns h.1,
        ))

pub sort_members-Sorted : (ms : List Member) → Sorted (sort_members ms)
unfolding sort_members
sort_members-Sorted [] = tt
sort_members-Sorted (m ∷ ms) = insert_member-Sorted m (sort_members ms) (sort_members-Sorted ms)

-- A piece of a run, or of a later one; of the run itself only behind `offset`.
abbrev pub Follows : ℕ → ℕ → Member → Type 0
Follows run offset m = (run ≤ m.0) × (m.0 ≡ run → offset ≤ m.1.offset)

pub tag_from-Follows :
    (run previous_end : ℕ) (ps : List ByteRange)
    → All (Follows run previous_end) (tag_from run previous_end ps)
unfolding tag_from
tag_from-Follows run previous_end [] = tt
tag_from-Follows run previous_end (p ∷ ps) =
    if-cases
      (λ r.
        Follows run previous_end (r, p)
        × All (Follows run previous_end) (tag_from r (piece_end p) ps))
      (ltb p.offset previous_end)
      (λ _. (
        (omega arith, λ e. absurd (omega arith)),
        All-map (λ m k. (omega (arith, k.0), λ e. absurd (omega (arith, k.0))))
            (tag_from (suc run) (piece_end p) ps) (tag_from-Follows (suc run) (piece_end p) ps),
      ))
      (λ f.
        let le : previous_end ≤ p.offset = ground arith in
        (
          (omega arith, λ e. le),
          All-map (λ m k. (k.0, λ e. omega (arith, k.1 e))) (tag_from run (piece_end p) ps)
              (tag_from-Follows run (piece_end p) ps),
        ))

-- Runs that come in order, and pieces of a run that come in the order of their offsets.
abbrev pub Grouped : List Member → Type 0
Grouped [] = Unit {0}
Grouped (m ∷ ms) = All (Follows m.0 m.1.offset) ms × Grouped ms

pub tag_from-Grouped :
    (run previous_end : ℕ) (ps : List ByteRange) → Grouped (tag_from run previous_end ps)
unfolding tag_from
tag_from-Grouped run previous_end [] = tt
tag_from-Grouped run previous_end (p ∷ ps) =
    let r : ℕ = run_at run previous_end p in
    (
      All-map (λ m k. (k.0, λ e. omega (arith, k.1 e))) (tag_from r (piece_end p) ps)
          (tag_from-Follows r (piece_end p) ps),
      tag_from-Grouped r (piece_end p) ps,
    )

abbrev pub RunBelow : ℕ → Member → Type 0
RunBelow bound m = m.0 < bound

pub tag_from-RunBelow :
    (run previous_end bound : ℕ) (ps : List ByteRange)
    → run + length ps < bound
    → All (RunBelow bound) (tag_from run previous_end ps)
unfolding tag_from
tag_from-RunBelow run previous_end bound [] h = tt
tag_from-RunBelow run previous_end bound (p ∷ ps) h =
    if-cases (λ r. RunBelow bound (r, p) × All (RunBelow bound) (tag_from r (piece_end p) ps))
      (ltb p.offset previous_end)
      (λ _. (omega arith, tag_from-RunBelow (suc run) (piece_end p) bound ps (omega arith)))
      (λ _. (omega arith, tag_from-RunBelow run (piece_end p) bound ps (omega arith)))

-- What holds of the pieces holds of them when they are tagged.
pub tag_from-All :
    (P : ByteRange → Type 0) (run previous_end : ℕ) (ps : List ByteRange)
    → All P ps
    → All (λ m. P m.1) (tag_from run previous_end ps)
unfolding tag_from
tag_from-All P run previous_end [] h = tt
tag_from-All P run previous_end (p ∷ ps) h =
    (h.0, tag_from-All P (run_at run previous_end p) (piece_end p) ps h.1)

-- The members of some windows, in order.
abbrev pub members_of : List Window → List Member
members_of [] = []
members_of (w ∷ ws) = w.members ++ members_of ws

windows_from-members :
    (chunk_size gap_spent : ℕ) (w : Window) (ms : List Member)
    → members_of (windows_from chunk_size gap_spent w ms) ≡ w.members ++ ms
unfolding windows_from
windows_from-members chunk_size gap_spent w [] = refl
windows_from-members chunk_size gap_spent w (m ∷ ms) =
    bool-holds (λ ws. members_of ws ≡ w.members ++ m ∷ ms) (joins chunk_size gap_spent w m.1)
      (λ _.
        windows_from-members chunk_size (gap_spent + (m.1.offset - w.end)) (joined w m) ms
        ∙ append_assoc w.members (m ∷ []) ms)
      (λ _. ap (◌++◌ w.members) (windows_from-members chunk_size gap_spent (window_of m) ms))

pub windows_of-members :
    (chunk_size : ℕ) (ms : List Member) → members_of (windows_of chunk_size ms) ≡ ms
unfolding windows_of
windows_of-members chunk_size [] = refl
windows_of-members chunk_size (m ∷ ms) = windows_from-members chunk_size 0 (window_of m) ms

-- A window ends within `bound` and holds its members.
abbrev pub IsWindow : ℕ → Window → Type 0
IsWindow bound w =
    (w.start ≤ w.end) × (w.end ≤ bound) × All (λ m. InSpan w.start w.end m.1) w.members

abbrev EndsBelow : ℕ → Member → Type 0
EndsBelow bound m = piece_end m.1 ≤ bound

joined-IsWindow :
    (bound : ℕ) (w : Window) (m : Member)
    → IsWindow bound w
    → piece_end m.1 ≤ bound
    → w.start ≤ m.1.offset
    → IsWindow bound (joined w m)
joined-IsWindow bound w m h k l = (
  omega (arith, h.0),
  omega (arith, h.1),
  All-append (λ n. InSpan w.start (max w.end (piece_end m.1)) n.1) w.members (m ∷ [])
      (All-map (λ n i. (i.0, omega (arith, i.1))) w.members h.2) ((l, omega arith), tt),
)

windows_from-IsWindow :
    (bound chunk_size gap_spent : ℕ) (w : Window) (ms : List Member)
    → IsWindow bound w
    → All (EndsBelow bound) ms
    → All (Behind w.start) ms
    → Sorted ms
    → All (IsWindow bound) (windows_from chunk_size gap_spent w ms)
unfolding windows_from
windows_from-IsWindow bound chunk_size gap_spent w [] h k l s = (h, tt)
windows_from-IsWindow bound chunk_size gap_spent w (m ∷ ms) h k l s =
    bool-holds (All (IsWindow bound)) (joins chunk_size gap_spent w m.1)
      (λ _.
        windows_from-IsWindow bound chunk_size (gap_spent + (m.1.offset - w.end)) (joined w m) ms
          (joined-IsWindow bound w m h k.0 l.0) k.1 l.1 s.1)
      (λ _. (
        h,
        windows_from-IsWindow bound chunk_size gap_spent (window_of m) ms
            (window_of-IsWindow bound m k.0) k.1 s.0 s.1,
      ))
  where
    window_of-IsWindow :
        (bound : ℕ) (m : Member) → piece_end m.1 ≤ bound → IsWindow bound (window_of m)
    window_of-IsWindow bound m h = (omega arith, h, ((omega arith, omega arith), tt))

pub windows_of-IsWindow :
    (bound chunk_size : ℕ) (ms : List Member)
    → All (EndsBelow bound) ms
    → Sorted ms
    → All (IsWindow bound) (windows_of chunk_size ms)
unfolding windows_of
windows_of-IsWindow bound chunk_size [] h s = tt
windows_of-IsWindow bound chunk_size (m ∷ ms) h s =
    windows_from-IsWindow bound chunk_size 0 (window_of m) ms
      (omega arith, h.0, ((omega arith, omega arith), tt)) h.1 s.0 s.1
