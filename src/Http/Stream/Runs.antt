-- ===== src/Http/Stream/Runs.antt =====
-- The bytes of each run of a response, for the interleaved reads of src/http/stream.rs.
use segmentor.Common.{
  ℕ, zero, suc, ◌+◌, ◌≤◌, ◌<◌, ◌≡◌, ◌≢◌, refl, sym, ap, ◌∙◌, List, [], ◌∷◌, ◌++◌, append_assoc,
  append-nil, length, slice, get_or, arith, leb, leb→gt, if-cases, All, All-map,
}
use segmentor.Common.Bytes.{Bytes}
use segmentor.Fmp4.Fragment.{ByteRange}
use segmentor.Http.Coalesce.{piece_end}
use segmentor.Http.Windows.{Member, run_at, tag_from, insert_member, sort_members}
use segmentor.Http.Windows.Order.{
  Follows, Grouped, RunBelow, All-sort_members, tag_from-Grouped, tag_from-RunBelow,
}
use segmentor.Http.Stream.{hold}
use segmentor.Http.Stream.Parts.{joined_bytes}
use segmentor.Http.Stream.Reads.{parts}

-- `bytes` at the place `n`, and nothing elsewhere.
abbrev pub only_at : ℕ → Bytes → ℕ → Bytes
only_at zero bytes zero = bytes
only_at zero bytes (suc k) = []
only_at (suc n) bytes zero = []
only_at (suc n) bytes (suc k) = only_at n bytes k

only_at-ne : (n : ℕ) (bytes : Bytes) (k : ℕ) → n ≢ k → only_at n bytes k ≡ []
only_at-ne zero bytes zero h = absurd (h refl)
only_at-ne zero bytes (suc k) h = refl
only_at-ne (suc n) bytes zero h = refl
only_at-ne (suc n) bytes (suc k) h = only_at-ne n bytes k λ e. h (ap suc e)

only_at-swap :
    (n m : ℕ) (a b rest : Bytes) (k : ℕ)
    → n ≢ m
    → only_at n a k ++ (only_at m b k ++ rest) ≡ only_at m b k ++ (only_at n a k ++ rest)
only_at-swap zero zero a b rest k h = absurd (h refl)
only_at-swap zero (suc m) a b rest zero h = refl
only_at-swap zero (suc m) a b rest (suc k) h = refl
only_at-swap (suc n) zero a b rest zero h = refl
only_at-swap (suc n) zero a b rest (suc k) h = refl
only_at-swap (suc n) (suc m) a b rest zero h = refl
only_at-swap (suc n) (suc m) a b rest (suc k) h = only_at-swap n m a b rest k λ e. h (ap suc e)

-- `f 0`, `f 1` and so on, `n` of them.
abbrev pub joined_runs : (ℕ → Bytes) → ℕ → Bytes
joined_runs f zero = []
joined_runs f (suc n) = f 0 ++ joined_runs (λ k. f (suc k)) n

joined_runs-ext :
    (f g : ℕ → Bytes) (n : ℕ) → ((k : ℕ) → f k ≡ g k) → joined_runs f n ≡ joined_runs g n
joined_runs-ext f g zero h = refl
joined_runs-ext f g (suc n) h =
    rw (h 0, joined_runs-ext (λ k. f (suc k)) (λ k. g (suc k)) n λ k. h (suc k)) refl

joined_runs-nil : (f : ℕ → Bytes) (n : ℕ) → ((k : ℕ) → f k ≡ []) → joined_runs f n ≡ []
joined_runs-nil f zero h = refl
joined_runs-nil f (suc n) h = rw (h 0, joined_runs-nil (λ k. f (suc k)) n λ k. h (suc k)) refl

-- Runs behind the last that has bytes add nothing.
joined_runs-plus :
    (f : ℕ → Bytes) (n m : ℕ)
    → ((k : ℕ) → n ≤ k → f k ≡ [])
    → joined_runs f (n + m) ≡ joined_runs f n
joined_runs-plus f zero m h =
    let e : 0 + m ≡ m = omega arith in rw e (joined_runs-nil f m λ k. h k (omega arith))
joined_runs-plus f (suc n) m h =
    let e : suc n + m ≡ suc (n + m) = omega arith in
    rw e (ap (◌++◌ (f 0)) (joined_runs-plus (λ k. f (suc k)) n m λ k l. h (suc k) (omega arith)))

-- Bytes in front of those of one run, when the runs before it have none.
joined_runs-front :
    (f : ℕ → Bytes) (bytes : Bytes) (run n : ℕ)
    → run < n
    → ((k : ℕ) → k < run → f k ≡ [])
    → joined_runs (λ k. only_at run bytes k ++ f k) n ≡ bytes ++ joined_runs f n
joined_runs-front f bytes run zero h k = absurd (omega arith)
joined_runs-front f bytes zero (suc n) h k =
    append_assoc bytes (f 0) (joined_runs (λ i. f (suc i)) n)
joined_runs-front f bytes (suc run) (suc n) h k =
    let none : f 0 ≡ [] = k 0 (omega arith) in
    rw none
      (joined_runs-front (λ i. f (suc i)) bytes run n (omega arith) λ i l. k (suc i) (omega arith))

-- What is held, run by run.
pub joined_bytes-runs :
    (held : List Bytes) → joined_bytes held ≡ joined_runs (λ k. get_or held k []) (length held)
joined_bytes-runs [] = refl
joined_bytes-runs (h ∷ hs) = ap (◌++◌ h) (joined_bytes-runs hs)

get_or-beyond : (held : List Bytes) (k : ℕ) → length held ≤ k → get_or held k [] ≡ []
get_or-beyond [] k h = refl
get_or-beyond (b ∷ bs) zero h = absurd (omega arith)
get_or-beyond (b ∷ bs) (suc k) h = get_or-beyond bs k (omega arith)

pub get_or-hold :
    (n : ℕ) (bytes : Bytes) (held : List Bytes) (k : ℕ)
    → get_or (hold n bytes held) k [] ≡ get_or held k [] ++ only_at n bytes k
unfolding hold
get_or-hold zero bytes [] zero = refl
get_or-hold zero bytes [] (suc k) = refl
get_or-hold zero bytes (h ∷ hs) zero = refl
get_or-hold zero bytes (h ∷ hs) (suc k) = sym (append-nil (get_or hs k []))
get_or-hold (suc n) bytes [] zero = refl
get_or-hold (suc n) bytes [] (suc k) = get_or-hold n bytes [] k
get_or-hold (suc n) bytes (h ∷ hs) zero = sym (append-nil h)
get_or-hold (suc n) bytes (h ∷ hs) (suc k) = get_or-hold n bytes hs k

module _ (file : Bytes) where
  abbrev pub piece_bytes : Member → Bytes
  piece_bytes m = slice file m.1.offset (piece_end m.1)

  -- The bytes of the pieces of one run.
  abbrev pub run_bytes : List Member → ℕ → Bytes
  run_bytes [] k = []
  run_bytes (m ∷ ms) k = only_at m.0 (piece_bytes m) k ++ run_bytes ms k

  pub run_bytes-append :
      (ms ns : List Member) (k : ℕ) → run_bytes (ms ++ ns) k ≡ run_bytes ms k ++ run_bytes ns k
  run_bytes-append [] ns k = refl
  run_bytes-append (m ∷ ms) ns k =
      ap (◌++◌ (only_at m.0 (piece_bytes m) k)) (run_bytes-append ms ns k)
      ∙ sym (append_assoc (only_at m.0 (piece_bytes m) k) (run_bytes ms k) (run_bytes ns k))

  run_bytes-none :
      (ms : List Member) (run k : ℕ) → All (λ m. run ≤ m.0) ms → k < run → run_bytes ms k ≡ []
  run_bytes-none [] run k h l = refl
  run_bytes-none (m ∷ ms) run k h l =
      rw
        (
          only_at-ne m.0 (piece_bytes m) k (λ e. absurd (omega (arith, h.0))),
          run_bytes-none ms run k h.1 l,
        )
        refl

  -- The sort_members is stable: a run keeps its order.
  run_bytes-insert_member :
      (m : Member) (ns : List Member) (k : ℕ)
      → All (Follows m.0 m.1.offset) ns
      → run_bytes (insert_member m ns) k ≡ only_at m.0 (piece_bytes m) k ++ run_bytes ns k
  unfolding insert_member
  run_bytes-insert_member m [] k h = refl
  run_bytes-insert_member m (n ∷ ns) k h =
      if-cases (λ ms. run_bytes ms k ≡ only_at m.0 (piece_bytes m) k ++ run_bytes (n ∷ ns) k)
        (leb m.1.offset n.1.offset) (λ _. refl)
        (λ e.
          ap (◌++◌ (only_at n.0 (piece_bytes n) k)) (run_bytes-insert_member m ns k h.1)
          ∙ only_at-swap n.0 m.0 (piece_bytes n) (piece_bytes m) (run_bytes ns k) k
              (λ same. absurd (later m n h.0 (leb→gt m.1.offset n.1.offset e) same)))
    where
      later : (m n : Member) → Follows m.0 m.1.offset n → n.1.offset < m.1.offset → n.0 ≢ m.0
      later m n h l same = omega (arith, h.1 same)

  run_bytes-sort_members :
      (ms : List Member) (k : ℕ) → Grouped ms → run_bytes (sort_members ms) k ≡ run_bytes ms k
  unfolding sort_members
  run_bytes-sort_members [] k h = refl
  run_bytes-sort_members (m ∷ ms) k h =
      run_bytes-insert_member m (sort_members ms) k
        (All-sort_members (Follows m.0 m.1.offset) ms h.0)
      ∙ ap (◌++◌ (only_at m.0 (piece_bytes m) k)) (run_bytes-sort_members ms k h.1)

  -- The pieces of a response are its runs, one behind the other.
  pieces-joined_runs :
      (run previous_end : ℕ) (ps : List ByteRange) (n : ℕ)
      → All (RunBelow n) (tag_from run previous_end ps)
      → Grouped (tag_from run previous_end ps)
      → parts file ps ≡ joined_runs (run_bytes (tag_from run previous_end ps)) n
  unfolding tag_from
  pieces-joined_runs run previous_end [] n h g = sym (joined_runs-nil (λ k. []) n λ k. refl)
  pieces-joined_runs run previous_end (p ∷ ps) n h g =
      let r : ℕ = run_at run previous_end p in
      let rest : List Member = tag_from r (piece_end p) ps in
      ap (◌++◌ (slice file p.offset (piece_end p)))
        (pieces-joined_runs r (piece_end p) ps n h.1 g.1)
      ∙ sym (
          joined_runs-front (run_bytes rest) (slice file p.offset (piece_end p)) r n h.0
            (λ k l. run_bytes-none rest r k (All-map (λ m f. f.0) rest g.0) l))

  run_bytes-above :
      (ms : List Member) (bound k : ℕ) → All (RunBelow bound) ms → bound ≤ k → run_bytes ms k ≡ []
  run_bytes-above [] bound k h l = refl
  run_bytes-above (m ∷ ms) bound k h l =
      rw
        (
          only_at-ne m.0 (piece_bytes m) k (λ e. absurd (omega (arith, h.0))),
          run_bytes-above ms bound k h.1 l,
        )
        refl

  -- The bytes of the runs behind the first.
  abbrev pub later_runs : List ByteRange → Bytes
  later_runs ps = joined_runs (λ k. run_bytes (tag_from 0 0 ps) (suc k)) (length ps)

  tags_below : (ps : List ByteRange) → All (RunBelow (suc (length ps))) (tag_from 0 0 ps)
  tags_below ps = tag_from-RunBelow 0 0 (suc (length ps)) ps (omega arith)

  run_bytes-sorted :
      (ps : List ByteRange) (k : ℕ)
      → run_bytes (sort_members (tag_from 0 0 ps)) k ≡ run_bytes (tag_from 0 0 ps) k
  run_bytes-sorted ps k = run_bytes-sort_members (tag_from 0 0 ps) k (tag_from-Grouped 0 0 ps)

  -- The first run, and behind it the others, are the response.
  pub first-later_runs :
      (ps : List ByteRange)
      → run_bytes (sort_members (tag_from 0 0 ps)) 0 ++ later_runs ps ≡ parts file ps
  first-later_runs ps =
      ap (λ x. x ++ later_runs ps) (run_bytes-sorted ps 0)
      ∙ sym (pieces-joined_runs 0 0 ps (suc (length ps)) (tags_below ps) (tag_from-Grouped 0 0 ps))

  pub held-later_runs :
      (ps : List ByteRange) (held : List Bytes)
      → ((k : ℕ) → get_or held k [] ≡ run_bytes (sort_members (tag_from 0 0 ps)) (suc k))
      → joined_bytes held ≡ later_runs ps
  held-later_runs ps held h =
      let later : ℕ → Bytes = λ k. run_bytes (tag_from 0 0 ps) (suc k) in
      let same : (k : ℕ) → get_or held k [] ≡ later k = λ k. h k ∙ run_bytes-sorted ps (suc k) in
      let swap : length held + length ps ≡ length ps + length held = omega arith in
      joined_bytes-runs held
      ∙ joined_runs-ext (λ k. get_or held k []) later (length held) same
      ∙ sym (
          joined_runs-plus later (length held) (length ps)
            λ k l. sym (same k) ∙ get_or-beyond held k l)
      ∙ ap (joined_runs later) swap
      ∙ joined_runs-plus later (length ps) (length held) λ k l.
        run_bytes-above (tag_from 0 0 ps) (suc (length ps)) (suc k) (tags_below ps) (omega arith)
