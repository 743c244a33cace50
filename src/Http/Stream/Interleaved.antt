-- ===== src/Http/Stream/Interleaved.antt =====
-- What the reads planned by `interleaved_windows` make the task of src/http/stream.rs send.
use segmentor.Common.{
  ℕ, zero, suc, ◌+◌, ◌-◌, ◌≤◌, ◌<◌, ◌≡◌, refl, sym, ap, ◌∙◌, max, Option, none, some, List, [], ◌∷◌,
  ◌++◌, append_assoc, append-nil, length, slice, get_or, arith, lt→ltb, All,
}
use mathlib.Core.Path.{subst}
use segmentor.Common.Bytes.{Bytes}
use segmentor.Error.{u64_mod, saturating_add}
use segmentor.Http.Coalesce.Order.{InSpan}
use segmentor.Http.Windows.{Member, Window}
use segmentor.Http.Windows.Order.{members_of, IsWindow}
use segmentor.Http.Stream.{
  Outside, StreamState, Task, continue, read, get_slice, Routed, route, route_members, or_too_short,
  send_ready, serve_windows, stream_interleaved, send_held,
}
use segmentor.Http.Stream.Delivery.{
  IsSource, Delivers, >>=-Delivers, done-Delivers, send-Delivers, Delivers-map, read-Delivers,
  IsPart,
}
use segmentor.Http.Stream.Parts.{AnyUnit, joined_bytes, send_held-Delivers}
use segmentor.Http.Stream.Reads.{get_slice-slice}
use segmentor.Http.Stream.Runs.{run_bytes, run_bytes-append, only_at, get_or-hold, piece_bytes}

module _ (file : Bytes) where
  -- What holds of the held bytes, run by run, behind the pieces `ms`.
  abbrev pub Holds : List Bytes → List Member → List Bytes → Type 0
  Holds before ms held =
      (k : ℕ) → get_or held k [] ≡ get_or before k [] ++ run_bytes file ms (suc k)

  record IsRouted (start : ℕ) (bytes : Bytes) (ms : List Member) (before : Routed) : Type 0 where
    pub routed : Routed
    pub routed_is : route_members start bytes ms before ≡ some routed
    pub ready_is : routed.ready ≡ before.ready ++ run_bytes file ms 0
    pub held_is : Holds before.held ms routed.held

  route-ready :
      (run : ℕ) (bytes : Bytes) (r : Routed)
      → (route run bytes r).ready ≡ r.ready ++ only_at run bytes 0
  unfolding route
  route-ready zero bytes r = refl
  route-ready (suc run) bytes r = sym (append-nil r.ready)

  route-held :
      (run : ℕ) (bytes : Bytes) (r : Routed) (k : ℕ)
      → get_or (route run bytes r).held k [] ≡ get_or r.held k [] ++ only_at run bytes (suc k)
  unfolding route
  route-held zero bytes r k = sym (append-nil (get_or r.held k []))
  route-held (suc run) bytes r k = get_or-hold run bytes r.held k

  route_members-IsRouted :
      (start end : ℕ) (ms : List Member) (before : Routed)
      → end ≤ length file
      → length file < u64_mod
      → All (λ m. InSpan start end m.1) ms
      → IsRouted start (slice file start end) ms before
  unfolding route_members
  route_members-IsRouted start end [] before h k l = record {
    routed = before;
    routed_is = refl;
    ready_is = sym (append-nil before.ready);
    held_is = λ i. sym (append-nil (get_or before.held i []));
  }
  route_members-IsRouted start end (m ∷ ms) before h k l =
      let after : Routed = route m.0 (piece_bytes file m) before in
      let rest = route_members-IsRouted start end ms after h k l.1 in
      record {
        routed = rest.routed;
        routed_is =
            routed_step
              (get_slice (slice file start end) (m.1.offset - start)
                (saturating_add (m.1.offset - start) m.1.length))
              (λ piece. route_members start (slice file start end) ms (route m.0 piece before))
              (get_slice-slice file start end m.1 (saturating_add (m.1.offset - start) m.1.length)
                l.0 h (exact m l.0))
            ∙ rest.routed_is;
        ready_is =
            rest.ready_is
            ∙ ap (λ x. x ++ run_bytes file ms 0) (route-ready m.0 (piece_bytes file m) before)
            ∙ append_assoc before.ready (only_at m.0 (piece_bytes file m) 0) (run_bytes file ms 0);
        held_is = λ i.
            rest.held_is i
            ∙ ap (λ x. x ++ run_bytes file ms (suc i))
                (route-held m.0 (piece_bytes file m) before i)
            ∙ append_assoc (get_or before.held i []) (only_at m.0 (piece_bytes file m) (suc i))
                (run_bytes file ms (suc i));
      }
    where
      exact :
          (m : Member)
          → InSpan start end m.1
          → saturating_add (m.1.offset - start) m.1.length ≡ m.1.offset - start + m.1.length
      exact m i =
          rw (lt→ltb (m.1.offset - start + m.1.length) u64_mod (omega (arith, i.0, i.1, h, k))) refl

      routed_step :
          (o : Option Bytes) (f : Bytes → Option Routed) {bytes : Bytes}
          → o ≡ some bytes
          → elim o [ none ↦ none | some piece ↦ f piece ] ≡ f bytes
      routed_step o f e = rw e refl

module _ (outside : Outside) (file : Bytes) where
  send_ready-Delivers :
      (bytes : Bytes) (s : StreamState)
      → Delivers outside file AnyUnit s bytes (send_ready outside bytes s)
  send_ready-Delivers [] s = done-Delivers outside file AnyUnit tt s refl tt
  send_ready-Delivers (b ∷ bs) s = send-Delivers outside file (b ∷ bs) s

  serve_windows-Delivers :
      IsSource outside file
      → (ws : List Window) (before : List Bytes) (s : StreamState) → length file < u64_mod
      → All (IsWindow (length file)) ws
      → Delivers outside file
          (Holds file before (members_of ws))
          s
          (run_bytes file (members_of ws) 0)
          (serve_windows outside ws before s)
  unfolding serve_windows
  serve_windows-Delivers is_source [] before s h k =
      done-Delivers outside file (Holds file before []) before s refl
        (λ i. sym (append-nil (get_or before i [])))
  serve_windows-Delivers is_source (w ∷ ws) before s h k =
      let size : ℕ = w.end - w.start in
      let span_is : w.start + size ≡ w.end = omega (arith, k.0.0) in
      >>=-Delivers outside file (IsPart outside file w.start size)
        (Holds file before (members_of (w ∷ ws))) s [] (run_bytes file (members_of (w ∷ ws)) 0)
        (read outside w.start size s) (λ bytes. after_read w ws before bytes) refl
        (read-Delivers outside file is_source w.start size s (omega (arith, k.0.0, k.0.1)))
        (λ bytes t e.
          after_read-Delivers w ws before bytes t
            (route_members-IsRouted file w.start w.end w.members
              (record { ready = []; held = before }) k.0.1 h k.0.2)
            (e ∙ ap (slice file w.start) span_is)
            (λ held u. serve_windows-Delivers is_source ws held u h k.1))
    where
      -- What follows the read of a window.
      after_read : Window → List Window → List Bytes → Bytes → Task (List Bytes)
      after_read w ws before bytes t =
          continue
            (or_too_short outside
              (route_members w.start bytes w.members (record { ready = []; held = before })) t)
            λ routed u.
              continue (send_ready outside routed.ready u) λ _. serve_windows outside ws routed.held

      after_read-Delivers :
          (w : Window) (ws : List Window) (before : List Bytes) (bytes : Bytes) (t : StreamState)
          → (r : IsRouted file w.start
              (slice file w.start w.end)
              w.members
              (record { ready = []; held = before }))
          → bytes ≡ slice file w.start w.end
          → ((held : List Bytes) (u : StreamState)
              → Delivers outside file
                  (Holds file held (members_of ws))
                  u
                  (run_bytes file (members_of ws) 0)
                  (serve_windows outside ws held u))
          → Delivers outside file
              (Holds file before (members_of (w ∷ ws)))
              t
              (run_bytes file (members_of (w ∷ ws)) 0)
              (after_read w ws before bytes t)
      after_read-Delivers w ws before bytes t r e rest =
          rw (e, r.routed_is, run_bytes-append file w.members (members_of ws) 0)
            (>>=-Delivers outside file AnyUnit (Holds file before (members_of (w ∷ ws))) t
              (run_bytes file w.members 0) (run_bytes file (members_of ws) 0)
              (send_ready outside r.routed.ready t) (λ _. serve_windows outside ws r.routed.held)
              refl (rw r.ready_is (send_ready-Delivers (run_bytes file w.members 0) t))
              (λ _ u _.
                Delivers-map outside file (Holds file r.routed.held (members_of ws))
                  (Holds file before (members_of (w ∷ ws))) u (run_bytes file (members_of ws) 0)
                  (serve_windows outside ws r.routed.held u)
                  (λ held f i.
                    f i
                    ∙ ap (λ x. x ++ run_bytes file (members_of ws) (suc i)) (r.held_is i)
                    ∙ append_assoc (get_or before i []) (run_bytes file w.members (suc i))
                        (run_bytes file (members_of ws) (suc i))
                    ∙ ap (◌++◌ (get_or before i []))
                        (sym (run_bytes-append file w.members (members_of ws) (suc i))))
                  (rest r.routed.held u)))

  -- The first run's bytes as they come, and then what was held.
  pub stream_interleaved-Delivers :
      IsSource outside file
      → (size : ℕ) (ws : List Window) (later : Bytes) (s : StreamState) → length file < u64_mod
      → All (IsWindow (length file)) ws
      → ((held : List Bytes) → Holds file [] (members_of ws) held → joined_bytes held ≡ later)
      → Delivers outside file AnyUnit s
          (run_bytes file (members_of ws) 0 ++ later)
          (stream_interleaved outside size ws s)
  unfolding stream_interleaved
  stream_interleaved-Delivers is_source size ws later s h k whole =
      >>=-Delivers outside file (Holds file [] (members_of ws)) AnyUnit s
        (run_bytes file (members_of ws) 0) later (serve_windows outside ws [] s)
        (send_held outside (max size 1)) refl (serve_windows-Delivers is_source ws [] s h k)
        (λ held t f.
          subst (λ x. Delivers outside file AnyUnit t x (send_held outside (max size 1) held t))
            (whole held f) (send_held-Delivers outside file (max size 1) held t (omega arith)))
