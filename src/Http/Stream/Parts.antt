-- ===== src/Http/Stream/Parts.antt =====
-- What the loops of the task of src/http/stream.rs send: a part of the header, a part of the
-- source in chunks, and bytes that were held.
use segmentor.Common.{
  ℕ, zero, suc, ◌+◌, ◌-◌, ◌≤◌, ◌<◌, ◌≡◌, refl, ap, ◌∙◌, min, true, List, [], ◌∷◌, ◌++◌, length,
  slice, take, drop, take-append-drop, length-drop, arith, ltb, if-cases, bool-holds, ltb→lt,
  ltb→ge,
}
use segmentor.Common.Slices.{slice-append, slice-empty}
use segmentor.Common.Bytes.{Bytes}
use segmentor.Error.{u64_mod, saturating_add}
use segmentor.Http.Stream.{
  Outside, StreamState, chunk, Task, continue, send, read, send_header, send_split, send_chunks,
  send_held,
}
use segmentor.Http.Stream.Delivery.{
  IsSource, Delivers, >>=-Delivers, done-Delivers, send-Delivers, read-Delivers, IsPart,
}

abbrev pub AnyUnit : Unit {0} → Type 0
AnyUnit _ = Unit {0}

abbrev pub joined_bytes : List Bytes → Bytes
joined_bytes [] = []
joined_bytes (bytes ∷ held) = bytes ++ joined_bytes held

next_piece :
    (at end size : ℕ)
    → at < end
    → 0 < size
    → end < u64_mod
    → (at < min end (saturating_add at size)) × (min end (saturating_add at size) ≤ end)
next_piece at end size h k l = ground arith

module _ (outside : Outside) (file : Bytes) where
  pub send_header-Delivers :
      (fuel size : ℕ) (header : Bytes) (at end : ℕ) (s : StreamState)
      → 0 < size
      → end < u64_mod
      → end - at ≤ fuel
      → Delivers outside file AnyUnit s
          (slice header at end)
          (send_header outside fuel size header at end s)
  unfolding send_header
  send_header-Delivers zero size header at end s h k l =
      let e : slice header at end ≡ [] = slice-empty header at end (omega arith) in
      if-cases
        (λ (task : Task (Unit {0})). Delivers outside file AnyUnit s (slice header at end) (task s))
        (ltb at end) (λ f. absurd (ltb_false at end l f))
        (λ _. done-Delivers outside file AnyUnit tt s e tt)
    where
      ltb_false : (at end : ℕ) → end - at ≤ 0 → ltb at end ≡ true → ⊥
      ltb_false at end l f = ground arith
  send_header-Delivers (suc fuel) size header at end s h k l =
      bool-holds
        (λ (task : Task (Unit {0})). Delivers outside file AnyUnit s (slice header at end) (task s))
        (ltb at end)
        (λ f.
          let next : ℕ = min end (saturating_add at size) in
          let g = next_piece at end size (ltb→lt at end f) h k in
          >>=-Delivers outside file AnyUnit AnyUnit s (slice header at next) (slice header next end)
            (send outside (chunk (slice header at next)) s)
            (λ _. send_header outside fuel size header next end)
            (slice-append header at next end (omega (arith, g.0)) g.1)
            (send-Delivers outside file (slice header at next) s)
            (λ _ t _. send_header-Delivers fuel size header next end t h k (omega (arith, g.0))))
        (λ f.
          done-Delivers outside file AnyUnit tt s (slice-empty header at end (ltb→ge at end f)) tt)

  whole_split :
      (bytes : Bytes) (offset now later size : ℕ)
      → IsPart outside file offset now bytes
      → now + later ≡ size
      → bytes ++ slice file (offset + now) (offset + now + later)
        ≡ slice file offset (offset + size)
  whole_split bytes offset now later size e h =
      let f : offset + now + later ≡ offset + size = omega arith in
      ap (λ x. x ++ slice file (offset + now) (offset + now + later)) e
      ∙ slice-append file offset (offset + now) (offset + now + later) (omega arith) (omega arith)
      ∙ ap (slice file offset) f

  pub send_split-Delivers :
      IsSource outside file
      → (fuel size offset remaining : ℕ) (s : StreamState) → 0 < size
      → offset + remaining ≤ length file
      → remaining ≤ fuel
      → Delivers outside file AnyUnit s
          (slice file offset (offset + remaining))
          (send_split outside fuel size offset remaining s)
  unfolding send_split
  send_split-Delivers is_source fuel size offset zero s h k l =
      done-Delivers outside file AnyUnit tt s (slice-empty file offset (offset + 0) (omega arith))
        tt
  send_split-Delivers is_source zero size offset (suc remaining) s h k l = absurd (omega arith)
  send_split-Delivers is_source (suc fuel) size offset (suc remaining) s h k l =
      let now : ℕ = min (suc remaining) size in
      let later : ℕ = suc remaining - now in
      >>=-Delivers outside file (IsPart outside file offset now) AnyUnit s []
        (slice file offset (offset + suc remaining)) (read outside offset now s)
        (λ bytes. λ t.
          continue (send outside (chunk bytes) t)
            (λ _. send_split outside fuel size (offset + now) later))
        refl (read-Delivers outside file is_source offset now s (omega arith))
        (λ bytes t e.
          >>=-Delivers outside file AnyUnit AnyUnit t bytes
            (slice file (offset + now) (offset + now + later)) (send outside (chunk bytes) t)
            (λ _. send_split outside fuel size (offset + now) later)
            (whole_split bytes offset now later (suc remaining) e (omega arith))
            (send-Delivers outside file bytes t)
            (λ _ u _.
              send_split-Delivers is_source fuel size (offset + now) later u h (omega arith)
                (omega arith)))

  pub send_chunks-Delivers :
      (fuel size : ℕ) (bytes : Bytes) (s : StreamState)
      → 0 < size
      → length bytes ≤ fuel
      → Delivers outside file AnyUnit s bytes (send_chunks outside fuel size bytes s)
  unfolding send_chunks
  send_chunks-Delivers fuel size [] s h k = done-Delivers outside file AnyUnit tt s refl tt
  send_chunks-Delivers zero size (b ∷ bs) s h k = absurd (omega arith)
  send_chunks-Delivers (suc fuel) size (b ∷ bs) s h k =
      >>=-Delivers outside file AnyUnit AnyUnit s (take size (b ∷ bs)) (drop size (b ∷ bs))
        (send outside (chunk (take size (b ∷ bs))) s)
        (λ _. send_chunks outside fuel size (drop size (b ∷ bs))) (take-append-drop size (b ∷ bs))
        (send-Delivers outside file (take size (b ∷ bs)) s)
        (λ _ t _.
          send_chunks-Delivers fuel size (drop size (b ∷ bs)) t h
            (omega (arith, length-drop size (b ∷ bs))))

  pub send_held-Delivers :
      (size : ℕ) (held : List Bytes) (s : StreamState)
      → 0 < size
      → Delivers outside file AnyUnit s (joined_bytes held) (send_held outside size held s)
  unfolding send_held
  send_held-Delivers size [] s h = done-Delivers outside file AnyUnit tt s refl tt
  send_held-Delivers size (bytes ∷ held) s h =
      >>=-Delivers outside file AnyUnit AnyUnit s bytes (joined_bytes held)
        (send_chunks outside (length bytes) size bytes s) (λ _. send_held outside size held) refl
        (send_chunks-Delivers (length bytes) size bytes s h (omega arith))
        (λ _ t _. send_held-Delivers size held t h)
