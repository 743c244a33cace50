-- ===== src/Http/Stream/Delivery.antt =====
-- What a step of the task of src/http/stream.rs sends to the client.
use segmentor.Common.{
  ℕ, ◌+◌, ◌≤◌, ◌≡◌, ◌≢◌, refl, sym, ap, ◌∙◌, true, false, Option, none, some, List, [], ◌∷◌, ◌++◌,
  append_assoc, append-nil, length, slice, String, ◌||◌, if-cases, or-false,
}
use mathlib.Core.Path.{subst}
use segmentor.Common.Bytes.{Bytes}
use segmentor.Fmp4.Fragment.{ByteRange}
use segmentor.Http.Stream.{
  Item, chunk, failure, Event, read_range, sent, Outside, StreamState, StreamAbort, Outcome, done,
  aborted, stuck, Task, continue, sent_if, errored, send, fail, read, answered, after,
}

-- The bytes that the client took.
abbrev pub body : List Event → Bytes
body [] = []
body (read_range r ∷ history) = body history
body (sent (failure message) ∷ history) = body history
body (sent (chunk bytes) ∷ history) = body history ++ bytes

-- A source that holds `file`: what it returns for a range is that part of the file.
abbrev pub IsSource : Outside → Bytes → Type 0
IsSource outside file =
    (history : List Event) (r : ByteRange) (bytes : Bytes)
    → outside.read history r ≡ some bytes
    → bytes ≡ slice file r.offset (r.offset + r.length)

-- A client that takes everything, a queue with free slots and a source that answers what lies
-- inside the file.
pub record IsWilling (outside : Outside) (file : Bytes) : Type 0 where
  pub accepts : (history : List Event) (item : Item) → outside.accept history item ≡ none
  pub permits : (history : List Event) → outside.permit history ≡ true
  pub answers :
      (history : List Event) (r : ByteRange)
      → r.offset + r.length ≤ length file
      → outside.read history r ≢ none

module _ (outside : Outside) (file : Bytes) where
  -- The task sends `more`, and returns a value that meets `P`; or it is aborted behind a part of
  -- `more`, which needs an outside that is not willing. It is never stuck.
  abbrev pub Delivers {ℓ} : {A : Type ℓ} → (A → Type 0) → StreamState → Bytes → Outcome A → Type 0
  Delivers P s more (done a t) = P a × (body t.history ≡ body s.history ++ more)
  Delivers P s more (aborted reason t) =
      ((rest : Bytes) × (body t.history ++ rest ≡ body s.history ++ more))
      × ¬ (IsWilling outside file)
  Delivers P s more stuck = ⊥

  pub Delivers-rebase {ℓ} :
      {A : Type ℓ} (P : A → Type 0) (s t : StreamState) (m n : Bytes) (o : Outcome A)
      → body t.history ≡ body s.history ++ m
      → Delivers P t n o
      → Delivers P s (m ++ n) o
  Delivers-rebase P s t m n (done a u) e h =
      (h.0, h.1 ∙ ap (λ x. x ++ n) e ∙ append_assoc (body s.history) m n)
  Delivers-rebase P s t m n (aborted reason u) e h =
      ((h.0.0, h.0.1 ∙ ap (λ x. x ++ n) e ∙ append_assoc (body s.history) m n), h.1)
  Delivers-rebase P s t m n stuck e h = h

  pub continue-Delivers {ℓ κ} :
      {A : Type ℓ} {B : Type κ} (P : A → Type 0) (Q : B → Type 0) (s : StreamState) (m n : Bytes)
      (o : Outcome A) (rest : A → Task B)
      → Delivers P s m o
      → ((a : A) (t : StreamState) → P a → Delivers Q t n (rest a t))
      → Delivers Q s (m ++ n) (continue o rest)
  continue-Delivers P Q s m n (done a t) rest h k =
      Delivers-rebase Q s t m n (rest a t) h.1 (k a t h.0)
  continue-Delivers P Q s m n (aborted reason t) rest h k = (
    (
      h.0.0 ++ n,
      sym (append_assoc (body t.history) h.0.0 n)
          ∙ ap (λ x. x ++ n) h.0.1
          ∙ append_assoc (body s.history) m n,
    ),
    h.1,
  )
  continue-Delivers P Q s m n stuck rest h k = absurd h

  -- Two steps that send the two parts of `more`.
  pub >>=-Delivers {ℓ κ} :
      {A : Type ℓ} {B : Type κ} (P : A → Type 0) (Q : B → Type 0) (s : StreamState) (m n : Bytes)
      {more : Bytes} (o : Outcome A) (rest : A → Task B)
      → m ++ n ≡ more
      → Delivers P s m o
      → ((a : A) (t : StreamState) → P a → Delivers Q t n (rest a t))
      → Delivers Q s more (continue o rest)
  >>=-Delivers P Q s m n o rest e h k =
      subst (λ x. Delivers Q s x (continue o rest)) e (continue-Delivers P Q s m n o rest h k)

  pub Delivers-map {ℓ} :
      {A : Type ℓ} (P Q : A → Type 0) (s : StreamState) (m : Bytes) (o : Outcome A)
      → ((a : A) → P a → Q a)
      → Delivers P s m o
      → Delivers Q s m o
  Delivers-map P Q s m (done a t) f h = (f a h.0, h.1)
  Delivers-map P Q s m (aborted reason t) f h = h
  Delivers-map P Q s m stuck f h = h

  -- A step that sends nothing.
  pub done-Delivers {ℓ} :
      {A : Type ℓ} (P : A → Type 0) (a : A) (s : StreamState) {more : Bytes}
      → more ≡ []
      → P a
      → Delivers P s more (done a s)
  done-Delivers P a s e h =
      (h, sym (append-nil (body s.history)) ∙ ap (◌++◌ (body s.history)) (sym e))

  sent_if-Delivers :
      (o : Option StreamAbort) (bytes : Bytes) (s : StreamState)
      → (IsWilling outside file → o ≡ none)
      → Delivers (λ _. Unit {0}) s bytes (sent_if o (chunk bytes) s)
  sent_if-Delivers none bytes s h = (tt, refl)
  sent_if-Delivers (some reason) bytes s h = ((bytes, refl), λ w. cc (h w))

  pub send-Delivers :
      (bytes : Bytes) (s : StreamState)
      → Delivers (λ _. Unit {0}) s bytes (send outside (chunk bytes) s)
  unfolding send
  send-Delivers bytes s =
      sent_if-Delivers (outside.accept s.history (chunk bytes)) bytes s
        λ w. w.accepts s.history (chunk bytes)

  errored-Delivers {ℓ} :
      {A : Type ℓ} (P : A → Type 0) (o : Option StreamAbort) (message : String) (s : StreamState)
      (m : Bytes)
      → ¬ (IsWilling outside file)
      → Delivers P s m (errored (sent_if o (failure message) s))
  errored-Delivers P none message s m h = ((m, refl), h)
  errored-Delivers P (some reason) message s m h = ((m, refl), h)

  pub fail-Delivers {ℓ} :
      {A : Type ℓ} (P : A → Type 0) (message : String) (s : StreamState) (m : Bytes)
      → ¬ (IsWilling outside file)
      → Delivers P s m (fail outside message s)
  unfolding send fail
  fail-Delivers P message s m h =
      errored-Delivers P (outside.accept s.history (failure message)) message s m h

  abbrev pub IsPart : ℕ → ℕ → Bytes → Type 0
  IsPart offset size bytes = bytes ≡ slice file offset (offset + size)

  answered-Delivers :
      (r : ByteRange) (o : Option Bytes) (s : StreamState)
      → (IsWilling outside file → o ≢ none)
      → ((bytes : Bytes) → o ≡ some bytes → IsPart r.offset r.length bytes)
      → Delivers (IsPart r.offset r.length) s [] (answered outside r o s)
  answered-Delivers r none s h k =
      fail-Delivers (IsPart r.offset r.length) "source read failed" s [] λ w. h w refl
  answered-Delivers r (some bytes) s h k = (k bytes refl, sym (append-nil (body s.history)))

  pub read-Delivers :
      IsSource outside file
      → (offset size : ℕ) (s : StreamState) → offset + size ≤ length file
      → Delivers (IsPart offset size) s [] (read outside offset size s)
  unfolding read
  read-Delivers is_source offset size s h =
      let r : ByteRange = record { offset = offset; length = size } in
      if-cases (Delivers (IsPart offset size) s []) (s.first_permit || outside.permit s.history)
        (λ _.
          answered-Delivers r (outside.read s.history r)
            (after (read_range r) (record s { first_permit = false }))
            (λ w. w.answers s.history r h) (λ bytes e. is_source s.history r bytes e))
        (λ e.
          fail-Delivers (IsPart offset size) "segment read queue timed out" s []
            λ w. cc ((or-false s.first_permit (outside.permit s.history) e).1, w.permits s.history))
