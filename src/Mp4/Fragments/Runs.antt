-- ===== src/Mp4/Fragments/Runs.antt =====
-- What one `trun` of src/mp4/fragments.rs does to the samples found so far.
use segmentor.Common.{
  ℕ, zero, suc, ◌+◌, ◌*◌, ◌≤◌, ◌≡◌, refl, ◌∙◌, Bool, true, false, List, [], ◌∷◌, ◌++◌, arith, ltb,
  leb, not, ◌&&◌, if◌then◌else◌, length, All, All-append,
}
use segmentor.Common.Bytes.{Bytes}
use segmentor.Error.{
  ok, ◌>>=◌, guard, ok_or, checked_add, checked_mul, saturating_add, u64_mod, invalid_media,
  Ensures, ensures-ok, ensures-if, ensures-bind, ensures-mono, ok_or-eq-ok, guard-eq-ok,
}
use segmentor.Media.Sample.{Sample}
use segmentor.Mp4.Boxes.Reader.{Reader, new, remaining, read_u32, read_i32, full_box_flags}
use segmentor.Mp4.Fragments.Trun.{
  Run, State, RunFields, RunEntry, add_sample, read_entry, read_entries, read_run, read_if,
  has_flag, data_start, entry_size, or_default, fields_of,
}

-- Each sample decodes where the one before it ends or later, the first at `lo` or later, and the
-- last one ends at `hi` or before.
abbrev pub Chained : ℕ → ℕ → List Sample → Type 0
Chained lo hi [] = lo ≤ hi
Chained lo hi (s ∷ ss) = (lo ≤ s.decode_time) × Chained (s.decode_time + s.duration) hi ss

abbrev pub InSource : ℕ → Sample → Type 0
InSource source_len s = s.offset + s.size ≤ source_len

Chained-append :
    (lo mid hi : ℕ) (ss : List Sample) (s : Sample)
    → Chained lo mid ss
    → mid ≤ s.decode_time
    → s.decode_time + s.duration ≤ hi
    → Chained lo hi (ss ++ (s ∷ []))
Chained-append lo mid hi [] s c h k = (omega arith, k)
Chained-append lo mid hi (x ∷ ss) s c h k =
    (c.0, Chained-append (x.decode_time + x.duration) mid hi ss s c.1 h k)

pub Chained-weaken :
    (lo mid hi : ℕ) (ss : List Sample) → mid ≤ hi → Chained lo mid ss → Chained lo hi ss
Chained-weaken lo mid hi [] h c = omega arith
Chained-weaken lo mid hi (x ∷ ss) h c =
    (c.0, Chained-weaken (x.decode_time + x.duration) mid hi ss h c.1)

-- Samples in decode order that end before `hi` and lie in the source.
pub record Kept (source_len hi : ℕ) (ss : List Sample) : Type 0 where
  pub chained : Chained 0 hi ss
  pub in_source : All (InSource source_len) ss

-- What a run does: one that is kept leaves the samples in order, another one leaves them alone.
pub record After (run : Run) (st st' : State) : Type 0 where
  pub extends :
      run.keep ≡ true
      → Kept run.source_len st.decode_time st.samples
      → Kept run.source_len st'.decode_time st'.samples
  pub leaves : run.keep ≡ false → st'.samples ≡ st.samples

pub After-refl :
    (run : Run) (samples : List Sample) (time from to : ℕ)
    → After run
        (record { samples = samples; decode_time = time; cursor = from })
        (record { samples = samples; decode_time = time; cursor = to })
After-refl run samples time from to = record { extends = λ k h. h; leaves = λ k. refl }

pub After-then : (run : Run) (a b c : State) → After run a b → After run b c → After run a c
After-then run a b c h k = record {
  extends = λ e p. k.extends e (h.extends e p);
  leaves = λ e. k.leaves e ∙ h.leaves e;
}

-- The samples with one more, when the run is kept.
chosen_lem :
    (keep : Bool) (source_len time end next : ℕ) (ss : List Sample) (s : Sample)
    → keep ≡ true
    → not (keep && ltb source_len end) ≡ true
    → s.offset + s.size ≡ end
    → s.decode_time ≡ time
    → next ≡ time + s.duration
    → Kept source_len time ss
    → Kept source_len next (if keep then ss ++ (s ∷ []) else ss)
chosen_lem false source_len time end next ss s k h e t n p = cc
chosen_lem true source_len time end next ss s k h e t n p = record {
  chained = Chained-append 0 time next ss s p.chained (omega (arith, t)) (omega (arith, n, t));
  in_source = All-append (InSource source_len) ss (s ∷ []) p.in_source (ground arith, tt);
}

left_lem : (keep : Bool) (ss more : List Sample) → keep ≡ false → (if keep then more else ss) ≡ ss
left_lem keep ss more k = ground arith

add_sample-After :
    (run : Run) (e : RunEntry) (st : State) → Ensures (add_sample run e st) (After run st)
unfolding add_sample
add_sample-After run e st =
    ensures-bind (ok_or (checked_add st.cursor e.size) (invalid_media "sample byte range overflow"))
      λ end e1.
        ensures-bind
          (guard (not (run.keep && ltb run.source_len end))
            (invalid_media "sample byte range exceeds source length"))
          λ _ e2.
            ensures-bind
              (ok_or (checked_add st.decode_time e.duration)
                (invalid_media "decode timestamp overflow"))
              λ next e3.
                let e4 = ok_or-eq-ok _ _ e1 in
                let end_is : st.cursor + e.size ≡ end = ground arith in
                let e5 = ok_or-eq-ok _ _ e3 in
                let next_is : next ≡ st.decode_time + e.duration = ground arith in
                ensures-ok (record {
                  extends = λ k p.
                      chosen_lem run.keep run.source_len st.decode_time end next st.samples _ k
                        (guard-eq-ok _ _ e2) end_is refl next_is p;
                  leaves = λ k. left_lem run.keep st.samples _ k;
                })

read_entries-After :
    (run : Run) (f : RunFields) (count : ℕ) (is_first : Bool) (r : Reader) (st : State)
    → Ensures (read_entries run f count is_first r st) (After run st)
unfolding read_entries
read_entries-After run f zero is_first r st =
    ensures-ok (After-refl run st.samples st.decode_time st.cursor st.cursor)
read_entries-After run f (suc count) is_first r st = ensures-bind (read_entry f is_first r) λ q _.
    ensures-bind (add_sample run q.0 st) λ st1 e1.
      ensures-mono (λ st2. After-then run st st1 st2 ((add_sample-After run q.0 st).holds st1 e1))
        (read_entries-After run f count false q.1 st1)

-- A run that is measured by a product leaves the samples.
skipped :
    (run : Run) (count size offset : ℕ) (st : State)
    → Ensures
        (ok_or (checked_mul count size) (invalid_media "trun data extent overflows") >>= λ total.
          ok_or (checked_add offset total) (invalid_media "trun data extent overflows") >>= λ end.
          ok (record { samples = st.samples; decode_time = st.decode_time; cursor = end }))
        (After run st)
skipped run count size offset st =
    ensures-bind (ok_or (checked_mul count size) (invalid_media "trun data extent overflows"))
      λ total _.
        ensures-bind (ok_or (checked_add offset total) (invalid_media "trun data extent overflows"))
          λ end _. ensures-ok (After-refl run st.samples st.decode_time st.cursor end)

-- A run that is read sample by sample, from `offset` on.
started :
    (run : Run) (f : RunFields) (count : ℕ) (r : Reader) (offset : ℕ) (st : State)
    → Ensures
        (read_entries run f count true r
          (record { samples = st.samples; decode_time = st.decode_time; cursor = offset }))
        (After run st)
started run f count r offset st =
    ensures-mono
      (λ st2.
        After-then run st
          (record { samples = st.samples; decode_time = st.decode_time; cursor = offset }) st2
          (After-refl run st.samples st.decode_time st.cursor offset))
      (read_entries-After run f count true r
        (record { samples = st.samples; decode_time = st.decode_time; cursor = offset }))

pub read_run-After :
    (run : Run) (payload : Bytes) (max : ℕ) (st : State)
    → Ensures (read_run run payload max st) (After run st)
unfolding read_run
read_run-After run payload max st = ensures-bind (full_box_flags (new payload)) λ h _.
    ensures-bind (read_u32 h.1) λ c _.
      ensures-bind (read_if (has_flag h.0.1 0x1) read_i32 c.1) λ d _.
        ensures-bind (data_start run st.cursor d.0) λ offset _.
          ensures-bind (read_if (has_flag h.0.1 0x4) read_u32 d.1) λ g _.
            ensures-bind
              (guard
                (ltb (c.0 * entry_size h.0.1) u64_mod
                  && leb (c.0 * entry_size h.0.1) (remaining g.1))
                (invalid_media "trun sample count exceeds its box"))
              λ _ _.
                ensures-bind
                  (guard (not (run.keep && ltb max (saturating_add (length st.samples) c.0)))
                    (invalid_media "sample count exceeds configured limit"))
                  λ _ _.
                    ensures-if (not run.keep && not (has_flag h.0.1 0x200))
                      (λ _.
                        skipped run c.0 (or_default run.header.default_size run.defaults.size)
                          offset st)
                      (λ _. started run (fields_of run h.0.0 h.0.1 g.0) c.0 g.1 offset st)
