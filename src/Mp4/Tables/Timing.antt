-- ===== src/Mp4/Tables/Timing.antt =====
-- The timing tables of src/mp4/tables.rs against the expansion of the runs that they replace.
use segmentor.Common.{
  ℕ, zero, suc, ◌+◌, ◌-◌, ◌*◌, ◌≤◌, ◌<◌, ◌≡◌, refl, Option, none, some, List, [], ◌∷◌, ltb, leb,
  ◌==◌, arith, get_elem?, if◌then◌else◌, ltb→lt, ltb→ge, lt→ltb, ge→ltb, le→leb, ==_iff, Bool-cases,
  inl, inr, ◌∙◌,
}
use segmentor.Error.{
  ok, guard, ok_or, checked_mul, checked_add, saturating_add, invalid_media, u64_mod, Ensures,
  ensures-ok, ensures-bind, ensures-mono, guard-eq-ok, ok_or-eq-ok,
}
use segmentor.Media.Sample.{partition_point}
use segmentor.Media.Tables as Table
use segmentor.Media.Tables.{Tables}
use segmentor.Mp4.Tables.{TimingRuns, timing_loop, timing_runs, as_u32, stts_mismatch}

-- Sample `i` of the run-length expansion of `runs`, the first decode time being `t`: its decode
-- time and its duration.
abbrev pub expanded : ℕ → List (ℕ × ℕ) → ℕ → Option (ℕ × ℕ)
expanded t [] i = none
expanded t ((n, delta) ∷ runs) i =
    if ltb i n then some (t + i * delta, delta) else expanded (t + n * delta) runs (i - n)

-- No run of `rs` starts with or before sample `i`.
abbrev None : ℕ → TimingRuns → Type 0
None i rs = partition_point (λ f. leb f i) rs.first ≡ 0

-- The run of `rs` that holds sample `i`, and what it says of the sample.
record Finds (rs : TimingRuns) (i time delta : ℕ) : Type 0 where
  run : ℕ
  first : ℕ
  start : ℕ
  run_is : partition_point (λ f. leb f i) rs.first ≡ suc run
  first_is : get_elem? rs.first run ≡ some first
  start_is : get_elem? rs.start run ≡ some start
  duration_is : get_elem? rs.duration run ≡ some delta
  behind : first ≤ i
  time_is : start + (i - first) * delta ≡ time
  fits : time < u64_mod

timing_loop-None :
    (count at t i : ℕ) (runs : List (ℕ × ℕ))
    → i < at
    → Ensures (timing_loop count at t runs) (None i)
unfolding timing_loop partition_point
timing_loop-None count at t i [] h =
    ensures-bind (guard (at == count) (invalid_media stts_mismatch)) λ _ _. ensures-ok refl
timing_loop-None count at t i ((zero, delta) ∷ runs) h =
    ensures-bind (guard (leb (saturating_add at 0) count) (invalid_media stts_mismatch))
      λ _ _. timing_loop-None count at t i runs h
timing_loop-None count at t i ((suc n, delta) ∷ runs) h =
    ensures-bind (guard (leb (saturating_add at (suc n)) count) (invalid_media stts_mismatch))
      λ _ _. ensures-bind (as_u32 at) λ first e1.
        ensures-bind (ok_or (checked_mul (suc n) delta) (invalid_media "decode timestamp overflow"))
          λ span _.
            ensures-bind (ok_or (checked_add t span) (invalid_media "decode timestamp overflow"))
              λ next _.
                ensures-bind (timing_loop count (at + suc n) next runs)
                  λ rest _. ensures-ok (ground (arith, h))

-- What the tables from sample `at` on say of sample `i` is what the expansion says.
abbrev Agrees : ℕ → ℕ → ℕ → List (ℕ × ℕ) → ℕ → TimingRuns → Type 0
Agrees count at t runs i rs =
    i < count
    → (time : ℕ) × (delta : ℕ) × (expanded t runs (i - at) ≡ some (time, delta))
      × Finds rs i time delta

in_run :
    (t n delta ahead next : ℕ)
    → t + suc n * delta ≡ next
    → next < u64_mod
    → ahead < suc n
    → t + ahead * delta < u64_mod
in_run t n delta ahead next e h k = grind arith

-- Sample `i` lies in the first run.
here :
    (count at t n delta next i : ℕ) (runs : List (ℕ × ℕ)) (rest : TimingRuns)
    → at ≤ i
    → i < at + suc n
    → t + suc n * delta ≡ next
    → next < u64_mod
    → None i rest
    → Agrees count at t ((suc n, delta) ∷ runs) i (record {
      first = at ∷ rest.first;
      start = t ∷ rest.start;
      duration = delta ∷ rest.duration;
    })
unfolding partition_point
here count at t n delta next i runs rest h k e b later lt = (
  t + (i - at) * delta,
  delta,
  rw (lt→ltb (i - at) (suc n) (omega arith)),
  record {
    run = 0;
    first = at;
    start = t;
    run_is = rw (le→leb at i h, later);
    first_is = refl;
    start_is = refl;
    duration_is = refl;
    behind = h;
    time_is = refl;
    fits = in_run t n delta (i - at) next e b (omega arith);
  },
)

-- Sample `i` lies behind the first run.
there :
    (count at t n delta next i : ℕ) (runs : List (ℕ × ℕ)) (rest : TimingRuns)
    → at + suc n ≤ i
    → t + suc n * delta ≡ next
    → Agrees count (at + suc n) next runs i rest
    → Agrees count at t ((suc n, delta) ∷ runs) i (record {
      first = at ∷ rest.first;
      start = t ∷ rest.start;
      duration = delta ∷ rest.duration;
    })
unfolding partition_point
there count at t n delta next i runs rest h e agrees lt =
    let (time, d, expansion, found) = agrees lt in
    let back : i - at - suc n ≡ i - (at + suc n) = omega arith in
    (
      time,
      d,
      rw (ge→ltb (i - at) (suc n) (omega arith), back, e) expansion,
      record {
        run = suc found.run;
        first = found.first;
        start = found.start;
        run_is = rw (le→leb at i (omega arith), found.run_is);
        first_is = found.first_is;
        start_is = found.start_is;
        duration_is = found.duration_is;
        behind = found.behind;
        time_is = found.time_is;
        fits = found.fits;
      },
    )

first_or_later :
    (count at t n delta next i : ℕ) (runs : List (ℕ × ℕ)) (rest : TimingRuns)
    → at ≤ i
    → t + suc n * delta ≡ next
    → next < u64_mod
    → (i < at + suc n → None i rest)
    → (at + suc n ≤ i → Agrees count (at + suc n) next runs i rest)
    → Agrees count at t ((suc n, delta) ∷ runs) i (record {
      first = at ∷ rest.first;
      start = t ∷ rest.start;
      duration = delta ∷ rest.duration;
    })
first_or_later count at t n delta next i runs rest h e b early late =
    elim (Bool-cases (ltb i (at + suc n))) [
      | inl lt ↦
          let lt' = ltb→lt i (at + suc n) lt in
          here count at t n delta next i runs rest h lt' e b (early lt')
      | inr ge ↦
          let ge' = ltb→ge i (at + suc n) ge in
          there count at t n delta next i runs rest ge' e (late ge')
    ]

skip_empty :
    (t delta k : ℕ) (runs : List (ℕ × ℕ)) → expanded t ((0, delta) ∷ runs) k ≡ expanded t runs k
skip_empty t delta k runs =
    let e : t + 0 * delta ≡ t = omega arith in
    let e' : k - 0 ≡ k = omega arith in rw (ge→ltb k 0 (omega arith), e, e')

timing_loop-Agrees :
    (count at t i : ℕ) (runs : List (ℕ × ℕ))
    → at ≤ i
    → Ensures (timing_loop count at t runs) (Agrees count at t runs i)
unfolding timing_loop
timing_loop-Agrees count at t i [] h =
    ensures-bind (guard (at == count) (invalid_media stts_mismatch))
      λ _ e. ensures-ok (λ lt. absurd (omega (arith, (==_iff at count).0 (guard-eq-ok _ _ e))))
timing_loop-Agrees count at t i ((zero, delta) ∷ runs) h =
    ensures-bind (guard (leb (saturating_add at 0) count) (invalid_media stts_mismatch)) λ _ _.
      ensures-mono
        (λ rs agrees lt.
          let (time, d, expansion, found) = agrees lt in
          (time, d, skip_empty t delta (i - at) runs ∙ expansion, found))
        (timing_loop-Agrees count at t i runs h)
timing_loop-Agrees count at t i ((suc n, delta) ∷ runs) h =
    ensures-bind (guard (leb (saturating_add at (suc n)) count) (invalid_media stts_mismatch))
      λ _ _. ensures-bind (as_u32 at) λ first e1.
        ensures-bind (ok_or (checked_mul (suc n) delta) (invalid_media "decode timestamp overflow"))
          λ span e2.
            ensures-bind (ok_or (checked_add t span) (invalid_media "decode timestamp overflow"))
              λ next e3. ensures-bind (timing_loop count (at + suc n) next runs) λ rest e4.
                let same : first ≡ at = ground arith in
                let sum : t + suc n * delta ≡ next =
                  ground (arith, ok_or-eq-ok _ _ e2, ok_or-eq-ok _ _ e3) in
                let small : next < u64_mod = ground (arith, ok_or-eq-ok _ _ e3) in
                ensures-ok (
                  rw same (
                    first_or_later count at t n delta next i runs rest h sum small
                      (λ lt. (timing_loop-None count (at + suc n) next i runs lt).holds rest e4)
                      (λ ge. (timing_loop-Agrees count (at + suc n) next i runs ge).holds rest e4)))

time_in_run_lem :
    (start first delta i time : ℕ)
    → first ≤ i
    → start + (i - first) * delta ≡ time
    → time < u64_mod
    → Table.time_in_run start first delta i ≡ ok time
unfolding Table.time_in_run
time_in_run_lem start first delta i time h e b = ground arith

-- The timing tables built from stts agree with the expansion of its runs: when they are built,
-- every sample below the sample count has a decode time and a duration in the expansion, and the
-- lookups in the tables return these.
pub timing_runs-expanded :
    (runs : List (ℕ × ℕ)) (count i : ℕ) (rs : TimingRuns) (t : Tables)
    → timing_runs runs count ≡ ok rs
    → t.time_first ≡ rs.first
    → t.time_start ≡ rs.start
    → t.time_duration ≡ rs.duration
    → i < count
    → (time : ℕ) × (delta : ℕ) × (expanded 0 runs i ≡ some (time, delta))
      × (Table.decode_time t i ≡ ok time)
      × (Table.duration t i ≡ ok delta)
unfolding timing_runs Table.decode_time Table.duration Table.run_of
timing_runs-expanded runs count i rs t e f s d lt =
    let (time, delta, expansion, found) =
      (timing_loop-Agrees count 0 0 i runs (omega arith)).holds rs e lt in
    let run : partition_point (λ (k : ℕ). leb k i) rs.first - 1 ≡ found.run =
      omega (arith, found.run_is) in
    let none_behind : i - 0 ≡ i = omega arith in
    (
      time,
      delta,
      rw none_behind at expansion,
      rw (f, s, d, run, found.start_is, found.first_is, found.duration_is)
          (time_in_run_lem found.start found.first delta i time found.behind found.time_is
            found.fits),
      rw (d, f, run, found.duration_is),
    )
