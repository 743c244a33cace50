-- ===== src/Mp4/Fragments/Order.antt =====
-- The samples that src/mp4/fragments.rs finds are in decode order and inside the source.
use segmentor.Common.{
  ℕ, ◌≤◌, ◌≡◌, refl, Bool, true, false, Option, none, some, List, [], ◌∷◌, arith, ltb, ◌==◌, not,
  if◌then◌else◌, All,
}
use segmentor.Error.{
  ok, guard, invalid_media, Ensures, ensures-ok, ensures-bind, ensures-mono, guard-eq-ok,
}
use segmentor.Config.Limits.{LimitsConfig}
use segmentor.Media.Sample.{Sample}
use segmentor.Mp4.Boxes.{
  RawBox, box_payload, child_boxes, same_bytes, required_child, optional_child,
}
use segmentor.Mp4.Fragments.Trun.{Run, State, read_run, TrackDefaults, parse_track_fragment_header}
use segmentor.Mp4.Fragments.{
  Fragment, Found, Wanted, run_of, start_time, parse_decode_time, read_runs, read_traf, read_trafs,
  read_fragments, track_samples, children_named, base_of, named, wanted_of,
}
use segmentor.Mp4.Fragments.Runs.{
  Chained, InSource, Chained-weaken, Kept, After, After-refl, After-then, read_run-After,
}

read_runs-After :
    (run : Run) (max : ℕ) (truns : List RawBox) (st : State)
    → Ensures (read_runs run max truns st) (After run st)
unfolding read_runs
read_runs-After run max [] st =
    ensures-ok (After-refl run st.samples st.decode_time st.cursor st.cursor)
read_runs-After run max (trun ∷ rest) st = ensures-bind (read_run run trun.payload max st) λ st1 e1.
    ensures-mono
      (λ st2. After-then run st st1 st2 ((read_run-After run trun.payload max st).holds st1 e1))
      (read_runs-After run max rest st1)

-- A `traf` of the track does not start before the samples found so far end.
start_time_lem :
    (id next : ℕ) (wanted : Bool) (tfdt : Option RawBox)
    → Ensures (start_time id wanted next tfdt) (λ start. next ≤ start)
unfolding start_time
start_time_lem id next wanted none = ensures-ok (omega arith)
start_time_lem id next false (some tfdt) = ensures-ok (omega arith)
start_time_lem id next true (some tfdt) = ensures-bind (parse_decode_time tfdt.payload) λ start _.
    ensures-bind (guard (not (ltb start next)) _) λ _ e.
      let h = guard-eq-ok (not (ltb start next)) _ e in
      let k : next ≤ start = ground arith in ensures-ok k

-- The samples behind a `traf`, wanted or not.
behind_traf :
    (wanted : Bool) (run : Run) (f : Found) (start base : ℕ) (st : State)
    → run.keep ≡ wanted
    → f.next_decode_time ≤ start
    → Kept run.source_len f.next_decode_time f.samples
    → After run (record { samples = f.samples; decode_time = start; cursor = base }) st
    → Kept run.source_len (if wanted then st.decode_time else f.next_decode_time) st.samples
behind_traf true run f start base st k h p a = a.extends k (record {
  chained = Chained-weaken 0 f.next_decode_time start f.samples h p.chained;
  in_source = p.in_source;
})
behind_traf false run f start base st k h p a = rw (a.leaves k) p

read_traf-Kept :
    (w : Wanted) (moof_offset : ℕ) (traf : RawBox) (f : Found)
    → Kept w.source_len f.next_decode_time f.samples
    → Ensures (read_traf w moof_offset traf f) (λ g. Kept w.source_len g.next_decode_time g.samples)
unfolding read_traf
read_traf-Kept w moof_offset traf f p =
    ensures-bind (required_child traf.payload (named b't' b'f' b'h' b'd')) λ tfhd _.
      ensures-bind (parse_track_fragment_header tfhd.payload) λ header _.
        let base = base_of header moof_offset f.previous_end in
        let wanted = header.track_id == w.track_id in
        ensures-bind (optional_child traf.payload (named b't' b'f' b'd' b't')) λ tfdt _.
          ensures-bind (start_time w.track_id wanted f.next_decode_time tfdt) λ start e.
            ensures-bind (child_boxes traf.payload) λ children _.
              ensures-bind
                (read_runs (run_of w header wanted base) w.max_samples
                  (children_named (named b't' b'r' b'u' b'n') children)
                  (record { samples = f.samples; decode_time = start; cursor = base }))
                λ st e1. ensures-ok (
                  behind_traf wanted (run_of w header wanted base) f start base st refl
                    ((start_time_lem w.track_id f.next_decode_time wanted tfdt).holds start e) p
                    ((read_runs-After (run_of w header wanted base) w.max_samples
                        (children_named (named b't' b'r' b'u' b'n') children)
                        (record { samples = f.samples; decode_time = start; cursor = base })).holds
                      st e1))

read_trafs-Kept :
    (w : Wanted) (moof_offset : ℕ) (trafs : List RawBox) (f : Found)
    → Kept w.source_len f.next_decode_time f.samples
    → Ensures
        (read_trafs w moof_offset trafs f)
        (λ g. Kept w.source_len g.next_decode_time g.samples)
unfolding read_trafs
read_trafs-Kept w moof_offset [] f p = ensures-ok p
read_trafs-Kept w moof_offset (traf ∷ rest) f p =
    ensures-bind (read_traf w moof_offset traf f) λ g e.
      read_trafs-Kept w moof_offset rest g ((read_traf-Kept w moof_offset traf f p).holds g e)

read_fragments-Kept :
    (w : Wanted) (fragments : List Fragment) (f : Found)
    → Kept w.source_len f.next_decode_time f.samples
    → Ensures (read_fragments w fragments f) (λ g. Kept w.source_len g.next_decode_time g.samples)
unfolding read_fragments
read_fragments-Kept w [] f p = ensures-ok p
read_fragments-Kept w (fragment ∷ rest) f p = ensures-bind (box_payload fragment.bytes 0) λ moof _.
    ensures-bind
      (guard (same_bytes moof.name (named b'm' b'o' b'o' b'f'))
        (invalid_media "fragment is not a moof box"))
      λ _ _. ensures-bind (child_boxes moof.payload) λ children _.
        let trafs = children_named (named b't' b'r' b'a' b'f') children in
        let f1 : Found = record f { previous_end = fragment.offset } in
        ensures-bind (read_trafs w fragment.offset trafs f1) λ g e.
          read_fragments-Kept w rest g ((read_trafs-Kept w fragment.offset trafs f1 p).holds g e)

track_samples-Ensures :
    (fragments : List Fragment) (id : ℕ) (defaults : TrackDefaults) (source_len : ℕ)
    (limits : LimitsConfig)
    → Ensures
        (track_samples fragments id defaults source_len limits)
        (λ ss. (hi : ℕ) × Chained 0 hi ss × All (InSource source_len) ss)
unfolding track_samples
track_samples-Ensures fragments id defaults source_len limits =
    let w = wanted_of id defaults source_len limits in
    let f0 : Found = record { samples = []; next_decode_time = 0; previous_end = 0 } in
    ensures-bind (read_fragments w fragments f0) λ f e.
      let p =
        (read_fragments-Kept w fragments f0
            (record { chained = omega arith; in_source = tt })).holds
          f e in
      ensures-ok (f.next_decode_time, p.chained, p.in_source)

-- When the samples of a track are read from its fragments, each decodes where the one before it
-- ends or later, and each lies inside the source.
pub track_samples-Chained :
    (fragments : List Fragment) (id : ℕ) (defaults : TrackDefaults) (source_len : ℕ)
    (limits : LimitsConfig) (ss : List Sample)
    → track_samples fragments id defaults source_len limits ≡ ok ss
    → (hi : ℕ) × Chained 0 hi ss × All (InSource source_len) ss
track_samples-Chained fragments id defaults source_len limits ss e =
    (track_samples-Ensures fragments id defaults source_len limits).holds ss e
