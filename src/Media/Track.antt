-- ===== src/Media/Track.antt =====
-- `Track` and `TrackKey` of src/media/index.rs. The codec, the language, the label and the source
-- protection are carried along by the code modelled here without being read, and are left out.
use segmentor.Common.{ℕ, Bool, true, false}
use segmentor.Media.Sample.{TrackKind, audio, video}
use segmentor.Media.SampleIndex.{SampleIndex}

pub record TrackKey : Type 0 where
  pub kind : TrackKind
  pub ordinal : ℕ

pub record Track : Type 0 where
  pub id : ℕ
  pub key : TrackKey
  pub kind : TrackKind
  pub timeline_shift : ℕ
  pub timescale : ℕ
  pub duration : ℕ
  pub samples : SampleIndex

abbrev pub is_video : TrackKind → Bool
is_video video = true
is_video audio = false
