-- ===== src/PlaybackControls/Volume.antt =====
-- frontend/src/components/room/PlaybackControls.tsx: the volume, in thousandths, and muting.
use syncwatch.Shared.{
  ℕ, ◌≤◌, ◌≡◌, Bool, true, false, not, ◌||◌, Option, none, some, arith, ltb, leb, ◌==◌,
  if◌then◌else◌,
}

pub record Volume : Type 0 where
  pub volume : ℕ
  pub muted : Bool
  pub pre_mute_volume : ℕ

-- 0.7
abbrev pub default_volume : ℕ
default_volume = 700

-- The stored number, `none` where none is stored or it is not a number or negative.
abbrev pub initial_volume : Option ℕ → ℕ
initial_volume none = default_volume
initial_volume (some stored) = if leb stored 1000 then stored else default_volume

unfoldable pub init_volume : Option ℕ → Volume
init_volume stored = record {
  volume = initial_volume stored;
  muted = false;
  pre_mute_volume = default_volume;
}

abbrev pub is_silent : Volume → Bool
is_silent v = v.muted || v.volume == 0

-- `preMuteVolumeRef.current || 0.7`
abbrev pub unmuted_volume : Volume → ℕ
unmuted_volume v = if v.pre_mute_volume == 0 then default_volume else v.pre_mute_volume

unfoldable pub toggle_mute : Volume → Volume
toggle_mute v =
    if is_silent v
    then record v { muted = false; volume = if v.volume == 0 then unmuted_volume v else v.volume }
    else record v { pre_mute_volume = v.volume; muted = true }

-- The slider, which has steps from 0 to 1000.
unfoldable pub on_slider : ℕ → Volume → Volume
on_slider next v = record v { volume = next; muted = if ltb 0 next then false else v.muted }

-- What the effect sets on the element: 0 where it is muted.
abbrev pub heard : Volume → ℕ
heard v = if v.muted then 0 else v.volume

-- The mute button silences what is heard and makes what is silent heard, always within the range of the
-- element; and muting and unmuting gives back the volume that was heard.
pub toggle_mute_lem :
    (v : Volume)
    → v.volume ≤ 1000
    → v.pre_mute_volume ≤ 1000
    → (is_silent (toggle_mute v) ≡ not (is_silent v))
      × (heard (toggle_mute v) ≤ 1000)
      × (is_silent v ≡ false → heard (toggle_mute (toggle_mute v)) ≡ heard v)
unfolding toggle_mute
toggle_mute_lem v h k = (ground arith, ground arith, λ s. ground arith)
