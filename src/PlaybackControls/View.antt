-- ===== src/PlaybackControls/View.antt =====
-- frontend/src/components/room/PlaybackControls.tsx: what the controls show. Written numbers are lists of code
-- points, as in Clock; `t` is the dictionary's texts.
use syncwatch.Shared.{
  ℕ, ◌+◌, ◌/◌, ◌≤◌, ◌≡◌, refl, ap, ◌∙◌, Bool, true, false, not, String, some, List, [], ◌∷◌, ◌++◌,
  arith, if◌then◌else◌,
}
use syncwatch.PlaybackControls.{Controls}
use syncwatch.PlaybackControls.Clock.{format_time, to_text}
use syncwatch.PlaybackControls.Volume.{Volume, is_silent, heard, toggle_mute, toggle_mute_lem}

pub record Texts : Type 0 where
  pub mute : String
  pub unmute : String
  pub fullscreen : String
  pub exit_fullscreen : String

pub record View : Type 0 where
  -- the scrubber: its end, its value, whether it takes input, and the text that is read out
  pub scrubber_max_us : ℕ
  pub scrubber_value_us : ℕ
  pub scrubber_disabled : Bool
  pub scrubber_text : List ℕ
  pub play_pressed : Bool
  pub current_text : List ℕ
  pub duration_text : List ℕ
  pub mute_label : String
  -- the volume, in thousandths, and the text that is read out
  pub volume_value : ℕ
  pub volume_text : List ℕ
  pub fullscreen_label : String

-- `${current} of ${duration}`
abbrev pub of_text : (current duration : List ℕ) → List ℕ
of_text current duration = current ++ (b' ' ∷ b'o' ∷ b'f' ∷ b' ' ∷ duration)

-- `${Math.round(volume * 100)} percent`
abbrev pub percent_text : ℕ → List ℕ
percent_text volume =
    to_text ((volume + 5) / 10) ++ (b' ' ∷ b'p' ∷ b'e' ∷ b'r' ∷ b'c' ∷ b'e' ∷ b'n' ∷ b't' ∷ [])

-- The controls, given whether nothing is heard, and the volume that is.
abbrev pub controls :
    Texts → (can_control is_fullscreen silent : Bool) → (volume : ℕ) → Controls → View
controls t can_control is_fullscreen silent volume c = record {
  scrubber_max_us = c.duration_us;
  scrubber_value_us = c.current_us;
  scrubber_disabled = not can_control;
  scrubber_text = of_text (format_time (some c.current_us)) (format_time (some c.duration_us));
  play_pressed = c.is_playing;
  current_text = format_time (some c.current_us);
  duration_text = format_time (some c.duration_us);
  mute_label = if silent then t.unmute else t.mute;
  volume_value = volume;
  volume_text = percent_text volume;
  fullscreen_label = if is_fullscreen then t.exit_fullscreen else t.fullscreen;
}

unfoldable pub view : Texts → (can_control is_fullscreen : Bool) → Volume → Controls → View
view t can_control is_fullscreen v c =
    controls t can_control is_fullscreen (is_silent v) (heard v) c

silent-twice :
    (v : Volume) → is_silent v ≡ false → is_silent (toggle_mute (toggle_mute v)) ≡ is_silent v
unfolding toggle_mute
silent-twice v s = ground arith

heard-muted : (v : Volume) → is_silent v ≡ false → heard (toggle_mute v) ≡ 0
unfolding toggle_mute
heard-muted v s = ground arith

-- Where something is heard: pressing the button that mutes makes it offer the other direction and shows the
-- volume 0, and pressing it again shows the same controls as before, in numbers and in texts.
pub muting_shown :
    (t : Texts) (can_control is_fullscreen : Bool) (v : Volume) (c : Controls)
    → v.volume ≤ 1000
    → v.pre_mute_volume ≤ 1000
    → is_silent v ≡ false
    → let before = view t can_control is_fullscreen v c in
      let once = view t can_control is_fullscreen (toggle_mute v) c in
      (before.mute_label ≡ t.mute)
      × (once.mute_label ≡ t.unmute)
      × (once.volume_value ≡ 0)
      × (view t can_control is_fullscreen (toggle_mute (toggle_mute v)) c ≡ before)
unfolding view
muting_shown t can_control is_fullscreen v c h k s =
    let once = toggle_mute_lem v h k in
    let twice : is_silent (toggle_mute (toggle_mute v)) ≡ is_silent v = silent-twice v s in
    let silent : is_silent (toggle_mute v) ≡ true = ground (arith, once.0) in
    (
      rw s refl,
      rw silent refl,
      heard-muted v s,
      ap (λ b. controls t can_control is_fullscreen b (heard (toggle_mute (toggle_mute v))) c) twice
          ∙ ap (λ n. controls t can_control is_fullscreen (is_silent v) n c) (once.2 s),
    )
