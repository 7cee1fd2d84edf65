-- ===== src/PlaybackControls.antt =====
-- frontend/src/components/room/PlaybackControls.tsx: the play button, the keys and the scrubber. Positions
-- are whole microseconds; the duration is 0 where the element knows none. `accepted` is the answer of
-- `onPlay`, `onPause` or `onSeek`.
pub mod Seeking
pub mod Clock
pub mod Volume
pub mod Scrubber
pub mod View
use syncwatch.Shared.{
  ℕ, ◌+◌, ◌-◌, ◌*◌, min, String, Bool, true, false, not, Option, none, some, List, [], ◌∷◌,
  round_thousandth, str_eq, ◌||◌, if◌then◌else◌,
}

-- What the controls read and set of the video element.
pub record Element : Type 0 where
  pub current_us : ℕ
  pub duration_us : ℕ
  pub is_paused : Bool

pub record Controls : Type 0 where
  pub element : Option Element
  pub is_playing : Bool
  pub current_us : ℕ
  pub duration_us : ℕ
  pub is_seeking : Bool
  pub seek_value_us : ℕ
  pub seek_interaction_active : Bool

pub data Call : Type 0 where
  on_play on_pause on_seek : (time_ms : ℕ) → Call
  on_blocked_control_attempt on_toggle_fullscreen : Call

abbrev pub Run : Type 0
Run = Controls × List Call

-- `SKIP_SECONDS`
abbrev pub skip_us : ℕ
skip_us = 5 * 1000000

sync_with : Option Element → Controls → Controls
sync_with none c = c
sync_with (some v) c = record c {
  current_us = if c.is_seeking then c.current_us else v.current_us;
  duration_us = v.duration_us;
  is_playing = not v.is_paused;
}

-- The handler of the element's events.
unfoldable pub sync_state : Controls → Controls
unfolding sync_with
sync_state c = sync_with c.element c

toggle_element : Bool → Option Element → Controls → Run
toggle_element accepted none c = (c, [])
toggle_element accepted (some v) c =
    let time_ms = round_thousandth v.current_us in
    let toggled = record c { element = some (record v { is_paused = not v.is_paused }) } in
    (
      if accepted then toggled else c,
      (if v.is_paused then on_play time_ms else on_pause time_ms) ∷ [],
    )

unfoldable pub toggle_play : (can_control accepted : Bool) → Controls → Run
unfolding toggle_element
toggle_play can_control accepted c =
    if can_control
    then toggle_element accepted c.element c
    else (c, on_blocked_control_attempt ∷ [])

abbrev pub move_to : ℕ → Element → Controls → Controls
move_to us v c = record c { element = some (record v { current_us = us }) }

-- Skipping forward or back; `Math.max(0, …)` is the subtraction that stops at 0.
abbrev pub skip_target : (forward : Bool) → Element → ℕ
skip_target true v = min v.duration_us (v.current_us + skip_us)
skip_target false v = min v.duration_us (v.current_us - skip_us)

skip_element : Bool → Bool → Option Element → Controls → Run
skip_element forward accepted none c = (c, [])
skip_element forward accepted (some v) c =
    let target = skip_target forward v in
    (if accepted then move_to target v c else c, on_seek (round_thousandth target) ∷ [])

unfoldable pub skip_by : (forward can_control accepted : Bool) → Controls → Run
unfolding skip_element
skip_by forward can_control accepted c =
    if can_control
    then skip_element forward accepted c.element c
    else (c, on_blocked_control_attempt ∷ [])

-- The key that is pressed outside a text field.
unfoldable pub handle_keydown : (code : String) → (can_control accepted : Bool) → Controls → Run
unfolding toggle_play skip_by
handle_keydown code can_control accepted c =
    if str_eq code "Space"
    then toggle_play can_control accepted c
    else if str_eq code "ArrowLeft"
    then skip_by false can_control accepted c
    else if str_eq code "ArrowRight"
    then skip_by true can_control accepted c
    else (c, if str_eq code "KeyF" then on_toggle_fullscreen ∷ [] else [])

-- `video ? video.currentTime : currentTime`
abbrev pub position : Option Element → ℕ → ℕ
position none shown = shown
position (some v) shown = v.current_us

unfoldable pub handle_seek_start : Controls → Controls
handle_seek_start c = record c {
  seek_value_us = position c.element c.current_us;
  seek_interaction_active = true;
  is_seeking = true;
}

unfoldable pub handle_seek_change : ℕ → Controls → Controls
handle_seek_change value c = record c {
  seek_interaction_active = true;
  is_seeking = if c.seek_interaction_active then c.is_seeking else true;
  seek_value_us = value;
  current_us = value;
}

-- The shown position goes back to the element's.
abbrev pub snap_back : Option Element → Controls → Controls
snap_back none c = c
snap_back (some v) c = record c { current_us = v.current_us }

abbrev pub move_element : Option Element → Controls → Controls
move_element none c = c
move_element (some v) c = move_to c.seek_value_us v c

unfoldable pub handle_seek_end : (can_control accepted : Bool) → Controls → Run
handle_seek_end can_control accepted c =
    let done = record c { seek_interaction_active = false; is_seeking = false } in
    if not c.seek_interaction_active
    then (c, [])
    else if not can_control
    then (snap_back c.element done, on_blocked_control_attempt ∷ [])
    else (
      if accepted then move_element c.element done else snap_back c.element done,
      on_seek (round_thousandth c.seek_value_us) ∷ [],
    )
