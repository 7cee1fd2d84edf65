-- ===== src/Stage.antt =====
-- frontend/src/hooks/useFullscreen.ts and frontend/src/components/room/VideoArea.tsx: fullscreen and the
-- control bar over the video. `has_real` says that the target can be made fullscreen by the browser and
-- that the device is no iPhone. The browser's side is `document_fullscreen` and `is_entering`, a request
-- that it has not answered.
pub mod Bar
pub mod View
pub mod Surface
pub mod Away
use syncwatch.Shared.{
  Bool, true, false, not, ◌&&◌, ◌||◌, Option, none, some, List, [], ◌∷◌, if◌then◌else◌,
}

pub record Stage : Type 0 where
  pub is_pseudo : Bool
  pub is_real : Bool
  pub is_playing : Bool
  pub controls_visible : Bool
  pub hide_timer : Bool
  pub document_fullscreen : Bool
  pub is_entering : Bool

abbrev pub is_fullscreen : Stage → Bool
is_fullscreen s = s.is_pseudo || s.is_real

abbrev pub controls_hidden : Stage → Bool
controls_hidden s = is_fullscreen s && not s.controls_visible

-- `toggle` of the hook.
unfoldable pub toggle_fullscreen : (has_real : Bool) → Stage → Stage
toggle_fullscreen has_real s =
    if not has_real
    then record s { is_pseudo = not s.is_pseudo }
    else if s.document_fullscreen
    then s
    else record s { is_entering = true }

-- `exit` of the hook, whose call of the browser is answered by the event of leaving.
unfoldable pub exit_fullscreen : Stage → Stage
exit_fullscreen s = record s { is_pseudo = false }

-- The listener on `fullscreenchange`, with the browser's side of it: it enters after a request only.
unfoldable pub sync_fullscreen : (entered : Bool) → Stage → Stage
sync_fullscreen entered s =
    if entered
    then if s.is_entering
      then record s { document_fullscreen = true; is_real = true; is_entering = false }
      else s
    else record s { document_fullscreen = false; is_real = false; is_entering = false }

-- The listener on Escape, which is there in pseudo-fullscreen only.
unfoldable pub on_escape_key : Stage → Stage
on_escape_key s = record s { is_pseudo = false }

-- The effect on `isFullscreen` and `isPlaying`, after a change from the first state to the second.
abbrev pub arm_or_clear : Stage → Stage
arm_or_clear s = record s { hide_timer = is_fullscreen s && s.is_playing }

abbrev pub same_bool : Bool → Bool → Bool
same_bool true b = b
same_bool false b = not b

abbrev pub after_effect : Stage → Stage → Stage
after_effect before s =
    if same_bool (is_fullscreen before) (is_fullscreen s)
      && same_bool before.is_playing s.is_playing
    then s
    else arm_or_clear s

unfoldable pub reveal_controls : Stage → Stage
reveal_controls s = record s {
  controls_visible = true;
  hide_timer = s.hide_timer || (is_fullscreen s && s.is_playing);
}

unfoldable pub handle_stage_mouse_move : Stage → Stage
unfolding reveal_controls
handle_stage_mouse_move s = if is_fullscreen s then reveal_controls s else s

unfoldable pub handle_video_tap : Stage → Stage
unfolding reveal_controls
handle_video_tap s =
    if is_fullscreen s && s.controls_visible && s.is_playing
    then record s { hide_timer = false; controls_visible = false }
    else reveal_controls s

unfoldable pub handle_toggle_fullscreen : (has_real : Bool) → Stage → Stage
unfolding toggle_fullscreen
handle_toggle_fullscreen has_real s =
    toggle_fullscreen has_real (record s { controls_visible = true })

-- The idle countdown of `armHideTimer` ends.
unfoldable pub on_hide_timeout : Stage → Stage
on_hide_timeout s =
    if s.hide_timer then record s { hide_timer = false; controls_visible = false } else s

-- The listeners on `play` and `pause`; each reads of the element whether it is paused by then.
unfoldable pub on_play_event : (is_paused : Bool) → Stage → Stage
on_play_event is_paused s = record s { is_playing = not is_paused }

unfoldable pub on_pause_event : (is_paused : Bool) → Stage → Stage
on_pause_event is_paused s = record s { is_playing = not is_paused; controls_visible = true }

-- The file is taken away and another one comes: the surface leaves fullscreen, and then the new element
-- is looked at once.
unfoldable pub on_file_swapped : (is_paused : Bool) → Stage → Stage
unfolding exit_fullscreen sync_fullscreen
on_file_swapped is_paused s =
    let out = sync_fullscreen false (exit_fullscreen s) in record out { is_playing = not is_paused }
