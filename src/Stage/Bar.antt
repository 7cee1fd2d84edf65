-- ===== src/Stage/Bar.antt =====
-- frontend/src/components/room/VideoArea.tsx: when the control bar is hidden.
use syncwatch.Shared.{◌≡◌, Bool, true, false, List, [], ◌∷◌, arith}
use syncwatch.Stage.{
  Stage, is_fullscreen, controls_hidden, toggle_fullscreen, exit_fullscreen, sync_fullscreen,
  on_escape_key, after_effect, reveal_controls, handle_stage_mouse_move, handle_video_tap,
  handle_toggle_fullscreen, on_hide_timeout, on_play_event, on_pause_event, on_file_swapped,
}

-- `plays` is the event `play` that is heard before the element is paused again; by the time that `pauses` is
-- heard, the element may be paused or play again.
pub data Event : Type 0 where
  mouse_moves taps toggles escapes idle_ends plays : Event
  pauses : (is_paused : Bool) → Event
  fullscreen_changes : (entered : Bool) → Event
  file_swaps : (is_paused : Bool) → Event

abbrev pub handler : (has_real : Bool) → Event → Stage → Stage
handler has_real mouse_moves s = handle_stage_mouse_move s
handler has_real taps s = handle_video_tap s
handler has_real toggles s = handle_toggle_fullscreen has_real s
handler has_real escapes s = on_escape_key s
handler has_real idle_ends s = on_hide_timeout s
handler has_real plays s = on_play_event false s
handler has_real (pauses is_paused) s = on_pause_event is_paused s
handler has_real (fullscreen_changes entered) s = sync_fullscreen entered s
handler has_real (file_swaps is_paused) s = on_file_swapped is_paused s

-- A handler, and then the effect.
abbrev pub step : (has_real : Bool) → Event → Stage → Stage
step has_real e s = after_effect s (handler has_real e s)

unfoldable pub run : (has_real : Bool) → List Event → Stage → Stage
run has_real [] s = s
run has_real (e ∷ es) s = run has_real es (step has_real e s)

-- The bar is hidden in fullscreen only while the video plays, and only then is the countdown running;
-- a device has one kind of fullscreen, and the bar is shown while the browser is asked for it.
pub record IsPinned (has_real : Bool) (s : Stage) : Type 0 where
  pub hidden_plays : controls_hidden s ≡ true → s.is_playing ≡ true
  pub timer_fullscreen : s.hide_timer ≡ true → is_fullscreen s ≡ true
  pub timer_plays : s.hide_timer ≡ true → s.is_playing ≡ true
  pub entering_shown : s.is_entering ≡ true → s.controls_visible ≡ true
  pub entering_out : s.is_entering ≡ true → is_fullscreen s ≡ false
  pub pseudo_kind : s.is_pseudo ≡ true → has_real ≡ false
  pub real_kind : s.is_real ≡ true → has_real ≡ true
  pub real_document : s.is_real ≡ s.document_fullscreen
  pub entering_kind : s.is_entering ≡ true → has_real ≡ true

step-IsPinned :
    (has_real : Bool) (e : Event) (s : Stage)
    → IsPinned has_real s
    → IsPinned has_real (step has_real e s)
unfolding toggle_fullscreen exit_fullscreen sync_fullscreen on_escape_key reveal_controls
    handle_stage_mouse_move handle_video_tap handle_toggle_fullscreen on_hide_timeout on_play_event
    on_pause_event on_file_swapped
step-IsPinned has_real mouse_moves s h = ground arith
step-IsPinned has_real taps s h = ground arith
step-IsPinned has_real toggles s h = ground arith
step-IsPinned has_real escapes s h = ground arith
step-IsPinned has_real idle_ends s h = ground arith
step-IsPinned has_real plays s h = ground arith
step-IsPinned has_real (pauses is_paused) s h = ground arith
step-IsPinned has_real (fullscreen_changes entered) s h = ground arith
step-IsPinned has_real (file_swaps is_paused) s h = ground arith

-- The stage when the page opens.
abbrev pub opened : Stage
opened = record {
  is_pseudo = false;
  is_real = false;
  is_playing = false;
  controls_visible = true;
  hide_timer = false;
  document_fullscreen = false;
  is_entering = false;
}

opened-IsPinned : (has_real : Bool) → IsPinned has_real opened
opened-IsPinned has_real = ground arith

run-IsPinned :
    (has_real : Bool) (es : List Event) (s : Stage)
    → IsPinned has_real s
    → IsPinned has_real (run has_real es s)
unfolding run
run-IsPinned has_real [] s h = h
run-IsPinned has_real (e ∷ es) s h =
    run-IsPinned has_real es (step has_real e s) (step-IsPinned has_real e s h)

-- Whatever the user, the browser and the element do from the opening of the page on, where the browser has
-- left fullscreen for a file that was taken away before another one comes, and each `play` event is heard
-- before the element is paused again: the control bar is hidden in fullscreen only while the video plays, so
-- that a paused player always has its controls; and the idle countdown that hides it runs only in fullscreen
-- while the video plays.
pub bar_pinned :
    (has_real : Bool) (es : List Event)
    → let s = run has_real es opened in
      (controls_hidden s ≡ true → s.is_playing ≡ true)
      × (s.hide_timer ≡ true → (is_fullscreen s ≡ true) × (s.is_playing ≡ true))
bar_pinned has_real es =
    let h = run-IsPinned has_real es opened (opened-IsPinned has_real) in
    (h.hidden_plays, λ t. (h.timer_fullscreen t, h.timer_plays t))
