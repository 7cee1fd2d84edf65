-- ===== src/Examples/PlaybackControlsRuns.antt =====
-- Runs of the playback controls (frontend/src/components/room/PlaybackControls.tsx).
use syncwatch.Shared.{ℕ, ◌/◌, ◌≡◌, refl, true, false, some, List, [], ◌∷◌}
use syncwatch.PlaybackControls.{
  Element, Controls, on_seek, sync_state, handle_keydown, handle_seek_start, handle_seek_end,
  position,
}
use syncwatch.PlaybackControls.Clock.{read, format_time, read-format_time}
use syncwatch.PlaybackControls.Seeking.{drag, IsRefused, drag_gesture, key_needs_room}

abbrev film : Element
film = record { current_us = 10000000; duration_us = 60000000; is_paused = true }

abbrev pub controls : Controls
controls = record {
  element = some film;
  is_playing = false;
  current_us = 10000000;
  duration_us = 60000000;
  is_seeking = false;
  seek_value_us = 0;
  seek_interaction_active = false;
}

abbrev dragged : List ℕ
dragged = 20000000 ∷ 30500400 ∷ []

drag_gesture_example :
    let (c', calls) = handle_seek_end true true (drag dragged (handle_seek_start controls)) in
    (c'.element ≡ some (record film { current_us = 30500400 }))
    × (calls ≡ on_seek 30500 ∷ [])
    × (c'.is_seeking ≡ false)
    × ((sync_state c').current_us ≡ position c'.element 0)
drag_gesture_example = drag_gesture dragged true true film controls refl

key_needs_room_example : IsRefused true controls (handle_keydown "ArrowRight" true false controls)
key_needs_room_example = key_needs_room "ArrowRight" true false controls refl

read-format_time_example : read (format_time (some 3723500000)) 0 0 ≡ 3723500000 / 1000000
read-format_time_example = read-format_time 3723500000
