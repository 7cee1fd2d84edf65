-- ===== src/Examples/VideoPlayerRuns.antt =====
-- Runs of clicks and taps (frontend/src/components/room/VideoPlayer.tsx).
use syncwatch.Shared.{◌+◌, ◌≤◌, ◌≡◌, refl, false, List, [], ◌∷◌}
use syncwatch.VideoPlayer.{Pointer}
use syncwatch.VideoPlayer.Clicks.{
  Event, presses, clicks, times_out, run, acts, toggles, clicks_in, waits, touch_never_pauses,
}

abbrev finger : Pointer
finger = record { click_timer = false; last_pointer_type = "touch" }

abbrev taps : List Event
taps = presses "touch" ∷ clicks ∷ clicks ∷ times_out ∷ clicks ∷ []

touch_never_pauses_example :
    (toggles (run taps finger).1 ≡ 0)
    × (acts (run taps finger).1 + waits (run taps finger).0 ≤ clicks_in taps + waits finger)
touch_never_pauses_example = touch_never_pauses taps finger refl refl
