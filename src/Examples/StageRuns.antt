-- ===== src/Examples/StageRuns.antt =====
-- Runs of the stage (frontend/src/components/room/VideoArea.tsx).
use syncwatch.Shared.{◌≡◌, refl, true, false, none, List, [], ◌∷◌}
use syncwatch.Protocol.{host_disconnected}
use syncwatch.Session.{RoomClient}
use syncwatch.Handler.{handle}
use syncwatch.RoomPage.Notices.{connected}
use syncwatch.Stage.Surface.{Texts, Props}
use syncwatch.Examples.HandlerRuns.{watching as film_plays, untagged}
use syncwatch.Stage.{
  is_fullscreen, controls_hidden, toggle_fullscreen, sync_fullscreen, handle_toggle_fullscreen,
  on_play_event, on_hide_timeout,
}
use syncwatch.Stage.Bar.{
  Event, toggles, plays, idle_ends, fullscreen_changes, run, opened, bar_pinned,
}

-- Fullscreen is entered while the video plays, and the countdown ends.
abbrev watching : List Event
watching = plays ∷ toggles ∷ fullscreen_changes true ∷ idle_ends ∷ []

watching_hides : controls_hidden (run true watching opened) ≡ true
unfolding run toggle_fullscreen sync_fullscreen handle_toggle_fullscreen on_play_event
    on_hide_timeout
watching_hides = refl

bar_pinned_example :
    let s = run true watching opened in
    (controls_hidden s ≡ true → s.is_playing ≡ true)
    × (s.hide_timer ≡ true → (is_fullscreen s ≡ true) × (s.is_playing ≡ true))
bar_pinned_example = bar_pinned true watching

abbrev words : Texts
words = record {
  change_file = "Change file";
  err_codec = "Codec";
  err_codec_sub = "Not supported";
  err_playback = "Error";
  err_playback_sub = "Try again";
  st_autoplay_title = "Paused";
  st_autoplay_sub = "Tap";
  st_autoplay_btn = "Resume";
  waiting_chip = λ ready total. "waiting";
  overlay = record {
    st_reconnect_title = "Reconnecting";
    st_reconnect_sub = "Wait";
    st_hostaway_title = "Host away";
    st_hostaway_closing = "Closing";
    host_away_in = λ n. "soon";
  };
}

abbrev seen : Props
seen = record {
  is_host = false;
  connection = connected;
  autoplay_blocked = false;
  interaction_hint = none;
}

-- The host has gone for at most 30 seconds.
abbrev left_alone : RoomClient
left_alone = (handle (untagged (host_disconnected 30000)) film_plays).0
