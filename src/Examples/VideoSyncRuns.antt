-- ===== src/Examples/VideoSyncRuns.antt =====
-- Runs of the playback sync (frontend/src/hooks/useVideoSync.ts).
use syncwatch.Shared.{◌≡◌, refl, inl, ltb, not, ◌&&◌, any, arith, true, false, none, some, [], ◌∷◌}
use syncwatch.VideoSync.{
  Video, SyncState, handle_sync_message, resync_to_last_state, resume_playback,
}
use syncwatch.VideoSync.Player.{Player, Follows, is_play, perform_all, sync_state-Follows}
use syncwatch.VideoSync.Replay.{
  playback, resync-handle_sync_message, PlaysWithRoom, plays_with_room,
}

-- A player whose element is just what is read of it. It lasts 100
-- seconds, and the browser lets it start just if it has loaded something.
abbrev pub plain_player : Player
plain_player = record {
  Element = Video;
  look = λ v. v;
  duration_us = λ v. 100000000;
  lets_play = λ v. ltb 0 v.ready_state;
  set_current_time = λ t v. record v { current_us = t };
  call_play = λ v. record v { is_paused = v.is_paused && not (ltb 0 v.ready_state) };
  call_pause = λ v. record v { is_paused = true };
  set_playback_rate = λ r v. v;
  duration-set_current_time = λ t v. refl;
  lets_play-set_current_time = λ t v. refl;
  current-set_current_time = λ t v h. refl;
  paused-set_current_time = λ t v. refl;
  current-call_play = λ v h. refl;
  paused-call_play = λ v. refl;
  current-call_pause = λ v. refl;
  paused-call_pause = λ v. refl;
}

abbrev pub running : Video
running = record {
  current_us = 10000000;
  is_paused = false;
  has_error = false;
  ready_state = 4;
  buffered = (0, 5000000) ∷ (9000000, 14000500) ∷ [];
}

abbrev pub fresh : SyncState
fresh = record { autoplay_blocked = false; is_room_playing = true; last_snapshot = none }

-- The browser does not let this one start.
abbrev stuck : Video
stuck = record running { is_paused = true; ready_state = 0 }

sync_state-Follows_example :
    let (s', calls) = handle_sync_message 2 (some stuck) (playback (some 2) true 12000) fresh in
    Follows plain_player true 12000 stuck (perform_all plain_player calls stuck)
    × (any is_play calls ≡ true)
    × (s'.is_room_playing ≡ true)
    × (s'.autoplay_blocked ≡ false)
sync_state-Follows_example =
    sync_state-Follows plain_player 2 12000 true (some 2) stuck fresh refl (omega arith)

resync-handle_sync_message_example :
    let early = handle_sync_message 0 none (playback (some 2) true 12000) fresh in
    (early.1 ≡ [])
    × (resync_to_last_state 2 (some running) early.0
        ≡ handle_sync_message 2 (some running) (playback (some 2) true 12000) fresh)
resync-handle_sync_message_example =
    resync-handle_sync_message 0 12000 true (some 2) none running fresh (inl refl)

plays_with_room_example :
    PlaysWithRoom (handle_sync_message 2 (some running) (playback none true 12000) fresh)
    × PlaysWithRoom (resync_to_last_state 2 (some running) fresh)
    × PlaysWithRoom (resume_playback (some running) fresh)
plays_with_room_example = plays_with_room 2 (playback none true 12000) (some running) fresh
