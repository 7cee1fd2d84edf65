-- ===== src/Examples/HandlerRuns.antt =====
-- Runs of the message handler (frontend/src/hooks/useRoomWsHandler.ts).
use syncwatch.Shared.{◌≡◌, refl, true, false, none, some, List, [], ◌∷◌, arith}
use syncwatch.Protocol.{
  WsParticipant, RoomSnapshot, WsBody, WsMessage, room_state, host_disconnected, host_reconnected,
  closing, playing,
}
use syncwatch.Session.{RoomClient}
use syncwatch.Handler.{handle, dispatch}
use syncwatch.Handler.Versions.{IsDropped, new_version_drops_file}
use syncwatch.Handler.Grace.{
  IsCounting, Event, received, second_passed, run, run-IsCounting, ticks,
  host_disconnected-countdown,
}

-- A client that plays a file at version 2.
abbrev pub watching : RoomClient
watching = record {
  store = record {
    participants = [];
    messages = [];
    file_url = some "blob:a";
    file_version = 2;
    host_disconnected = false;
    grace_countdown = 0;
    chat_cursor = none;
    chat_load_error = false;
    revoked = [];
  };
  file_version_ref = 2;
  verify_result = none;
  room_status = playing;
  reference_file = record { file_name = some "film.mp4"; file_version = 2 };
  video_ready = true;
  video_error = none;
  announced_ready_version = some 2;
  grace_timer = none;
}

abbrev pub untagged : WsBody → WsMessage
untagged body = record { seq = some 7; server_time = none; file_version = none; body = body }

abbrev pub ann : WsParticipant
ann = record {
  user_id = "ann";
  username = "Ann";
  is_ready = true;
  joined_at = none;
  status = none;
  status_detail = none;
}

-- A snapshot of a room whose file is at version 3 and whose host is away for another 12.4 seconds.
abbrev pub snapshot : RoomSnapshot
snapshot = record {
  participants = ann ∷ [];
  playback_state = record { is_playing = false; current_time_ms = 61000; playback_rate = 1000 };
  file_info = record {
    file_hash = some "f00d";
    file_size = some 100;
    file_duration_ms = some 90000;
    file_name = some "other.mp4";
    file_version = 3;
  };
  room_status = closing;
  host_disconnected = some true;
  host_grace_remaining_ms = some 12400;
}

new_version_drops_file_example : IsDropped (handle (untagged (room_state snapshot)) watching).0
unfolding handle
new_version_drops_file_example =
    new_version_drops_file (untagged (room_state snapshot)) watching (omega arith) refl
      (omega arith)

abbrev absence : List Event
absence =
    received (untagged (host_disconnected 30000))
    ∷ second_passed
    ∷ second_passed
    ∷ received (untagged (host_reconnected none))
    ∷ second_passed
    ∷ []

run-IsCounting_example : IsCounting (run absence watching)
run-IsCounting_example =
    run-IsCounting absence watching (record { running = λ r e. cc; present = λ e. (refl, refl) })

host_disconnected-countdown_example :
    let c' = (dispatch (host_disconnected 30000) none watching).0 in
    let later = ticks 12 c' in
    (c'.room_status ≡ closing)
    × (later.store.host_disconnected ≡ true)
    × (later.store.grace_countdown ≡ 18)
    × (later.grace_timer ≡ some 18)
host_disconnected-countdown_example = host_disconnected-countdown 30000 11 none watching
