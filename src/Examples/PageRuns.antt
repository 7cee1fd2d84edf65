-- ===== src/Examples/PageRuns.antt =====
-- Runs of the page (frontend/src/pages/RoomPage.tsx): frames from the socket to the element.
use syncwatch.Shared.{ℕ, ◌≡◌, refl, false, Option, none, some, List, [], ◌∷◌, any, arith}
use syncwatch.Protocol.{WsMessage, chat_message}
use syncwatch.VideoSync.{Video, resync_to_last_state}
use syncwatch.VideoSync.Player.{Follows, is_play, perform_all}
use syncwatch.Page.{Page, on_frame, arrive}
use syncwatch.Page.Redelivery.{seen, receive_all, arrive-receive_all}
use syncwatch.Page.Snapshots.{snapshot_frame, commands, snapshot-Follows, new_version-Follows}
use syncwatch.Examples.HandlerRuns.{watching, snapshot, ann}
use syncwatch.Examples.SocketRuns.{live}
use syncwatch.Examples.VideoSyncRuns.{plain_player, running, fresh}

abbrev page : Page
page = record { connection = live; room = watching; sync = fresh }

abbrev said : (seq : ℕ) → Option Video × WsMessage
said seq = (
  some running,
  record {
    seq = some seq;
    server_time = none;
    file_version = none;
    body = chat_message (record {
      id = "m";
      user_id = "ann";
      username = "Ann";
      content = "hi";
      created_at = "12:00";
    });
  },
)

-- The first is older than what the page has seen, and the second comes twice.
abbrev frames : List (Option Video × WsMessage)
frames = said 39 ∷ said 41 ∷ said 41 ∷ said 43 ∷ said 42 ∷ []

arrive-receive_all_example :
    seen (arrive frames page) ≡ receive_all (said 41 ∷ said 43 ∷ []) (watching, fresh)
arrive-receive_all_example = arrive-receive_all frames page

snapshot-Follows_example :
    let (p', calls) =
      on_frame (some running) (snapshot_frame (some 41) none (some 2) snapshot) page in
    (p'.room.store.participants ≡ ann ∷ [])
    × (p'.sync.is_room_playing ≡ false)
    × (any is_play (commands calls) ≡ false)
    × Follows plain_player false 61000 running (perform_all plain_player (commands calls) running)
snapshot-Follows_example =
    snapshot-Follows plain_player (some 41) none (some 2) snapshot running page refl refl
      (omega arith)

new_version-Follows_example :
    let (p', calls) = on_frame (some running) (snapshot_frame (some 41) none none snapshot) page in
    let resync = resync_to_last_state p'.room.store.file_version (some running) p'.sync in
    (commands calls ≡ [])
    × (any is_play resync.1 ≡ false)
    × Follows plain_player false 61000 running (perform_all plain_player resync.1 running)
new_version-Follows_example =
    new_version-Follows plain_player (some 41) none none snapshot (some running) running page refl
      (omega arith) (omega arith)
