-- ===== src/Examples/RoomPageRuns.antt =====
-- Runs of the room page (frontend/src/pages/RoomPage.tsx).
use syncwatch.Shared.{
  ◌≡◌, ◌⊎◌, refl, String, true, false, none, some, List, [], ◌∷◌, ◌++◌, arith, eq_iff, length, All,
  Distinct, if◌then◌else◌, ◌&&◌,
}
use syncwatch.Protocol.{ChatMessage}
use syncwatch.Store.{RoomStore}
use syncwatch.Store.Messages.{ids, Has}
use syncwatch.Session.{RoomClient}
use syncwatch.RoomPage.{
  Video, ChatHistory, handle_load_more_chat, handle_video_click_toggle, can_control,
}
use syncwatch.RoomPage.Chat.{load_more}
use syncwatch.RoomPage.Playback.{acts, sends, Starts, Stops, click_toggle_cases}
use syncwatch.Examples.HandlerRuns.{watching}

abbrev still : Video
still = record { is_paused = true; ready_state = 4; current_time_us = 1500600 }

click_toggle_cases_example :
    let run = handle_video_click_toggle true (some still) watching in
    ((can_control watching && true ≡ false)
      × (run.0 ≡ watching)
      × (acts run.1 ≡ [])
      × (length (sends run.1) ≡ (if can_control watching then 1 else 0)))
    ⊎ ((can_control watching && true ≡ true)
        × (Starts still watching run ⊎ Stops still watching run))
click_toggle_cases_example = click_toggle_cases true still watching

-- The same client after a reconnect.
abbrev back : RoomClient
back = record watching { announced_ready_version = none }

abbrev said : (id content : String) → ChatMessage
said id content = record {
  id = id;
  user_id = "ann";
  username = "Ann";
  content = content;
  created_at = "12:00";
}

abbrev store : RoomStore
store = record watching.store {
  messages = said "2" "hi" ∷ said "3" "so" ∷ [];
  chat_cursor = some "c2";
}

abbrev page : ChatHistory
page = record { messages = said "1" "hello" ∷ said "2" "hi" ∷ []; next_cursor = none }

-- The last message came after the request.
abbrev asked_with : RoomStore
asked_with = record store { messages = said "2" "hi" ∷ [] }

load_more_example :
    let (s', loaded) = handle_load_more_chat "lounge" (some page) asked_with store in
    Distinct (ids s'.messages)
    × ((new : List ChatMessage) × (s'.messages ≡ new ++ store.messages))
    × All (Has s'.messages) page.messages
    × (s'.chat_cursor ≡ none)
    × (s'.chat_load_error ≡ false)
    × (loaded ≡ true)
load_more_example =
    load_more "lounge" page asked_with store refl refl
      ((ground (arith, eq_iff "2" "1"), tt), (tt, tt))
      ((ground (arith, eq_iff "3" "2"), tt), (tt, tt))
