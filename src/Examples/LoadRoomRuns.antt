-- ===== src/Examples/LoadRoomRuns.antt =====
-- Runs of loading a room (frontend/src/hooks/useLoadRoom.ts).
use syncwatch.Shared.{
  ◌≡◌, refl, String, true, not, ◌&&◌, none, some, List, [], ◌∷◌, any, filter, false,
}
use syncwatch.Store.{init, has_id}
use syncwatch.Store.Messages.{add_all}
use syncwatch.RoomPage.{ChatHistory, handle_retry_chat_load}
use syncwatch.LoadRoom.{RoomDetail, Loader, found, failed, answer_history}
use syncwatch.LoadRoom.Race.{hear, first_page_replaces}
use syncwatch.Examples.StoreRuns.{hello, answer}
use syncwatch.LoadRoom.Shown.{Event, room, history, run, is_of, is_room_of, late_answers_ignored}

abbrev pub detail : (name : String) → RoomDetail
detail name = record {
  id = name;
  name = name;
  room_code = "AB12CD34";
  host_id = "ann";
  is_active = true;
  max_participants = 8;
  file_version = 2;
  created_at = "2026-01-01";
  participants = none;
  host_username = "Ann";
}

-- The page has gone from one room to another, whose load is the second run.
abbrev loader : Loader
loader = record {
  store = init;
  room = none;
  loading = true;
  room_id = "attic";
  latest = 2;
  arrival = none;
}

abbrev answers : List Event
answers =
    room 1 (failed (some 404))
    ∷ room 2 (found (detail "attic"))
    ∷ history 1 none
    ∷ history 2 none
    ∷ []

late_answers_ignored_example :
    (run answers loader ≡ run (filter (is_of 2) answers) loader)
    × ((run answers loader).loading ≡ (loader.loading && not (any (is_room_of 2) answers)))
late_answers_ignored_example = late_answers_ignored answers loader refl

abbrev first_page : ChatHistory
first_page = record { messages = hello ∷ []; next_cursor = none }

first_page_replaces_example :
    (any
        (has_id "2")
        (hear
          (hello ∷ [])
          (answer_history 2 (some first_page) (hear (answer ∷ []) loader))).store.messages
      ≡ false)
    × (any
          (has_id "2")
          (add_all (hello ∷ []) (
            handle_retry_chat_load "attic"
              (some first_page)
              (hear (answer ∷ []) loader).store)).messages
        ≡ false)
first_page_replaces_example =
    first_page_replaces "2" "attic" (answer ∷ []) (hello ∷ []) first_page loader refl
