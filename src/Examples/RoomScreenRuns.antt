-- ===== src/Examples/RoomScreenRuns.antt =====
-- Runs of what the room's page shows (frontend/src/pages/RoomPage.tsx).
use syncwatch.Shared.{◌≡◌, refl, true, false, some, none, is_some}
use syncwatch.Protocol.{WsMessage, user_joined}
use syncwatch.Handler.{handle}
use syncwatch.Handler.Roster.{find, entry_after}
use syncwatch.RoomPage.Notices.{connected}
use syncwatch.RoomScreen.{Texts, Props, participants, show_room}
use syncwatch.RoomScreen.Presence.{lists, listed_after}
use syncwatch.Examples.HandlerRuns.{watching, untagged}
use syncwatch.Examples.LoadRoomRuns.{detail}
use syncwatch.Examples.ParticipantListRuns.{by_length, texts}

abbrev words : Texts
words = record {
  host = "Host";
  viewer = "Viewer";
  leave_host = "Close room";
  leave = "Leave";
  connected_text = "Connected";
  reconnecting_text = "Reconnecting";
  chat_text = "Chat";
  participants_text = "People";
  chat_texts = record {
    you = "You";
    chat_load_error = "No chat";
    retry = "Retry";
    chat_empty = "Empty";
  };
  people_texts = texts;
}

abbrev props : Props
props = record {
  loading = false;
  room = some (detail "attic");
  user_id = some "bob";
  is_mobile = true;
  active_tab = participants;
  connection = connected;
  panel = record { input = ""; loading = none; last_message_id = none; at_bottom = true };
}

abbrev arrival : WsMessage
arrival = untagged (user_joined "eve" "Eve" "c1")

listed_after_example :
    lists "eve"
      (show_room words (λ s. s) by_length (detail "attic") props (handle arrival watching).0).panel
    ≡ is_some (entry_after arrival.body "eve" (find "eve" watching.store.participants))
listed_after_example =
    listed_after words (λ s. s) by_length (detail "attic") props watching arrival "eve" refl
