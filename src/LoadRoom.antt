-- ===== src/LoadRoom.antt =====
-- frontend/src/hooks/useLoadRoom.ts: loading a room and the first page of its chat. `load` is cut at its
-- two awaits. A run of the effect has a number, and `cancelled` is set in every run but the latest.
pub mod Shown
pub mod Race
use syncwatch.Shared.{
  ℕ, ◌+◌, String, Bool, true, false, Option, none, some, List, [], or_else, is_num, is_truthy, ◌==◌,
  if◌then◌else◌,
}
use syncwatch.Protocol.{WsParticipant}
use syncwatch.Store.{
  RoomStore, set_participants, set_messages, set_chat_cursor, set_chat_load_error, value,
}
use syncwatch.Navigation.{
  HomeArrivalNotice, HomeArrivalNoticeKey, get_home_arrival_notice, room_not_found, access_lost,
  room_load_failed,
}
use syncwatch.RoomPage.{ChatHistory}

-- `RoomDetail`, with the fields of `Room`; the server may leave the participants out.
pub record RoomDetail : Type 0 where
  pub id : String
  pub name : String
  pub room_code : String
  pub host_id : String
  pub is_active : Bool
  pub max_participants : ℕ
  pub file_version : ℕ
  pub created_at : String
  pub participants : Option (List WsParticipant)
  pub host_username : String

-- `arrival` is the notice with which the page has left for the dashboard.
pub record Loader : Type 0 where
  pub store : RoomStore
  pub room : Option RoomDetail
  pub loading : Bool
  pub room_id : String
  pub latest : ℕ
  pub arrival : Option HomeArrivalNotice

-- The answer to `getRoom`; a failure has the status of its response, if there was one.
pub data RoomAnswer : Type 0 where
  found : RoomDetail → RoomAnswer
  failed : Option ℕ → RoomAnswer

-- The effect: earlier runs are cancelled, and a room without a name is not loaded.
unfoldable pub start : String → Loader → Loader
start room_id l =
    let begun = record l { room_id = room_id; latest = l.latest + 1; arrival = none } in
    if is_truthy (some room_id) then record begun { loading = true } else begun

abbrev pub load_notice : Option ℕ → HomeArrivalNoticeKey
load_notice status =
    if is_num status 404
    then room_not_found
    else if is_num status 403
    then access_lost
    else room_load_failed

-- After `await getRoom`, in a run that is not cancelled; then the chat is asked for, if it was found.
on_room : RoomAnswer → Loader → Loader
unfolding set_participants
on_room (found room) l = record l {
  room = some room;
  store = set_participants (value (or_else room.participants [])) l.store;
  loading = false;
}
on_room (failed status) l = record l {
  arrival = some (get_home_arrival_notice (load_notice status));
  loading = false;
}

unfoldable pub answer_room : (run : ℕ) → RoomAnswer → Loader → Loader
unfolding on_room
answer_room run answer l = if run == l.latest then on_room answer l else l

unfoldable pub on_history : Option ChatHistory → RoomStore → RoomStore
unfolding set_messages set_chat_cursor set_chat_load_error
on_history none s = set_chat_load_error true s
on_history (some history) s =
    set_chat_load_error false
      (set_chat_cursor history.next_cursor (set_messages (value history.messages) s))

-- After `await getChatHistory`.
unfoldable pub answer_history : (run : ℕ) → Option ChatHistory → Loader → Loader
unfolding on_history
answer_history run answer l =
    if run == l.latest then record l { store = on_history answer l.store } else l
