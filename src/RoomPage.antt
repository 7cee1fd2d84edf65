-- ===== src/RoomPage.antt =====
-- frontend/src/pages/RoomPage.tsx: what the page does with the user's actions, the video element's
-- events and the connection. `accepted` is the answer of `send`; a handler yields the client's state and
-- the calls it makes, in order.
pub mod Chat
pub mod Playback
pub mod Ready
pub mod Notices
use syncwatch.Shared.{
  ℕ, ◌*◌, String, Bool, true, false, not, ◌&&◌, ◌||◌, Option, none, some, List, [], ◌∷◌, ◌++◌, any,
  filter, ltb, leb, ◌==◌, is_num, is_some, is_truthy, round_thousandth, if◌then◌else◌,
}
use syncwatch.Protocol.{ChatMessage, RoomStatus, playing, paused}
use syncwatch.Store.{
  RoomStore, has_id, set_messages, set_chat_cursor, set_chat_load_error, set_file_url, value,
  updater,
}
use syncwatch.Session.{RoomClient, clear_playback_state}
use syncwatch.Navigation.{HomeArrivalNoticeKey, access_lost, room_not_found, room_connection_failed}

-- What the page sends.
pub data Command : Type 0 where
  ready : (file_version : ℕ) → Command
  play pause seek : (current_time_ms file_version : ℕ) → Command
  playback_error : (error_code : String) → Command
  chat_send : (content : String) → Command
  file_verify_request :
      (file_hash : String) (file_size file_duration_ms : ℕ) (file_name : String) → Command

pub data Call : Type 0 where
  send : Command → Call
  play_video pause_video show_hint resync_to_last_state : Call
  -- `clearPersistedRoomFile(roomId)`
  clear_persisted_room_file : String → Call

-- The video element as the page reads it; the time is in microseconds.
pub record Video : Type 0 where
  pub is_paused : Bool
  pub ready_state : ℕ
  pub current_time_us : ℕ

-- What a handler yields.
abbrev pub Run : Type 0
Run = RoomClient × List Call

-- `fileVersionRef.current || fileVersion`
abbrev pub ready_version : RoomClient → ℕ
ready_version c = if c.file_version_ref == 0 then c.store.file_version else c.file_version_ref

unfoldable pub announce_local_file_ready : Bool → RoomClient → Run
announce_local_file_ready accepted c =
    let version = ready_version c in
    if leb version 0 then (c, []) else (
      if accepted then record c { announced_ready_version = some version } else c,
      send (ready version) ∷ [],
    )

unfoldable pub handle_video_can_play : Bool → RoomClient → Run
unfolding announce_local_file_ready
handle_video_can_play accepted c =
    let (c', calls) =
      announce_local_file_ready accepted (record c { video_ready = true; video_error = none }) in
    (c', calls ++ resync_to_last_state ∷ [])

-- `HTMLMediaElement.HAVE_CURRENT_DATA`
abbrev pub have_current_data : ℕ
have_current_data = 2

-- `!video || video.readyState < HTMLMediaElement.HAVE_CURRENT_DATA`
abbrev pub lacks_data : Option Video → Bool
lacks_data none = true
lacks_data (some v) = ltb v.ready_state have_current_data

-- The effect has nothing to announce, or has announced it.
abbrev pub is_quiet : Option Video → RoomClient → Bool
is_quiet video c =
    not (is_truthy c.store.file_url)
    || is_truthy c.video_error
    || leb c.file_version_ref 0
    || is_num c.announced_ready_version c.file_version_ref
    || lacks_data video

-- The effect that announces the local file after a connection is made.
unfoldable pub ready_effect : (is_connected accepted : Bool) → Option Video → RoomClient → Run
unfolding announce_local_file_ready
ready_effect is_connected accepted video c =
    if not is_connected
    then (record c { announced_ready_version = none }, [])
    else if is_quiet video c
    then (c, [])
    else announce_local_file_ready accepted c

unfoldable pub handle_video_error : String → RoomClient → Run
handle_video_error code c = (record c { video_error = some code }, send (playback_error code) ∷ [])

abbrev pub can_control : RoomClient → Bool
can_control c = is_truthy c.store.file_url && not c.store.host_disconnected

-- Playing and pausing what the page shows, once the socket has accepted the command.
abbrev pub with_status : Bool → RoomStatus → RoomClient → RoomClient
with_status true status c = record c { room_status = status }
with_status false status c = c

abbrev pub local_call : Bool → Call → List Call
local_call true call = call ∷ []
local_call false call = []

unfoldable pub handle_video_click_toggle : Bool → Option Video → RoomClient → Run
handle_video_click_toggle accepted none c = (c, if can_control c then [] else show_hint ∷ [])
handle_video_click_toggle accepted (some v) c =
    let time_ms = round_thousandth v.current_time_us in
    if not (can_control c)
    then (c, show_hint ∷ [])
    else if v.is_paused
    then (
      with_status accepted playing c,
      send (play time_ms c.store.file_version) ∷ local_call accepted play_video,
    )
    else (
      with_status accepted paused c,
      send (pause time_ms c.store.file_version) ∷ local_call accepted pause_video,
    )

unfoldable pub handle_play : Bool → ℕ → RoomClient → Run
handle_play accepted time_ms c =
    (with_status accepted playing c, send (play time_ms c.store.file_version) ∷ [])

unfoldable pub handle_pause : Bool → ℕ → RoomClient → Run
handle_pause accepted time_ms c =
    (with_status accepted paused c, send (pause time_ms c.store.file_version) ∷ [])

unfoldable pub handle_seek : ℕ → RoomClient → Run
handle_seek time_ms c = (c, send (seek time_ms c.store.file_version) ∷ [])

unfoldable pub handle_send_chat : String → RoomClient → Run
handle_send_chat content c = (c, send (chat_send content) ∷ [])

unfoldable pub handle_verify_request : String → ℕ → ℕ → String → RoomClient → Run
unfolding clear_playback_state
handle_verify_request hash size duration_ms file_name c = (
  clear_playback_state (record c { verify_result = none }),
  send (file_verify_request hash size duration_ms file_name) ∷ [],
)

unfoldable pub handle_file_verified : String → RoomClient → Run
unfolding clear_playback_state set_file_url
handle_file_verified url c =
    let cleared = clear_playback_state c in
    (record cleared { store = set_file_url (some url) cleared.store }, [])

-- The file that is kept for the room is forgotten first, and a failure of that is caught.
unfoldable pub handle_change_file : String → RoomClient → Run
unfolding set_file_url
handle_change_file room_id c = (
  record c { verify_result = none; store = set_file_url none c.store },
  if is_truthy (some room_id) then clear_persisted_room_file room_id ∷ [] else [],
)

-- What `getChatHistory` answers.
pub record ChatHistory : Type 0 where
  pub messages : List ChatMessage
  pub next_cursor : Option String

-- `[...older, ...current]`
abbrev pub with_older : List ChatMessage → List ChatMessage → List ChatMessage
with_older page current = filter (λ m. not (any (has_id m.id) current)) page ++ current

-- The test before the request.
abbrev pub asks_for_more : String → RoomStore → Bool
asks_for_more room_id s = is_truthy (some room_id) && is_truthy s.chat_cursor

-- The rest after `await getChatHistory`, with its answer, `none` for a failure.
unfoldable pub load_answer : Option ChatHistory → RoomStore → RoomStore × Bool
unfolding set_messages set_chat_cursor set_chat_load_error
load_answer none s = (set_chat_load_error true s, false)
load_answer (some history) s = (
  set_chat_load_error false (
      set_chat_cursor history.next_cursor (set_messages (updater (with_older history.messages)) s)),
  true,
)

-- `before` is the store of the render whose callback was called, and `s` the one when the answer is there.
unfoldable pub handle_load_more_chat :
    String → Option ChatHistory → (before s : RoomStore) → RoomStore × Bool
unfolding load_answer
handle_load_more_chat room_id answer before s =
    if asks_for_more room_id before then load_answer answer s else (s, false)

unfoldable pub retry_answer : Option ChatHistory → RoomStore → RoomStore
unfolding set_messages set_chat_cursor set_chat_load_error
retry_answer none s = set_chat_load_error true s
retry_answer (some history) s =
    set_chat_load_error false
      (set_chat_cursor history.next_cursor (set_messages (value history.messages) s))

unfoldable pub handle_retry_chat_load : String → Option ChatHistory → RoomStore → RoomStore
unfolding retry_answer
handle_retry_chat_load room_id answer s =
    if is_truthy (some room_id) then retry_answer answer s else s

-- `onFatalTicketError`: the notice that the dashboard shows.
abbrev pub fatal_notice : ℕ → HomeArrivalNoticeKey
fatal_notice status =
    if status == 403
    then access_lost
    else if status == 404
    then room_not_found
    else room_connection_failed
