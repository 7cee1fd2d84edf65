-- ===== src/Page/Frames.antt =====
-- frontend/src/pages/RoomPage.tsx over frontend/src/hooks/useWebSocket.ts: what the page sends, as the frames of
-- its hook. Each is made with the version that `fileVersionRef` holds when it is sent.
use syncwatch.Shared.{ℕ, String, Bool, Option, List, [], ◌∷◌, map}
use syncwatch.Protocol.{WsMessage}
use syncwatch.Connection.{num, text, Fields}
use syncwatch.Socket.Frames.{outgoing}
use syncwatch.Session.{RoomClient}
use syncwatch.VideoSync as Sync
use syncwatch.VideoSync.{SyncState, on_play_rejected}
use syncwatch.RoomPage.{
  Command, ready, play, pause, seek, playback_error, chat_send, file_verify_request, Call, send,
  Video, handle_video_can_play, ready_effect, handle_video_error, handle_video_click_toggle,
  handle_play, handle_pause, handle_seek, handle_send_chat, handle_verify_request,
}
use syncwatch.Page.{PageCall, command, receive}

abbrev pub Message : Type 0
Message = String × Fields

-- The two arguments of `send`.
abbrev pub message_of : Command → Message
message_of (ready version) = ("ready", ("file_version", num version) ∷ [])
message_of (play ms version) =
    ("play", ("current_time_ms", num ms) ∷ ("file_version", num version) ∷ [])
message_of (pause ms version) =
    ("pause", ("current_time_ms", num ms) ∷ ("file_version", num version) ∷ [])
message_of (seek ms version) =
    ("seek", ("current_time_ms", num ms) ∷ ("file_version", num version) ∷ [])
message_of (playback_error code) = ("playback_error", ("error_code", text code) ∷ [])
message_of (chat_send content) = ("chat_send", ("content", text content) ∷ [])
message_of (file_verify_request hash size duration_ms name) = (
  "file_verify_request",
  ("file_hash", text hash)
      ∷ ("file_size", num size)
      ∷ ("file_duration_ms", num duration_ms)
      ∷ ("file_name", text name)
      ∷ [],
)

abbrev pub sent_by_page : List Call → List Message
sent_by_page [] = []
sent_by_page (send c ∷ calls) = message_of c ∷ sent_by_page calls
sent_by_page (_ ∷ calls) = sent_by_page calls

abbrev pub sent_by_sync : List PageCall → List Message
sent_by_sync [] = []
sent_by_sync (command (Sync.Command.send kind fields) ∷ calls) = (kind, fields) ∷ sent_by_sync calls
sent_by_sync (_ ∷ calls) = sent_by_sync calls

abbrev pub frame : (file_version : ℕ) → Message → Fields
frame file_version (kind, payload) = outgoing kind payload file_version

-- What makes the page send: a message of the server, the element, the user, and the connection.
pub data Action : Type 0 where
  receives : Option Sync.Video → WsMessage → Action
  can_plays : (accepted : Bool) → Action
  announces : (is_connected accepted : Bool) → Option Video → Action
  fails : (code : String) → Action
  -- the browser refuses to start playback
  refuses_to_play : Action
  clicks : (accepted : Bool) → Option Video → Action
  plays pauses : (accepted : Bool) (time_ms : ℕ) → Action
  seeks : (time_ms : ℕ) → Action
  says : (content : String) → Action
  verifies : (hash : String) (size duration_ms : ℕ) (name : String) → Action

abbrev pub by_page : SyncState → RoomClient × List Call → (RoomClient × SyncState) × List Message
by_page sync (room, calls) = ((room, sync), sent_by_page calls)

abbrev pub by_sync :
    (RoomClient × SyncState) × List PageCall → (RoomClient × SyncState) × List Message
by_sync (r, calls) = (r, sent_by_sync calls)

unfoldable pub act : Action → RoomClient × SyncState → (RoomClient × SyncState) × List Message
act (receives video msg) r = by_sync (receive video msg r)
act (can_plays accepted) (room, sync) = by_page sync (handle_video_can_play accepted room)
act (announces is_connected accepted video) (room, sync) =
    by_page sync (ready_effect is_connected accepted video room)
act refuses_to_play (room, sync) =
    let (sync', calls) = on_play_rejected sync in by_sync ((room, sync'), map command calls)
act (fails code) (room, sync) = by_page sync (handle_video_error code room)
act (clicks accepted video) (room, sync) =
    by_page sync (handle_video_click_toggle accepted video room)
act (plays accepted ms) (room, sync) = by_page sync (handle_play accepted ms room)
act (pauses accepted ms) (room, sync) = by_page sync (handle_pause accepted ms room)
act (seeks ms) (room, sync) = by_page sync (handle_seek ms room)
act (says content) (room, sync) = by_page sync (handle_send_chat content room)
act (verifies hash size duration_ms name) (room, sync) =
    by_page sync (handle_verify_request hash size duration_ms name room)

-- The frames of one action.
abbrev pub frames_of : (RoomClient × SyncState) × List Message → List Fields
frames_of ((room, sync), messages) = map (frame room.file_version_ref) messages
