-- ===== src/Protocol.antt =====
-- frontend/src/types/ws.ts: the messages that the server sends over the room's WebSocket, and the
-- records that the client keeps of them. Every message has the fields of `BaseWsMessage`; the rest,
-- chosen by `type`, is the body. An optional or nullable field is an `Option`. Times are whole
-- milliseconds and a playback rate is in thousandths.
use syncwatch.Shared.{ℕ, String, Bool, Option, List}

pub data RoomStatus : Type 0 where
  waiting_file waiting_ready paused playing closing : RoomStatus

pub record ChatMessage : Type 0 where
  pub id : String
  pub user_id : String
  pub username : String
  pub content : String
  pub created_at : String

-- `status` is cast from any text that the server sends, so it is a text here.
pub record WsParticipant : Type 0 where
  pub user_id : String
  pub username : String
  pub is_ready : Bool
  pub joined_at : Option String
  pub status : Option String
  pub status_detail : Option String

pub record PlaybackState : Type 0 where
  pub is_playing : Bool
  pub current_time_ms : ℕ
  pub playback_rate : ℕ

pub record RoomFileInfo : Type 0 where
  pub file_hash : Option String
  pub file_size : Option ℕ
  pub file_duration_ms : Option ℕ
  pub file_name : Option String
  pub file_version : ℕ

pub record FileVerifyResult : Type 0 where
  pub is_match : Bool
  pub reason : Option String
  pub file_version : Option ℕ
  pub file_hash : Option String

pub record ReferenceFileState : Type 0 where
  pub file_name : Option String
  pub file_version : ℕ

pub record RoomSnapshot : Type 0 where
  pub participants : List WsParticipant
  pub playback_state : PlaybackState
  pub file_info : RoomFileInfo
  pub room_status : RoomStatus
  pub host_disconnected : Option Bool
  pub host_grace_remaining_ms : Option ℕ

-- The bodies of `SyncRelatedMessage`.
pub data SyncBody : Type 0 where
  sync_state : (is_playing : Bool) (current_time_ms : ℕ) → SyncBody
  sync_correction : (action : String) (target_time_ms : ℕ) → SyncBody
  sync_check : (current_time_ms : Option ℕ) (is_playing : Option Bool) → SyncBody
  playback_rate : (rate : ℕ) → SyncBody

pub data WsBody : Type 0 where
  room_state : RoomSnapshot → WsBody
  user_joined : (user_id username connection_id : String) → WsBody
  user_left : (user_id username reason : String) → WsBody
  chat_message : ChatMessage → WsBody
  file_verify_response :
      (is_match : Bool) (reason : Option String) (file_hash : Option String) → WsBody
  file_changed : (file_hash : String) (file_size file_duration_ms : ℕ) (file_name : String) → WsBody
  participant_ready : (user_id : String) (is_ready : Bool) → WsBody
  host_disconnected : (grace_period_ms : ℕ) → WsBody
  host_reconnected : (room_status : Option RoomStatus) → WsBody
  room_closed : (reason : String) → WsBody
  sync : SyncBody → WsBody
  participant_status : (user_id status : String) (detail : Option String) → WsBody
  error : (code message : String) → WsBody
  -- a `type` that the client does not know
  unknown : WsBody

pub record WsMessage : Type 0 where
  pub seq : Option ℕ
  pub server_time : Option ℕ
  pub file_version : Option ℕ
  pub body : WsBody

-- What the sync hook is handed: a body and the `file_version` beside it.
pub record SyncMessage : Type 0 where
  pub file_version : Option ℕ
  pub body : SyncBody
