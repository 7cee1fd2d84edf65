-- ===== src/Store.antt =====
-- frontend/src/store/roomStore.ts: the state that the room's components share. `revoked` is the trace
-- of the calls of `URL.revokeObjectURL`, latest first; everything else is the store's own state.
-- `set…` with an updater function is the same setter applied to the updater's result.
pub mod Urls
pub mod Messages
use syncwatch.Shared.{
  ℕ, String, Bool, true, false, not, ◌&&◌, Option, none, some, List, [], ◌∷◌, ◌++◌, any, str_eq,
  is_truthy, if◌then◌else◌,
}
use syncwatch.Protocol.{ChatMessage, WsParticipant}

pub record RoomStore : Type 0 where
  pub participants : List WsParticipant
  pub messages : List ChatMessage
  pub file_url : Option String
  pub file_version : ℕ
  pub host_disconnected : Bool
  pub grace_countdown : ℕ
  pub chat_cursor : Option String
  pub chat_load_error : Bool
  pub revoked : List String

-- `StateUpdater<T>`: a value, or a function of the current one.
pub data StateUpdater (A : Type 0) : Type 0 where
  value : A → StateUpdater A
  updater : (A → A) → StateUpdater A

abbrev pub resolve_state : {A : Type 0} → A → StateUpdater A → A
resolve_state current (value v) = v
resolve_state current (updater f) = f current

unfoldable pub init : RoomStore
init = record {
  participants = [];
  messages = [];
  file_url = none;
  file_version = 0;
  host_disconnected = false;
  grace_countdown = 0;
  chat_cursor = none;
  chat_load_error = false;
  revoked = [];
}

unfoldable pub set_participants : StateUpdater (List WsParticipant) → RoomStore → RoomStore
set_participants v s = record s { participants = resolve_state s.participants v }

unfoldable pub set_messages : StateUpdater (List ChatMessage) → RoomStore → RoomStore
set_messages v s = record s { messages = resolve_state s.messages v }

abbrev pub has_id : String → ChatMessage → Bool
has_id id m = str_eq m.id id

unfoldable pub add_message : ChatMessage → RoomStore → RoomStore
add_message m s = record s {
  messages = if any (has_id m.id) s.messages then s.messages else s.messages ++ m ∷ [];
}

-- `a !== b` of two texts that may be null
abbrev pub differs : Option String → Option String → Bool
differs none none = false
differs none (some b) = true
differs (some a) none = true
differs (some a) (some b) = not (str_eq a b)

-- `URL.revokeObjectURL(url)` where `url` is held and the test passes
abbrev pub revoke_if : Bool → Option String → List String → List String
revoke_if true (some u) trace = u ∷ trace
revoke_if _ _ trace = trace

unfoldable pub set_file_url : Option String → RoomStore → RoomStore
set_file_url url s = record s {
  file_url = url;
  revoked = revoke_if (is_truthy s.file_url && differs s.file_url url) s.file_url s.revoked;
}

unfoldable pub set_file_version : ℕ → RoomStore → RoomStore
set_file_version v s = record s { file_version = v }

unfoldable pub set_host_disconnected : Bool → RoomStore → RoomStore
set_host_disconnected b s = record s { host_disconnected = b }

unfoldable pub set_grace_countdown : ℕ → RoomStore → RoomStore
set_grace_countdown n s = record s { grace_countdown = n }

unfoldable pub set_chat_cursor : Option String → RoomStore → RoomStore
set_chat_cursor c s = record s { chat_cursor = c }

unfoldable pub set_chat_load_error : Bool → RoomStore → RoomStore
set_chat_load_error b s = record s { chat_load_error = b }

unfoldable pub reset_room : RoomStore → RoomStore
unfolding init
reset_room s = record init { revoked = revoke_if (is_truthy s.file_url) s.file_url s.revoked }
