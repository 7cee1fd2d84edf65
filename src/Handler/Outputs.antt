-- ===== src/Handler/Outputs.antt =====
-- frontend/src/hooks/useRoomWsHandler.ts: what leaves the handler, and when the user leaves the room.
use syncwatch.Shared.{
  ℕ, ◌≤◌, ◌≡◌, inl, inr, Bool, true, false, ◌||◌, Option, some, [], ◌∷◌, arith, str_eq, or_else,
  is_some, any, length, round_thousandth, Bool-cases,
}
use mathlib.Core.Option
use syncwatch.Protocol.{
  RoomSnapshot, sync_state, WsBody, WsMessage, room_state, file_verify_response, room_closed, sync,
  error,
}
use syncwatch.Session.{RoomClient, Output, navigate, on_sync_message, grace_left}
use syncwatch.Handler.{is_new_version, dispatch, handle}

abbrev pub is_navigate : Output → Bool
is_navigate (navigate notice) = true
is_navigate _ = false

-- The messages after which the user is no longer in the room.
abbrev pub ends_room : WsBody → Bool
ends_room (room_closed reason) = true
ends_room (error code message) = str_eq code "tab_replaced" || str_eq code "room_gone"
ends_room _ = false

-- The user is sent to the dashboard by exactly the messages that end the room: its closing, and the
-- errors that the tab was replaced or the room is gone. No message makes more than one output.
pub handle_navigates :
    (msg : WsMessage) (c : RoomClient)
    → (any is_navigate (handle msg c).1 ≡ ends_room msg.body) × (length (handle msg c).1 ≤ 1)
unfolding handle
handle_navigates msg c = go msg.body
  where
    go :
        (b : WsBody)
        → (any is_navigate (dispatch b msg.file_version c).1 ≡ ends_room b)
          × (length (dispatch b msg.file_version c).1 ≤ 1)
    go (error code message) = ground arith
    go (sync (sync_state p t)) = ground arith
    go (sync b) = ground arith
    go (file_verify_response m r f) = ground arith
    go (room_closed reason) = ground arith
    go _ = ground arith

-- After a snapshot of the room the client agrees with it: its participants, its status, its version (the
-- message's own, else that of the file's description) in the store and in the ref, and the host's presence; the
-- chat is untouched; and the sync hook is handed the playback state tagged with that version.
pub room_state-agrees :
    (m : RoomSnapshot) (v : Option ℕ) (c : RoomClient)
    → let (c', out) = dispatch (room_state m) v c in
      let next = or_else v m.file_info.file_version in
      (c'.store.participants ≡ m.participants)
      × (c'.room_status ≡ m.room_status)
      × (c'.store.file_version ≡ next)
      × (c'.file_version_ref ≡ next)
      × (c'.store.host_disconnected
          ≡ is_some (grace_left m.host_disconnected m.host_grace_remaining_ms))
      × (c'.grace_timer
          ≡ Option.map round_thousandth (grace_left m.host_disconnected m.host_grace_remaining_ms))
      × (c'.store.messages ≡ c.store.messages)
      × (out
          ≡ on_sync_message (record {
            file_version = some c'.store.file_version;
            body = sync_state m.playback_state.is_playing m.playback_state.current_time_ms;
          })
            ∷ [])
unfolding dispatch
room_state-agrees m v c =
    elim (Bool-cases (is_new_version c.file_version_ref (or_else v m.file_info.file_version))) [
      | inl e ↦ rw e (ground arith)
      | inr e ↦ rw e (ground arith)
    ]
