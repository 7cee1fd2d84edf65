-- ===== src/Handler.antt =====
-- frontend/src/hooks/useRoomWsHandler.ts: what the client does with each message of the server.
pub mod Versions
pub mod Grace
pub mod Roster
pub mod Outputs
use syncwatch.Shared.{
  ℕ, ◌-◌, max, String, Bool, true, false, not, ◌&&◌, Option, none, some, List, [], ◌∷◌, ◌++◌, map,
  ltb, leb, ◌==◌, str_eq, or_else, filter, round_thousandth, if◌then◌else◌,
}
use syncwatch.Protocol.{
  RoomStatus, waiting_file, waiting_ready, paused, playing, closing, ChatMessage, WsParticipant,
  FileVerifyResult, ReferenceFileState, RoomSnapshot, SyncBody, sync_state, sync_correction,
  sync_check, playback_rate, WsBody, WsMessage, SyncMessage, room_state, user_joined, user_left,
  chat_message, file_verify_response, file_changed, participant_ready, host_disconnected,
  host_reconnected, room_closed, sync, participant_status, error, unknown,
}
use syncwatch.Store.{
  RoomStore, value, updater, set_participants, add_message, set_file_url, set_file_version,
  set_host_disconnected, set_grace_countdown,
}
use syncwatch.Navigation.{
  Tone, warning, HomeArrivalNotice, HomeArrivalNoticeKey, room_closed_host_left,
  room_closed_host_timeout, room_closed_deleted, room_closed_generic, tab_replaced, room_not_found,
  get_home_arrival_notice,
}
use syncwatch.Session.{
  RoomClient, ToastOptions, Output, navigate, push_toast, on_sync_message, clear_grace_timer,
  start_grace_countdown, clear_playback_state, drop_local_file, grace_left, set_host_present,
  set_host_gone, rehydrate_host,
}

-- The setters of `case 'room_state'` that stand before the host's presence.
abbrev pub adopt_snapshot : RoomSnapshot → ℕ → RoomClient → RoomClient
adopt_snapshot m next c = record c {
  store = set_file_version next (set_participants (value m.participants) c.store);
  file_version_ref = next;
  room_status = m.room_status;
  reference_file = record {
    file_name = m.file_info.file_name;
    file_version = m.file_info.file_version;
  };
}

-- `previousFileVersion > 0 && nextFileVersion !== previousFileVersion`
abbrev pub is_new_version : ℕ → ℕ → Bool
is_new_version previous next = ltb 0 previous && not (next == previous)

unfoldable pub on_room_state : RoomSnapshot → Option ℕ → RoomClient → RoomClient × List Output
unfolding rehydrate_host drop_local_file set_participants set_file_version
on_room_state m version c =
    let next = or_else version m.file_info.file_version in
    let host =
      rehydrate_host (grace_left m.host_disconnected m.host_grace_remaining_ms)
        (adopt_snapshot m next c) in
    (
      if is_new_version c.file_version_ref next then drop_local_file host else host,
      on_sync_message (record {
        file_version = some next;
        body = sync_state m.playback_state.is_playing m.playback_state.current_time_ms;
      })
          ∷ [],
    )

abbrev pub is_user : String → WsParticipant → Bool
is_user id p = str_eq p.user_id id

abbrev pub newcomer : String → String → WsParticipant
newcomer id name = record {
  user_id = id;
  username = name;
  is_ready = false;
  joined_at = none;
  status = none;
  status_detail = none;
}

abbrev pub joined : String → String → List WsParticipant → List WsParticipant
joined id name current = filter (λ p. not (is_user id p)) current ++ newcomer id name ∷ []

abbrev pub left : String → List WsParticipant → List WsParticipant
left id = filter (λ p. not (is_user id p))

-- `current.map(p => p.user_id === id ? f(p) : p)`
abbrev pub map_user :
    String → (WsParticipant → WsParticipant) → List WsParticipant → List WsParticipant
map_user id f = map (λ p. if is_user id p then f p else p)

abbrev pub update_participants :
    (List WsParticipant → List WsParticipant) → RoomClient → RoomClient × List Output
update_participants f c = (record c { store = set_participants (updater f) c.store }, [])

unfoldable pub on_file_verify_response :
    Bool → Option String → Option ℕ → Option String → RoomClient → RoomClient × List Output
unfolding set_file_version
on_file_verify_response matches reason version hash c = (adopt matches version, [])
  where
    shown : RoomClient
    shown = record c {
      verify_result = some (record {
        is_match = matches;
        reason = reason;
        file_version = version;
        file_hash = hash;
      });
    }

    -- the branch `msg.match && msg.file_version !== undefined`
    adopt : Bool → Option ℕ → RoomClient
    adopt true (some v) = record shown { store = set_file_version v c.store; file_version_ref = v }
    adopt true none = shown
    adopt false _ = shown

unfoldable pub on_file_changed : String → Option ℕ → RoomClient → RoomClient × List Output
unfolding set_file_version drop_local_file
on_file_changed name version c =
    let v = or_else version 0 in
    let changed = record c {
      store = set_file_version v c.store;
      file_version_ref = v;
      room_status = waiting_ready;
      reference_file = record { file_name = some name; file_version = v };
    } in
    (drop_local_file changed, [])

unfoldable pub on_host_disconnected : ℕ → RoomClient → RoomClient × List Output
unfolding start_grace_countdown set_host_disconnected
on_host_disconnected grace_period_ms c =
    let gone = record c { store = set_host_disconnected true c.store; room_status = closing } in
    (start_grace_countdown (round_thousandth grace_period_ms) gone, [])

unfoldable pub on_host_reconnected : Option RoomStatus → RoomClient → RoomClient × List Output
unfolding set_host_present
on_host_reconnected status c =
    (record (set_host_present c) { room_status = or_else status paused }, [])

abbrev pub closed_notice : String → HomeArrivalNoticeKey
closed_notice reason =
    if str_eq reason "host_left"
    then room_closed_host_left
    else if str_eq reason "host_timeout"
    then room_closed_host_timeout
    else if str_eq reason "deleted"
    then room_closed_deleted
    else room_closed_generic

abbrev pub warn : String → String → Output
warn title text = push_toast (record {
  title = title;
  description = some text;
  tone = some warning;
  duration_ms = some 3200;
})

-- The outputs of `case 'error'`; the empty text is false under `||` and in the last test.
abbrev pub error_outputs : String → String → List Output
error_outputs code message =
    if str_eq code "tab_replaced"
    then navigate (get_home_arrival_notice tab_replaced) ∷ []
    else if str_eq code "room_gone"
    then navigate (get_home_arrival_notice room_not_found) ∷ []
    else if str_eq code "rate_limited"
    then warn "Slow down"
        (if str_eq message "" then "You are sending messages too quickly." else message)
      ∷ []
    else if str_eq code "file_version_mismatch"
    then []
    else if str_eq message ""
    then []
    else warn "Heads up" message ∷ []

abbrev pub forward : Option ℕ → SyncBody → Output
forward version body = on_sync_message (record { file_version = version; body = body })

unfoldable pub on_sync : SyncBody → Option ℕ → RoomClient → RoomClient × List Output
on_sync (sync_state is_playing ms) v c = (
  record c { room_status = if is_playing then playing else paused },
  forward v (sync_state is_playing ms) ∷ [],
)
on_sync (sync_correction a ms) v c = (c, forward v (sync_correction a ms) ∷ [])
on_sync (sync_check ms p) v c = (c, forward v (sync_check ms p) ∷ [])
on_sync (playback_rate r) v c = (c, forward v (playback_rate r) ∷ [])

-- The `switch` on `msg.type`.
unfoldable pub dispatch : WsBody → Option ℕ → RoomClient → RoomClient × List Output
unfolding on_room_state set_participants add_message on_file_verify_response on_file_changed
    on_host_disconnected on_host_reconnected clear_grace_timer on_sync
dispatch (room_state m) v c = on_room_state m v c
dispatch (user_joined id name connection) v c = update_participants (joined id name) c
dispatch (user_left id name reason) v c = update_participants (left id) c
dispatch (chat_message m) v c = (record c { store = add_message m c.store }, [])
dispatch (file_verify_response matches reason hash) v c =
    on_file_verify_response matches reason v hash c
dispatch (file_changed hash size duration name) v c = on_file_changed name v c
dispatch (participant_ready id ready) v c =
    update_participants (map_user id (λ p. record p { is_ready = ready })) c
dispatch (host_disconnected ms) v c = on_host_disconnected ms c
dispatch (host_reconnected status) v c = on_host_reconnected status c
dispatch (room_closed reason) v c =
    (clear_grace_timer c, navigate (get_home_arrival_notice (closed_notice reason)) ∷ [])
dispatch (sync body) v c = on_sync body v c
dispatch (participant_status id status detail) v c =
    update_participants
      (map_user id (λ p. record p { status = some status; status_detail = detail })) c
dispatch (error code message) v c = (c, error_outputs code message)
dispatch unknown v c = (c, [])

unfoldable pub handle : WsMessage → RoomClient → RoomClient × List Output
unfolding dispatch
handle msg c = dispatch msg.body msg.file_version c
