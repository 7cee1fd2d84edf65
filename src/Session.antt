-- ===== src/Session.antt =====
-- The client's state of one room: what the setters that frontend/src/pages/RoomPage.tsx hands to
-- frontend/src/hooks/useRoomWsHandler.ts write, the room store among it, with the hook's own grace
-- timer. Calls that leave this state are outputs, in the order in which they are made.
use syncwatch.Shared.{
  ℕ, ◌-◌, max, String, Bool, true, false, Option, none, some, leb, round_thousandth, if◌then◌else◌,
}
use syncwatch.Protocol.{RoomStatus, FileVerifyResult, ReferenceFileState, SyncMessage}
use syncwatch.Store.{RoomStore, set_file_url, set_host_disconnected, set_grace_countdown}
use syncwatch.Navigation.{Tone, HomeArrivalNotice}

-- `grace_timer` is the running interval of `graceTimerRef` with its `remainingSeconds`.
pub record RoomClient : Type 0 where
  pub store : RoomStore
  pub file_version_ref : ℕ
  pub verify_result : Option FileVerifyResult
  pub room_status : RoomStatus
  pub reference_file : ReferenceFileState
  pub video_ready : Bool
  pub video_error : Option String
  pub announced_ready_version : Option ℕ
  pub grace_timer : Option ℕ

-- `ToastOptions` of frontend/src/contexts/UiContext.tsx; an absent field is `none`.
pub record ToastOptions : Type 0 where
  pub title : String
  pub description : Option String
  pub tone : Option Tone
  pub duration_ms : Option ℕ

pub data Output : Type 0 where
  -- `navigate('/create', { state: { arrivalNotice } })`
  navigate : HomeArrivalNotice → Output
  push_toast : ToastOptions → Output
  on_sync_message : SyncMessage → Output

unfoldable pub clear_grace_timer : RoomClient → RoomClient
clear_grace_timer c = record c { grace_timer = none }

unfoldable pub start_grace_countdown : ℕ → RoomClient → RoomClient
unfolding clear_grace_timer set_grace_countdown
start_grace_countdown total_seconds c = record (clear_grace_timer c) {
  store = set_grace_countdown total_seconds c.store;
  grace_timer = some total_seconds;
}

-- One second of the interval. `remainingSeconds` goes down to -1 at the lowest, in the tick that stops
-- the interval, where `Math.max` shows 0; so the subtraction that stops at 0 counts the same.
unfoldable pub tick_from : Option ℕ → RoomClient → RoomClient
unfolding clear_grace_timer set_grace_countdown
tick_from none c = c
tick_from (some before) c =
    let remaining = before - 1 in
    let shown = record c {
      store = set_grace_countdown remaining c.store;
      grace_timer = some remaining;
    } in
    if leb remaining 0 then clear_grace_timer shown else shown

unfoldable pub grace_tick : RoomClient → RoomClient
unfolding tick_from
grace_tick c = tick_from c.grace_timer c

-- `clearPlaybackState` of frontend/src/pages/RoomPage.tsx
unfoldable pub clear_playback_state : RoomClient → RoomClient
clear_playback_state c = record c {
  video_ready = false;
  video_error = none;
  announced_ready_version = none;
}

unfoldable pub drop_local_file : RoomClient → RoomClient
unfolding clear_playback_state set_file_url
drop_local_file c =
    clear_playback_state (record c { store = set_file_url none c.store; verify_result = none })

-- `msg.host_disconnected && msg.host_grace_remaining_ms != null`, with the time that is left
abbrev pub grace_left : Option Bool → Option ℕ → Option ℕ
grace_left (some true) (some ms) = some ms
grace_left _ _ = none

unfoldable pub set_host_present : RoomClient → RoomClient
unfolding clear_grace_timer set_host_disconnected set_grace_countdown
set_host_present c = record (clear_grace_timer c) {
  store = set_grace_countdown 0 (set_host_disconnected false c.store);
}

unfoldable pub set_host_gone : ℕ → RoomClient → RoomClient
unfolding start_grace_countdown set_host_disconnected
set_host_gone seconds c =
    start_grace_countdown seconds (record c { store = set_host_disconnected true c.store })

unfoldable pub rehydrate_host : Option ℕ → RoomClient → RoomClient
unfolding set_host_gone set_host_present
rehydrate_host (some ms) c = set_host_gone (max 0 (round_thousandth ms)) c
rehydrate_host none c = set_host_present c
