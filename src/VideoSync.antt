-- ===== src/VideoSync.antt =====
-- frontend/src/hooks/useVideoSync.ts: the local player follows the room. The hook reads the video element
-- and calls it: what it reads is a `Video`, and what it calls is a list of commands. Positions of the
-- element, fractions of a second in the source, are whole microseconds here.
pub mod Player
pub mod Replay
pub mod Report
use syncwatch.Shared.{
  ℕ, ◌+◌, ◌-◌, ◌*◌, String, Bool, true, false, not, ◌&&◌, Option, none, some, List, [], ◌∷◌, ◌++◌,
  ltb, leb, ◌==◌, str_eq, or_else, round_thousandth, if◌then◌else◌,
}
use syncwatch.Protocol.{
  SyncBody, sync_state, sync_correction, sync_check, playback_rate, SyncMessage,
}
use syncwatch.Connection.{Value, num, text, flag, Fields}

-- What the hook reads of the `HTMLVideoElement`; `buffered` holds the start and the end of each range.
pub record Video : Type 0 where
  pub current_us : ℕ
  pub is_paused : Bool
  pub has_error : Bool
  pub ready_state : ℕ
  pub buffered : List (ℕ × ℕ)

pub record Snapshot : Type 0 where
  pub is_playing : Bool
  pub current_time_ms : ℕ
  pub file_version : ℕ

pub record SyncState : Type 0 where
  pub autoplay_blocked : Bool
  pub is_room_playing : Bool
  pub last_snapshot : Option Snapshot

pub data Command : Type 0 where
  -- `video.currentTime = …`
  seek : (us : ℕ) → Command
  -- `video.play()`, with the handlers that set the overlay, and with those of `resumePlayback`
  play resume : Command
  pause : Command
  -- `video.playbackRate = …`, in thousandths
  set_rate : ℕ → Command
  -- the timer that sets the rate back
  restart_nudge_timer : Command
  send : String → Fields → Command

unfoldable pub buffer_health_ms : ℕ → List (ℕ × ℕ) → ℕ
buffer_health_ms current [] = 0
buffer_health_ms current ((start, end) ∷ ranges) =
    if leb start current && leb current end
    then round_thousandth (end - current)
    else buffer_health_ms current ranges

unfoldable pub playback_status : Bool → Video → String
playback_status blocked v =
    if blocked
    then "waiting_interaction"
    else if v.has_error
    then "error"
    else if ltb v.ready_state 3 && not v.is_paused
    then "buffering"
    else if v.is_paused
    then "paused"
    else "playing"

unfoldable pub sync_report : Bool → Video → Command
unfolding buffer_health_ms playback_status
sync_report blocked v = send "sync_report" (
    ("current_time_ms", num (round_thousandth v.current_us))
    ∷ ("is_playing", flag (not v.is_paused))
    ∷ ("buffer_health_ms", num (buffer_health_ms v.current_us v.buffered))
    ∷ ("playback_status", text (playback_status blocked v))
    ∷ [])

-- `Math.abs(a - b)`
abbrev pub distance : ℕ → ℕ → ℕ
distance a b = (a - b) + (b - a)

-- The block that `handleSyncMessage` and `resyncToLastState` share: bring the element to the room's
-- position if it is more than a quarter of a second off, and play or pause it as the room does.
unfoldable pub align : Bool → ℕ → Video → SyncState → SyncState × List Command
align is_playing ms v s =
    let moved =
      if ltb 250000 (distance v.current_us (ms * 1000)) then seek (ms * 1000) ∷ [] else [] in
    if is_playing
    then (s, moved ++ (if v.is_paused then play ∷ [] else []))
    else (record s { autoplay_blocked = false }, moved ++ (if v.is_paused then [] else pause ∷ []))

-- What is kept of a message before the element is looked at.
unfoldable pub remember : ℕ → SyncMessage → SyncState → SyncState
remember file_version msg s = elim msg.body [
  | sync_state is_playing ms ↦ record s {
    is_room_playing = is_playing;
    last_snapshot = some (record {
      is_playing = is_playing;
      current_time_ms = ms;
      file_version = or_else msg.file_version file_version;
    });
  }
  | _ ↦ s
]

-- The `switch` on the message's type, with an element at hand.
unfoldable pub obey : SyncBody → Video → SyncState → SyncState × List Command
unfolding align sync_report
obey (sync_state is_playing ms) v s = align is_playing ms v s
obey (sync_check ms is_playing) v s = (s, sync_report s.autoplay_blocked v ∷ [])
obey (sync_correction action ms) v s =
    (s, if str_eq action "seek" then seek (ms * 1000) ∷ [] else [])
obey (playback_rate rate) v s = (s, set_rate rate ∷ restart_nudge_timer ∷ [])

-- `msg.file_version !== undefined && msg.file_version !== fileVersion`
abbrev pub is_other_version : Option ℕ → ℕ → Bool
is_other_version none version = false
is_other_version (some v) version = not (v == version)

unfoldable pub handle_sync_message :
    (file_version : ℕ) → Option Video → SyncMessage → SyncState → SyncState × List Command
unfolding remember obey
handle_sync_message file_version none msg s = (remember file_version msg s, [])
handle_sync_message file_version (some v) msg s =
    if is_other_version msg.file_version file_version
    then (remember file_version msg s, [])
    else obey msg.body v (remember file_version msg s)

unfoldable pub resync_to :
    (file_version : ℕ) → Video → Option Snapshot → SyncState → SyncState × List Command
unfolding align
resync_to file_version v none s = (s, [])
resync_to file_version v (some snapshot) s =
    if not (snapshot.file_version == file_version)
    then (s, [])
    else align snapshot.is_playing snapshot.current_time_ms v
        (record s { is_room_playing = snapshot.is_playing })

unfoldable pub resync_to_last_state :
    (file_version : ℕ) → Option Video → SyncState → SyncState × List Command
unfolding resync_to
resync_to_last_state file_version none s = (s, [])
resync_to_last_state file_version (some v) s = resync_to file_version v s.last_snapshot s

unfoldable pub resume_playback : Option Video → SyncState → SyncState × List Command
resume_playback none s = (s, [])
resume_playback (some v) s =
    if not s.is_room_playing then (record s { autoplay_blocked = false }, []) else (s, resume ∷ [])

-- The promises of `play`: both handlers of the one that follows the room, and of `resumePlayback`, whose
-- rejection changes nothing.
unfoldable pub on_play_resolved : SyncState → SyncState × List Command
on_play_resolved s = (record s { autoplay_blocked = false }, [])

unfoldable pub on_play_rejected : SyncState → SyncState × List Command
on_play_rejected s = (
  record s { autoplay_blocked = true },
  send "playback_error" (("error_code", text "autoplay_blocked") ∷ []) ∷ [],
)

-- The timer of `playback_rate` fires, with an element or without.
unfoldable pub on_nudge_timeout : Option Video → List Command
on_nudge_timeout none = []
on_nudge_timeout (some v) = set_rate 1000 ∷ []
