-- ===== src/VideoSync/Replay.antt =====
-- frontend/src/hooks/useVideoSync.ts: a state of the room that arrives before the player is ready.
use syncwatch.Shared.{
  ℕ, ◌≡◌, refl, ◌⊎◌, inl, inr, Bool, true, false, not, Option, none, some, List, [], arith, ◌==◌,
  or_else, any, if◌then◌else◌,
}
use syncwatch.Protocol.{SyncBody, sync_state, sync_correction, SyncMessage}
use syncwatch.VideoSync.{
  Video, Snapshot, SyncState, Command, play, resume, align, remember, obey, is_other_version,
  handle_sync_message, resync_to, resync_to_last_state, resume_playback,
}

-- The version that a message's snapshot is kept under.
abbrev pub version_of : ℕ → SyncMessage → ℕ
version_of version msg = or_else msg.file_version version

-- A playback state of the room, tagged with a version or not.
abbrev pub playback : Option ℕ → Bool → ℕ → SyncMessage
playback tag is_playing ms = record { file_version = tag; body = sync_state is_playing ms }

resync-remember :
    (before ms : ℕ) (is_playing : Bool) (tag : Option ℕ) (v : Video) (s : SyncState)
    → let now = or_else tag before in
      resync_to_last_state now (some v) (remember before (playback tag is_playing ms) s)
      ≡ handle_sync_message now (some v) (playback (some now) is_playing ms) s
unfolding handle_sync_message resync_to_last_state
resync-remember before ms is_playing tag v s = ground arith

-- A playback state that arrives while there is no player, or while the hook has another version of the
-- file than the message, calls nothing but is not lost: once a player is ready and the hook has the message's
-- version, `resyncToLastState` makes the same calls, and leaves the same state, as if the message had
-- arrived then.
pub resync-handle_sync_message :
    (before ms : ℕ) (is_playing : Bool) (tag : Option ℕ) (o : Option Video) (v : Video)
    (s : SyncState)
    → (o ≡ none) ⊎ (is_other_version tag before ≡ true)
    → let early = handle_sync_message before o (playback tag is_playing ms) s in
      let now = or_else tag before in
      (early.1 ≡ [])
      × (resync_to_last_state now (some v) early.0
          ≡ handle_sync_message now (some v) (playback (some now) is_playing ms) s)
unfolding handle_sync_message
resync-handle_sync_message before ms is_playing tag none v s h =
    (refl, resync-remember before ms is_playing tag v s)
resync-handle_sync_message before ms is_playing tag (some w) v s (inl h) = cc
resync-handle_sync_message before ms is_playing tag (some w) v s (inr h) =
    rw h (refl, resync-remember before ms is_playing tag v s)

abbrev pub is_play : Command → Bool
is_play play = true
is_play resume = true
is_play _ = false

-- Any call of `play` leaves the state of a playing room.
abbrev pub PlaysWithRoom : SyncState × List Command → Type 0
PlaysWithRoom (s, calls) = any is_play calls ≡ true → s.is_room_playing ≡ true

align-PlaysWithRoom :
    (p : Bool) (ms : ℕ) (v : Video) (s : SyncState)
    → s.is_room_playing ≡ p
    → PlaysWithRoom (align p ms v s)
unfolding align
align-PlaysWithRoom true ms v s e h = e
align-PlaysWithRoom false ms v s e h = ground arith

if-PlaysWithRoom :
    (b : Bool) (r : SyncState × List Command) (s : SyncState)
    → PlaysWithRoom r
    → PlaysWithRoom (if b then (s, []) else r)
if-PlaysWithRoom true r s h k = cc
if-PlaysWithRoom false r s h k = h k

obey-PlaysWithRoom :
    (version : ℕ) (msg : SyncMessage) (v : Video) (s : SyncState)
    → PlaysWithRoom (obey msg.body v (remember version msg s))
unfolding obey remember
obey-PlaysWithRoom version msg v s = go msg.body
  where
    go : (b : SyncBody) → PlaysWithRoom (obey b v (remember version (record msg { body = b }) s))
    go (sync_state p ms) h = align-PlaysWithRoom p ms v _ refl h
    go (sync_correction action ms) h = ground arith
    go _ h = cc

resync-PlaysWithRoom :
    (version : ℕ) (v : Video) (o : Option Snapshot) (s : SyncState)
    → PlaysWithRoom (resync_to version v o s)
unfolding resync_to
resync-PlaysWithRoom version v none s = λ h. cc
resync-PlaysWithRoom version v (some k) s =
    if-PlaysWithRoom (not (k.file_version == version))
      (align k.is_playing k.current_time_ms v (record s { is_room_playing = k.is_playing })) s
      (align-PlaysWithRoom k.is_playing k.current_time_ms v _ refl)

-- Nothing starts local playback while the room is paused: whenever a message of the room, a resync or a
-- tap on the overlay calls `play`, the room is playing in the state that is left.
pub plays_with_room :
    (version : ℕ) (msg : SyncMessage) (o : Option Video) (s : SyncState)
    → PlaysWithRoom (handle_sync_message version o msg s)
      × PlaysWithRoom (resync_to_last_state version o s)
      × PlaysWithRoom (resume_playback o s)
unfolding handle_sync_message resync_to_last_state resume_playback
plays_with_room version msg none s = (λ h. cc, λ h. cc, λ h. cc)
plays_with_room version msg (some v) s = (
  if-PlaysWithRoom (is_other_version msg.file_version version)
      (obey msg.body v (remember version msg s)) (remember version msg s)
      (obey-PlaysWithRoom version msg v s),
  resync-PlaysWithRoom version v s.last_snapshot s,
  ground arith,
)
