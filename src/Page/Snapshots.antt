-- ===== src/Page/Snapshots.antt =====
-- frontend/src/pages/RoomPage.tsx over its hooks: a snapshot of the room, from the frame to the element.
use syncwatch.Shared.{
  ℕ, ◌≡◌, ◌≢◌, refl, sym, ap, ◌∙◌, subst, inr, true, false, Option, some, or_else, List, [], ◌∷◌,
  ◌++◌, ◌&&◌, any, map, arith,
}
use syncwatch.Protocol.{RoomSnapshot, WsMessage, room_state}
use syncwatch.Socket.{is_stale}
use syncwatch.Session.{Output, on_sync_message}
use syncwatch.Handler.{handle}
use syncwatch.Handler.Outputs.{room_state-agrees}
use syncwatch.VideoSync.{
  Video, SyncState, Command, is_other_version, handle_sync_message, resync_to_last_state,
}
use syncwatch.VideoSync.Player.{Player, Covers, Follows, is_play, perform_all, sync_state-Follows}
use syncwatch.VideoSync.Replay.{playback, resync-handle_sync_message}
use syncwatch.Page.{Page, PageCall, command, output, pass_on, receive, on_frame}
use syncwatch.Page.Redelivery.{frame_fresh}

-- A frame with a snapshot of the room.
abbrev pub snapshot_frame : (seq server_time tag : Option ℕ) → RoomSnapshot → WsMessage
snapshot_frame seq server_time tag m = record {
  seq = seq;
  server_time = server_time;
  file_version = tag;
  body = room_state m;
}

-- The version that the room has after it.
abbrev pub version_in : (tag : Option ℕ) → RoomSnapshot → ℕ
version_in tag m = or_else tag m.file_info.file_version

-- What the sync hook is asked to do to the element.
abbrev pub commands : List PageCall → List Command
commands [] = []
commands (command c ∷ calls) = c ∷ commands calls
commands (output o ∷ calls) = commands calls

commands-map : (cs : List Command) → commands (map command cs ++ []) ≡ cs
commands-map [] = refl
commands-map (c ∷ cs) = ap (◌∷◌ c) (commands-map cs)

-- The sync hook's part in a snapshot.
abbrev heard : (tag : Option ℕ) → RoomSnapshot → Option Video → Page → SyncState × List Command
heard tag m video p =
    handle_sync_message p.room.store.file_version video
      (playback (some (version_in tag m)) m.playback_state.is_playing
        m.playback_state.current_time_ms)
      p.sync

frame_lem :
    (seq server_time tag : Option ℕ) (m : RoomSnapshot) (video : Option Video) (p : Page)
    → is_stale seq p.connection.last_seq ≡ false
    → let (p', calls) = on_frame video (snapshot_frame seq server_time tag m) p in
      (p'.room.store.participants ≡ m.participants)
      × (p'.room.store.file_version ≡ version_in tag m)
      × (p'.sync ≡ (heard tag m video p).0)
      × (commands calls ≡ (heard tag m video p).1)
unfolding receive handle
frame_lem seq server_time tag m video p h =
    let (people, status, version, ref_, gone, timer, chat, out) = room_state-agrees m tag p.room in
    let told =
      out
      ∙ ap
          (λ v.
            on_sync_message
              (playback (some v) m.playback_state.is_playing m.playback_state.current_time_ms)
            ∷ [])
          version in
    let passed : List Output → SyncState × List PageCall =
      λ o. pass_on p.room.store.file_version video o p.sync in
    rw (frame_fresh video (snapshot_frame seq server_time tag m) p h) (
      people,
      version,
      ap (λ o. (passed o).0) told,
      ap (λ o. commands (passed o).1) told ∙ commands-map (heard tag m video p).1,
    )

module _ (player : Player) where
  open player use {Element, look}

  -- A snapshot that is not stale, for the version of the file that the page has, at a position more than a
  -- quarter of a second before the end: the participants are the snapshot's, and what the page does to the
  -- element brings it to within a quarter of a second of the room's position; it is paused just if the room
  -- is, or if it was paused and the browser does not let it start, where `play` was called all the same.
  pub snapshot-Follows :
      (seq server_time tag : Option ℕ) (m : RoomSnapshot) (e : Element) (p : Page)
      → is_stale seq p.connection.last_seq ≡ false
      → version_in tag m ≡ p.room.store.file_version
      → Covers player m.playback_state.current_time_ms e
      → let (p', calls) = on_frame (some (look e)) (snapshot_frame seq server_time tag m) p in
        (p'.room.store.participants ≡ m.participants)
        × (p'.sync.is_room_playing ≡ m.playback_state.is_playing)
        × (any is_play (commands calls) ≡ (m.playback_state.is_playing && (look e).is_paused))
        × Follows player m.playback_state.is_playing m.playback_state.current_time_ms e
            (perform_all player (commands calls) e)
  snapshot-Follows seq server_time tag m e p h same c =
      let (people, version, synced, told) = frame_lem seq server_time tag m (some (look e)) p h in
      let mine : is_other_version (some (version_in tag m)) p.room.store.file_version ≡ false =
        rw same (ground arith) in
      let (follows, asked, plays, blocked) =
        sync_state-Follows player p.room.store.file_version m.playback_state.current_time_ms
          m.playback_state.is_playing (some (version_in tag m)) e p.sync mine c in
      (
        people,
        ap (λ (s : SyncState). s.is_room_playing) synced ∙ plays,
        ap (any is_play) told ∙ asked,
        subst
            (λ cs.
              Follows player m.playback_state.is_playing m.playback_state.current_time_ms e
                (perform_all player cs e))
            (sym told) follows,
      )

  -- A snapshot that is not stale, for another version than the page has: nothing is done to the element of the
  -- old file, but once there is an element for the new one, in which the snapshot's position is more than a
  -- quarter of a second before the end, `resyncToLastState` brings it to within a quarter of a second of that
  -- position, paused just if the room was, or if it is paused and the browser does not let it start, where
  -- `play` is called all the same.
  pub new_version-Follows :
      (seq server_time tag : Option ℕ) (m : RoomSnapshot) (video : Option Video) (e : Element)
      (p : Page)
      → is_stale seq p.connection.last_seq ≡ false
      → version_in tag m ≢ p.room.store.file_version
      → Covers player m.playback_state.current_time_ms e
      → let (p', calls) = on_frame video (snapshot_frame seq server_time tag m) p in
        let resync = resync_to_last_state p'.room.store.file_version (some (look e)) p'.sync in
        (commands calls ≡ [])
        × (any is_play resync.1 ≡ (m.playback_state.is_playing && (look e).is_paused))
        × Follows player m.playback_state.is_playing m.playback_state.current_time_ms e
            (perform_all player resync.1 e)
  new_version-Follows seq server_time tag m video e p h other c =
      let (people, version, synced, told) = frame_lem seq server_time tag m video p h in
      let theirs : is_other_version (some (version_in tag m)) p.room.store.file_version ≡ true =
        ground arith in
      let (quiet, later) =
        resync-handle_sync_message p.room.store.file_version m.playback_state.current_time_ms
          m.playback_state.is_playing (some (version_in tag m)) video (look e) p.sync
          (inr theirs) in
      let mine : is_other_version (some (version_in tag m)) (version_in tag m) ≡ false =
        ground arith in
      let (follows, asked, plays, blocked) =
        sync_state-Follows player (version_in tag m) m.playback_state.current_time_ms
          m.playback_state.is_playing (some (version_in tag m)) e p.sync mine c in
      (
        told ∙ quiet,
        rw version (rw synced (rw later asked)),
        rw version (rw synced (rw later follows)),
      )
