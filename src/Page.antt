-- ===== src/Page.antt =====
-- frontend/src/pages/RoomPage.tsx: how a frame of the server goes through the page: useWebSocket filters it
-- and hands it to the message handler, which changes the room and hands playback messages on to
-- useVideoSync, by a ref that holds the callback of the last render.
pub mod Redelivery
pub mod Snapshots
pub mod Files
pub mod Frames
pub mod Untagged
pub mod Tags
pub mod Settled
pub mod Leaks
use syncwatch.Shared.{ℕ, Option, List, [], ◌∷◌, ◌++◌, map}
use syncwatch.Protocol.{WsMessage, SyncMessage}
use syncwatch.Connection.{Connection, Call, deliver}
use syncwatch.Socket.{on_message}
use syncwatch.Session.{RoomClient, Output, on_sync_message}
use syncwatch.Handler.{handle}
use syncwatch.VideoSync.{Video, SyncState, Command, handle_sync_message}

pub record Page : Type 0 where
  pub connection : Connection
  pub room : RoomClient
  pub sync : SyncState

-- What the page does outside: a command of the sync hook, or an output of the handler.
pub data PageCall : Type 0 where
  command : Command → PageCall
  output : Output → PageCall

-- The outputs of the handler, of which there is one at most. `version` is the `fileVersion` that the
-- sync callback of the last render has captured.
abbrev pub pass_on :
    (version : ℕ) → Option Video → List Output → SyncState → SyncState × List PageCall
pass_on version video [] s = (s, [])
pass_on version video (on_sync_message msg ∷ out) s =
    let (s', calls) = handle_sync_message version video msg s in
    let (s'', more) = pass_on version video out s' in (s'', map command calls ++ more)
pass_on version video (o ∷ out) s =
    let (s', more) = pass_on version video out s in (s', output o ∷ more)

-- `handleWsMessage`, with the sync callback that it reaches.
unfoldable pub receive :
    Option Video → WsMessage → RoomClient × SyncState → (RoomClient × SyncState) × List PageCall
receive video msg (room, sync) =
    let (room', out) = handle msg room in
    let (sync', calls) = pass_on room.store.file_version video out sync in ((room', sync'), calls)

abbrev pub hand_on : Option Video → List Call → Page → Page × List PageCall
hand_on video [] p = (p, [])
hand_on video (deliver msg ∷ calls) p =
    let (r, out) = receive video msg (p.room, p.sync) in
    let (p', more) = hand_on video calls (record p { room = r.0; sync = r.1 }) in (p', out ++ more)
hand_on video (_ ∷ calls) p = hand_on video calls p

-- A frame arrives, while this is read of the element.
unfoldable pub on_frame : Option Video → WsMessage → Page → Page × List PageCall
unfolding receive
on_frame video msg p =
    let (connection, calls) = on_message msg p.connection in
    hand_on video calls (record p { connection = connection })

unfoldable pub arrive : List (Option Video × WsMessage) → Page → Page × List PageCall
unfolding on_frame
arrive [] p = (p, [])
arrive ((video, msg) ∷ frames) p =
    let (p', calls) = on_frame video msg p in
    let (p'', more) = arrive frames p' in (p'', calls ++ more)
