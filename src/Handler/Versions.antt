-- ===== src/Handler/Versions.antt =====
-- frontend/src/hooks/useRoomWsHandler.ts: the file version that the client believes in, and the local
-- file that it plays.
use syncwatch.Shared.{
  ℕ, ◌<◌, ◌≡◌, refl, subst, ◌≢◌, inl, inr, Bool, true, false, not, ◌&&◌, Option, none, arith, ltb,
  ◌==◌, or_else, Bool-cases,
}
use syncwatch.Protocol.{
  RoomSnapshot, sync_state, WsBody, WsMessage, room_state, file_verify_response, file_changed, sync,
}
use syncwatch.Session.{RoomClient}
use syncwatch.Handler.{dispatch, handle, on_room_state}

-- The store's version and the ref that commands read are the same.
abbrev pub IsCoherent : RoomClient → Type 0
IsCoherent c = c.file_version_ref ≡ c.store.file_version

-- Every message keeps the version in the store and the version in the ref equal.
pub handle-IsCoherent :
    (msg : WsMessage) (c : RoomClient) → IsCoherent c → IsCoherent (handle msg c).0
unfolding handle
handle-IsCoherent msg c h = go msg.body
  where
    go : (b : WsBody) → IsCoherent (dispatch b msg.file_version c).0
    go (room_state m) = ground arith
    go (sync (sync_state p t)) = ground arith
    go _ = ground arith

-- Whether a message takes the local file away: a changed reference file, or a snapshot of the room
-- whose version is not the one that the client had.
abbrev pub drops_file : ℕ → Option ℕ → WsBody → Bool
drops_file previous version (file_changed hash size duration name) = true
drops_file previous version (room_state m) =
    ltb 0 previous && not (or_else version m.file_info.file_version == previous)
drops_file previous version _ = false

abbrev pub is_verify : WsBody → Bool
is_verify (file_verify_response matches reason hash) = true
is_verify _ = false

-- The local file, its verification and the marks of a ready player are gone.
pub record IsDropped (c : RoomClient) : Type 0 where
  pub no_url : c.store.file_url ≡ none
  pub no_result : c.verify_result ≡ none
  pub not_ready : c.video_ready ≡ false
  pub no_error : c.video_error ≡ none
  pub not_announced : c.announced_ready_version ≡ none

-- The local file and the marks of its player are those of the other state.
pub record IsKept (c c' : RoomClient) : Type 0 where
  pub same_url : c'.store.file_url ≡ c.store.file_url
  pub same_ready : c'.video_ready ≡ c.video_ready
  pub same_error : c'.video_error ≡ c.video_error
  pub same_announced : c'.announced_ready_version ≡ c.announced_ready_version
  pub same_revoked : c'.store.revoked ≡ c.store.revoked

abbrev pub DropsOrKeeps : Bool → RoomClient → RoomClient → Type 0
DropsOrKeeps true c c' = IsDropped c'
DropsOrKeeps false c c' = IsKept c c'

room_state-DropsOrKeeps :
    (m : RoomSnapshot) (v : Option ℕ) (c : RoomClient)
    → DropsOrKeeps (drops_file c.file_version_ref v (room_state m)) c (on_room_state m v c).0
unfolding on_room_state
room_state-DropsOrKeeps m v c = elim (Bool-cases (drops_file c.file_version_ref v (room_state m))) [
  | inl e ↦ rw e (ground arith)
  | inr e ↦ rw e (ground arith)
]

-- A message that takes the local file away (a changed reference file, or a snapshot of the room at
-- another version than the positive one that the client had) clears its URL, its verification, the
-- player's readiness and error and the announced version; every other message leaves the URL, the
-- player's marks and the trace of revoked URLs as they were.
pub handle-DropsOrKeeps :
    (msg : WsMessage) (c : RoomClient)
    → DropsOrKeeps (drops_file c.file_version_ref msg.file_version msg.body) c (handle msg c).0
unfolding handle
handle-DropsOrKeeps msg c = go msg.body
  where
    go :
        (b : WsBody)
        → DropsOrKeeps
            (drops_file c.file_version_ref msg.file_version b)
            c
            (dispatch b msg.file_version c).0
    go (room_state m) = room_state-DropsOrKeeps m msg.file_version c
    go (sync (sync_state p t)) = ground arith
    go _ = ground arith

drops_of_new_version :
    (b : WsBody) (v : Option ℕ) (c : RoomClient)
    → 0 < c.file_version_ref
    → is_verify b ≡ false
    → (dispatch b v c).0.file_version_ref ≢ c.file_version_ref
    → drops_file c.file_version_ref v b ≡ true
unfolding dispatch
drops_of_new_version (room_state m) v c h k e = ground arith
drops_of_new_version (sync (sync_state p t)) v c h k e = absurd (e refl)
drops_of_new_version (file_verify_response m r f) v c h k e = cc
drops_of_new_version _ v c h k e = ground arith

-- A client that has a positive version and hears of another one, by any message but the answer to its
-- own verification request, drops its local file with all marks of the player.
pub new_version_drops_file :
    (msg : WsMessage) (c : RoomClient)
    → 0 < c.file_version_ref
    → is_verify msg.body ≡ false
    → (handle msg c).0.file_version_ref ≢ c.file_version_ref
    → IsDropped (handle msg c).0
unfolding handle
new_version_drops_file msg c h k e =
    subst (λ d. DropsOrKeeps d c (handle msg c).0)
      (drops_of_new_version msg.body msg.file_version c h k e) (handle-DropsOrKeeps msg c)
