-- ===== src/Page/Tags.antt =====
-- frontend/src/pages/RoomPage.tsx over its hooks: the version in every frame.
use syncwatch.Shared.{
  ℕ, ◌≡◌, refl, sym, ap, ◌∙◌, Bool, Bool-cases, inl, inr, true, false, Option, none, some, List, [],
  ◌∷◌, ◌++◌, map, All, subst, round_thousandth, ◌==◌, leb, if◌then◌else◌,
}
use syncwatch.Protocol.{RoomStatus, playing, paused}
use syncwatch.Connection.{Value, num, Fields}
use syncwatch.Socket.Frames.{lookup, lookup-outgoing}
use syncwatch.Session.{RoomClient, clear_playback_state}
use syncwatch.Handler.{handle}
use syncwatch.Handler.Versions.{IsCoherent, handle-IsCoherent}
use syncwatch.VideoSync.{SyncState, on_play_rejected}
use syncwatch.RoomPage.{
  Command, play, pause, ready, Call, send, play_video, pause_video, show_hint, resync_to_last_state,
  clear_persisted_room_file, ready_version, announce_local_file_ready, Video, handle_video_can_play,
  ready_effect, is_quiet, handle_video_error, handle_video_click_toggle, handle_play, handle_pause,
  handle_seek, handle_send_chat, handle_verify_request, can_control, with_status, local_call,
}
use syncwatch.Page.{receive}
use syncwatch.Page.Frames.{
  Message, message_of, sent_by_page, frame, Action, receives, can_plays, announces, fails,
  refuses_to_play, clicks, plays, pauses, seeks, says, verifies, by_page, act, frames_of,
}
use syncwatch.Page.Untagged.{Gives, pass_on-Gives}

-- The version that the server reads in a frame.
abbrev pub HasVersion : ℕ → Fields → Type 0
HasVersion version f = lookup "file_version" f ≡ some (num version)

frame-HasVersion :
    (version : ℕ) (m : Message) → Gives version m → HasVersion version (frame version m)
frame-HasVersion version (kind, payload) g = lookup-outgoing "file_version" kind payload version ∙ g

frames-HasVersion :
    (version : ℕ) (ms : List Message)
    → All (Gives version) ms
    → All (HasVersion version) (map (frame version) ms)
frames-HasVersion version [] g = tt
frames-HasVersion version (m ∷ ms) g =
    (frame-HasVersion version m g.0, frames-HasVersion version ms g.1)

-- What an action leaves: one version still, and every message for it.
record IsTagged (r : (RoomClient × SyncState) × List Message) : Type 0 where
  coherent : IsCoherent r.0.0
  given : All (Gives r.0.0.file_version_ref) r.1

-- The version that the page tags with is the hook's.
of_store :
    (room : RoomClient)
    → IsCoherent room
    → ◌≡◌ {A = Option Value} (some (num room.store.file_version)) (some (num room.file_version_ref))
of_store room h = ap (λ v. some (num v)) (sym h)

ready_version-ref :
    (room : RoomClient) → IsCoherent room → ready_version room ≡ room.file_version_ref
ready_version-ref room h = elim (Bool-cases (room.file_version_ref == 0)) [
  | inl none_yet ↦ rw none_yet (sym h)
  | inr some_now ↦ rw some_now refl
]

announced-IsTagged :
    (accepted : Bool) (room : RoomClient) (sync : SyncState) (version : ℕ)
    → IsCoherent room
    → ◌≡◌ {A = Option Value} (some (num version)) (some (num room.file_version_ref))
    → IsTagged (
        by_page sync (
          if accepted then record room { announced_ready_version = some version } else room,
          send (ready version) ∷ [],
        ))
announced-IsTagged true room sync version h e = record { coherent = h; given = (e, tt) }
announced-IsTagged false room sync version h e = record { coherent = h; given = (e, tt) }

quiet-IsTagged :
    (room : RoomClient) (sync : SyncState) → IsCoherent room → IsTagged ((room, sync), [])
quiet-IsTagged room sync h = record { coherent = h; given = tt }

announce-IsTagged :
    (accepted : Bool) (room : RoomClient) (sync : SyncState)
    → IsCoherent room
    → IsTagged (by_page sync (announce_local_file_ready accepted room))
unfolding announce_local_file_ready
announce-IsTagged accepted room sync h = elim (Bool-cases (leb (ready_version room) 0)) [
  | inl no_version ↦ rw no_version (quiet-IsTagged room sync h)
  | inr version ↦ rw version (
      announced-IsTagged accepted room sync (ready_version room) h
        (ap (λ v. some (num v)) (ready_version-ref room h)))
]

sent_by_page-append :
    (xs : List Call) → sent_by_page (xs ++ resync_to_last_state ∷ []) ≡ sent_by_page xs
sent_by_page-append [] = refl
sent_by_page-append (send c ∷ xs) = ap (◌∷◌ (message_of c)) (sent_by_page-append xs)
sent_by_page-append (play_video ∷ xs) = sent_by_page-append xs
sent_by_page-append (pause_video ∷ xs) = sent_by_page-append xs
sent_by_page-append (show_hint ∷ xs) = sent_by_page-append xs
sent_by_page-append (resync_to_last_state ∷ xs) = sent_by_page-append xs
sent_by_page-append (clear_persisted_room_file room ∷ xs) = sent_by_page-append xs

can_plays-IsTagged :
    (accepted : Bool) (room : RoomClient) (sync : SyncState)
    → IsCoherent room
    → IsTagged (by_page sync (handle_video_can_play accepted room))
unfolding handle_video_can_play
can_plays-IsTagged accepted room sync h =
    let able : RoomClient = record room { video_ready = true; video_error = none } in
    let t = announce-IsTagged accepted able sync h in
    record {
      coherent = t.coherent;
      given = rw (sent_by_page-append (announce_local_file_ready accepted able).1) t.given;
    }

announces-IsTagged :
    (is_connected accepted : Bool) (video : Option Video) (room : RoomClient) (sync : SyncState)
    → IsCoherent room
    → IsTagged (by_page sync (ready_effect is_connected accepted video room))
unfolding ready_effect
announces-IsTagged false accepted video room sync h = quiet-IsTagged _ sync h
announces-IsTagged true accepted video room sync h = elim (Bool-cases (is_quiet video room)) [
  | inl quiet ↦ rw quiet (quiet-IsTagged room sync h)
  | inr due ↦ rw due (announce-IsTagged accepted room sync h)
]

sent-IsTagged :
    (accepted : Bool) (st : RoomStatus) (m : Command) (call : Call) (room : RoomClient)
    (sync : SyncState)
    → IsCoherent room
    → Gives room.file_version_ref (message_of m)
    → sent_by_page (call ∷ []) ≡ []
    → IsTagged (by_page sync (with_status accepted st room, send m ∷ local_call accepted call))
sent-IsTagged true st m call room sync h g q = record { coherent = h; given = (g, rw q tt) }
sent-IsTagged false st m call room sync h g q = record { coherent = h; given = (g, tt) }

plain-IsTagged :
    (accepted : Bool) (st : RoomStatus) (m : Command) (room : RoomClient) (sync : SyncState)
    → IsCoherent room
    → Gives room.file_version_ref (message_of m)
    → IsTagged (by_page sync (with_status accepted st room, send m ∷ []))
plain-IsTagged true st m room sync h g = record { coherent = h; given = (g, tt) }
plain-IsTagged false st m room sync h g = record { coherent = h; given = (g, tt) }

clicks-IsTagged :
    (accepted : Bool) (video : Option Video) (room : RoomClient) (sync : SyncState)
    → IsCoherent room
    → IsTagged (by_page sync (handle_video_click_toggle accepted video room))
unfolding handle_video_click_toggle
clicks-IsTagged accepted none room sync h = elim (Bool-cases (can_control room)) [
  | inl yes_ ↦ rw yes_ (quiet-IsTagged room sync h)
  | inr no_ ↦ rw no_ (quiet-IsTagged room sync h)
]
clicks-IsTagged accepted (some v) room sync h = elim (Bool-cases (can_control room)) [
  | inr no_ ↦ rw no_ (quiet-IsTagged room sync h)
  | inl yes_ ↦ elim (Bool-cases v.is_paused) [
    | inl still ↦ rw yes_ (
        rw still (
          sent-IsTagged accepted playing
            (play (round_thousandth v.current_time_us) room.store.file_version) play_video room sync
            h (of_store room h) refl))
    | inr runs ↦ rw yes_ (
        rw runs (
          sent-IsTagged accepted paused
            (pause (round_thousandth v.current_time_us) room.store.file_version) pause_video room
            sync h (of_store room h) refl))
  ]
]

act-IsTagged :
    (a : Action) (room : RoomClient) (sync : SyncState)
    → IsCoherent room
    → IsTagged (act a (room, sync))
unfolding act receive on_play_rejected handle_video_error handle_play handle_pause handle_seek
    handle_send_chat handle_verify_request clear_playback_state
act-IsTagged (receives video msg) room sync h = record {
  coherent = handle-IsCoherent msg room h;
  given =
      pass_on-Gives (handle msg room).0.file_version_ref room.store.file_version video
        (handle msg room).1 sync;
}
act-IsTagged (can_plays accepted) room sync h = can_plays-IsTagged accepted room sync h
act-IsTagged (announces is_connected accepted video) room sync h =
    announces-IsTagged is_connected accepted video room sync h
act-IsTagged refuses_to_play room sync h = record { coherent = h; given = (refl, tt) }
act-IsTagged (fails code) room sync h = record { coherent = h; given = (refl, tt) }
act-IsTagged (clicks accepted video) room sync h = clicks-IsTagged accepted video room sync h
act-IsTagged (plays accepted ms) room sync h =
    plain-IsTagged accepted playing (play ms room.store.file_version) room sync h (of_store room h)
act-IsTagged (pauses accepted ms) room sync h =
    plain-IsTagged accepted paused (pause ms room.store.file_version) room sync h (of_store room h)
act-IsTagged (seeks ms) room sync h = record { coherent = h; given = (of_store room h, tt) }
act-IsTagged (says content) room sync h = record { coherent = h; given = (refl, tt) }
act-IsTagged (verifies hash size duration_ms name) room sync h = record {
  coherent = h;
  given = (refl, tt);
}

-- Every frame of these actions has the version that the room then has.
abbrev pub AllTagged : List Action → RoomClient × SyncState → Type 0
AllTagged [] r = Unit
AllTagged (a ∷ as_) r =
    let r' = act a r in
    All (HasVersion r'.0.0.store.file_version) (frames_of r') × AllTagged as_ r'.0

-- Whatever the server sends, the element reports and the user does, from one version in the store and in the
-- ref: every frame that the page or its sync hook sends, whether the sender gives a version or not, has
-- under `file_version` the version of the file that the room then has.
pub every_frame_tagged :
    (actions : List Action) (room : RoomClient) (sync : SyncState)
    → IsCoherent room
    → AllTagged actions (room, sync)
every_frame_tagged [] room sync h = tt
every_frame_tagged (a ∷ actions) room sync h =
    let t = act-IsTagged a room sync h in
    let (r', messages) = act a (room, sync) in
    (
      subst (λ v. All (HasVersion v) (frames_of (r', messages))) t.coherent
          (frames-HasVersion r'.0.file_version_ref messages t.given),
      every_frame_tagged actions r'.0 r'.1 t.coherent,
    )
