-- ===== src/RoomPage/Ready.antt =====
-- frontend/src/pages/RoomPage.tsx: announcing that the local file is ready.
use syncwatch.Shared.{◌≡◌, Bool, Bool-cases, inl, inr, true, false, Option, some, [], ◌∷◌, arith}
use syncwatch.Session.{RoomClient}
use syncwatch.RoomPage.{Video, ready_effect, announce_local_file_ready, is_quiet, send, ready}

ready_effect-quiet :
    (accepted : Bool) (video : Option Video) (c : RoomClient)
    → is_quiet video c ≡ true
    → ready_effect true accepted video c ≡ (c, [])
unfolding ready_effect
ready_effect-quiet accepted video c q = rw q

ready_effect-announces :
    (video : Option Video) (c : RoomClient)
    → is_quiet video c ≡ false
    → ready_effect true true video c ≡ (
      record c { announced_ready_version = some c.file_version_ref },
      send (ready c.file_version_ref) ∷ [],
    )
unfolding ready_effect announce_local_file_ready
ready_effect-announces video c q = ground arith

announced-quiet :
    (video : Option Video) (c : RoomClient)
    → is_quiet video (record c { announced_ready_version = some c.file_version_ref }) ≡ true
announced-quiet video c = ground arith

-- Once the socket has accepted an announcement, running the effect again makes no call and changes
-- nothing, and this for whatever the socket would answer.
pub ready_effect-twice :
    (again : Bool) (video : Option Video) (c : RoomClient)
    → let once = ready_effect true true video c in
      ready_effect true again video once.0 ≡ (once.0, [])
ready_effect-twice again video c = elim (Bool-cases (is_quiet video c)) [
  | inl q ↦ rw (ready_effect-quiet true video c q) (ready_effect-quiet again video c q)
  | inr n ↦ rw (ready_effect-announces video c n) (
      ready_effect-quiet again video
        (record c { announced_ready_version = some c.file_version_ref }) (announced-quiet video c))
]
