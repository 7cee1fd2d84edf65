-- ===== src/RoomPage/Playback.antt =====
-- frontend/src/pages/RoomPage.tsx: playing and pausing.
use syncwatch.Shared.{
  ◌≡◌, refl, Bool, true, false, ◌&&◌, some, List, length, [], ◌∷◌, ◌⊎◌, inl, inr, Bool-cases,
  round_thousandth, if◌then◌else◌,
}
use syncwatch.Protocol.{playing, paused}
use syncwatch.Session.{RoomClient}
use syncwatch.RoomPage.{
  Video, Call, Command, play, pause, send, play_video, pause_video, can_control,
  handle_video_click_toggle,
}

-- The calls that act on the page's own video element.
abbrev pub acts : List Call → List Call
acts [] = []
acts (play_video ∷ calls) = play_video ∷ acts calls
acts (pause_video ∷ calls) = pause_video ∷ acts calls
acts (_ ∷ calls) = acts calls

-- What is sent.
abbrev pub sends : List Call → List Command
sends [] = []
sends (send command ∷ calls) = command ∷ sends calls
sends (_ ∷ calls) = sends calls

-- The click starts the video and shows the status `playing`, with the time sent.
abbrev pub Starts : Video → RoomClient → RoomClient × List Call → Type 0
Starts v c run =
    (v.is_paused ≡ true)
    × (run.0 ≡ record c { room_status = playing })
    × (acts run.1 ≡ play_video ∷ [])
    × (sends run.1 ≡ play (round_thousandth v.current_time_us) c.store.file_version ∷ [])

-- The click stops the video and shows the status `paused`, with the time sent.
abbrev pub Stops : Video → RoomClient → RoomClient × List Call → Type 0
Stops v c run =
    (v.is_paused ≡ false)
    × (run.0 ≡ record c { room_status = paused })
    × (acts run.1 ≡ pause_video ∷ [])
    × (sends run.1 ≡ pause (round_thousandth v.current_time_us) c.store.file_version ∷ [])

-- A click on the video never lets the video and the shown status go apart: without control nothing is
-- sent, and where the socket refuses at most one command is tried, and in both cases neither the video
-- nor the status changes; otherwise a paused video is started as the status becomes `playing`, or a
-- running one is stopped as it becomes `paused`, and the one command sent has the video's time.
pub click_toggle_cases :
    (accepted : Bool) (v : Video) (c : RoomClient)
    → let run = handle_video_click_toggle accepted (some v) c in
      ((can_control c && accepted ≡ false)
        × (run.0 ≡ c)
        × (acts run.1 ≡ [])
        × (length (sends run.1) ≡ (if can_control c then 1 else 0)))
      ⊎ ((can_control c && accepted ≡ true) × (Starts v c run ⊎ Stops v c run))
unfolding handle_video_click_toggle
click_toggle_cases accepted v c = elim (Bool-cases (can_control c)) [
  | inr n ↦ rw n (inl (refl, refl, refl, refl))
  | inl k ↦ elim (Bool-cases v.is_paused) [
    | inl p ↦ rw k (
        rw p (elim (Bool-cases accepted) [
          | inl a ↦ rw a (inr (refl, inl (refl, refl, refl, refl)))
          | inr r ↦ rw r (inl (refl, refl, refl, refl))
        ]))
    | inr p ↦ rw k (
        rw p (elim (Bool-cases accepted) [
          | inl a ↦ rw a (inr (refl, inr (refl, refl, refl, refl)))
          | inr r ↦ rw r (inl (refl, refl, refl, refl))
        ]))
  ]
]
